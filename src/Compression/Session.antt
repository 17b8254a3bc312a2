-- ===== src/Compression/Session.antt =====
-- compression_local_core.c: opening and closing the compression engine.
use flex_bso.Common.{Bool, true, false}
use flex_bso.Compression.{DocaError, doca_success, doca_error, other_doca_error, checked}

-- What is open: the compress context, and the core objects with their device.
pub record Session : Type 0 where
  pub ctx : Bool
  pub core : Bool

-- The answers of `doca_log_create_standard_backend`, `doca_compress_create`,
-- `open_doca_device_with_capabilities` and `init_core_objects`, which are DOCA's.
pub record Opening : Type 0 where
  pub log_backend : DocaError
  pub create : DocaError
  pub open_device : DocaError
  pub init_core : DocaError

-- The conjunction of two `doca_error_t`, of which DOCA_SUCCESS is 0: it is 0 if one of them is.
unfoldable pub compress_jobs_compress_decompress_is_supported : DocaError → DocaError → DocaError
compress_jobs_compress_decompress_is_supported compress decompress =
    checked compress (λ _. checked decompress (λ _. doca_error (other_doca_error 1)) doca_success)
      doca_success

unfoldable pub file_compression_init : Opening → Session → DocaError × Session
file_compression_init o s =
    checked o.create (λ e. (doca_error e, s))
      (checked o.open_device (λ e. (doca_error e, record s { ctx = false }))
        (checked o.init_core (λ e. (doca_error e, record { ctx = false; core = false }))
          (doca_success, record { ctx = true; core = true })))

-- Both are destroyed; an error is only logged.
unfoldable pub file_compression_cleanup : Session → Session
file_compression_cleanup s = record { ctx = false; core = false }

-- `true` is EXIT_SUCCESS.
unfoldable pub doca_compress_init : Opening → Session → Bool × Session
unfolding file_compression_init
doca_compress_init o s =
    checked o.log_backend (λ _. (false, s))
      (let p = file_compression_init o s in checked p.0 (λ _. (false, p.1)) (true, p.1))

unfoldable pub doca_compress_cleanup : Session → Session
unfolding file_compression_cleanup
doca_compress_cleanup s = file_compression_cleanup s
