-- ===== src/Compression.antt =====
-- bdev-passthru-compress/compress/compression_local_core.c: compression by the DOCA library or by zlib.
-- DOCA, zlib and the operating system are not part of the repository: their answers are parameters.
pub mod Job
pub mod Balance
pub mod Zlib
pub mod File
pub mod Session
pub mod Outcome
pub mod Tests
use flex_bso.Common.{
  ℕ, ◌*◌, ◌%◌, ◌<◌, Bool, true, false, List, min, max, ltb, if◌then◌else◌, add64, mul64,
}

-- The `doca_error_t` values that the sources return or test, besides DOCA_SUCCESS.
pub data DocaErrorKind : Type 0 where
  error_again error_no_memory error_io_failed error_bad_state error_invalid_value : DocaErrorKind
  other_doca_error : ℕ → DocaErrorKind

-- `doca_error_t`
pub data DocaError : Type 0 where
  doca_success : DocaError
  doca_error : DocaErrorKind → DocaError

-- `if (result != DOCA_SUCCESS) { … return …; }`, and what follows it.
abbrev pub checked {ℓ} : {A : Type ℓ} → DocaError → (DocaErrorKind → A) → A → A
checked doca_success stop next = next
checked (doca_error e) stop next = stop e

-- `enum doca_compress_job_types`, of DOCA
pub data JobType : Type 0 where
  compress_deflate_job decompress_deflate_job : JobType

-- `enum file_compression_compress_method`
pub data CompressMethod : Type 0 where
  compress_deflate_hw compress_deflate_sw : CompressMethod

-- The DOCA calls of `compress_file_hw` and `populate_dst_buf` that can fail, in the order of the code.
pub data DocaCall : Type 0 where
  src_set_memrange src_set_free_cb src_start src_buf_by_addr : DocaCall
  dst_set_memrange dst_set_free_cb dst_start dst_buf_by_addr workq_submit : DocaCall

-- What the DOCA library and the allocator answer. `polls k` is the answer of the k-th
-- `doca_workq_progress_retrieve`; `event_result` is how a job ended, by its source and the size of its
-- destination; `output` is what it leaves in the destination buffer, and
-- `output_chksum` where its checksum is to go. `size_file_written` says whether the file `compress_size` can be
-- opened and written.
pub record Doca : Type 0 where
  pub call : DocaCall → DocaError
  pub polls : ℕ → DocaError
  pub event_result : JobType → List ℕ → ℕ → DocaError
  pub output : JobType → List ℕ → List ℕ
  pub output_chksum : JobType → List ℕ → ℕ
  pub calloc_file : Bool
  pub calloc_dst : Bool
  pub size_file_written : Bool

abbrev pub max_file_size : ℕ
max_file_size = 256 * 1024 * 1024

abbrev pub min_dst_buf_size : ℕ
min_dst_buf_size = 1024 * 1024

abbrev pub decompress_ratio : ℕ
decompress_ratio = 5

-- The first lines of `compress_file`: the size of the destination, in `size_t`.
unfoldable pub dst_buf_size : JobType → ℕ → ℕ
dst_buf_size compress_deflate_job file_size =
    let doubled = max (add64 file_size 16) (mul64 file_size 2) in
    let capped = if ltb max_file_size doubled then max_file_size else doubled in
    if ltb capped min_dst_buf_size then min_dst_buf_size else capped
dst_buf_size decompress_deflate_job file_size =
    let capped = min max_file_size (mul64 decompress_ratio file_size) in
    if ltb capped min_dst_buf_size then min_dst_buf_size else capped
