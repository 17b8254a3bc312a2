-- ===== src/Compression/File.antt =====
-- compression_local_core.c: `compress_file`, and the functions on files around it.
use flex_bso.Common.{
  ℕ, ◌+◌, Bool, false, if◌then◌else◌, ◌||◌, ◌==◌, ltb, Option, none, some, List, [], length,
}
use flex_bso.Compression.{
  DocaErrorKind, DocaError, doca_success, doca_error, error_no_memory, error_io_failed,
  error_bad_state, error_invalid_value, JobType, compress_deflate_job, decompress_deflate_job,
  CompressMethod, compress_deflate_hw, compress_deflate_sw, Doca, checked, dst_buf_size,
  max_file_size,
}
use flex_bso.Compression.Job.{Holds, compress_file_hw}
use flex_bso.Compression.Zlib.{Zlib, compress_file_sw, decompress_file_sw, calculate_checksum_sw}

-- The result of `compress_file` and its three outputs: the data that `*compressed_file` points to, which
-- zeros follow up to the end of the buffer, and, where they are set, the length and the checksum.
pub record Compressed : Type 0 where
  pub result : DocaError
  pub file : List ℕ
  pub file_len : Option ℕ
  pub chksum : Option ℕ

-- A failure that leaves the buffer as `calloc` made it, or a null pointer.
abbrev pub no_output : DocaErrorKind → Option ℕ → Compressed
no_output e chksum = record { result = doca_error e; file = []; file_len = none; chksum = chksum }

abbrev pub output_of : List ℕ → Option ℕ → Compressed
output_of file chksum = record {
  result = doca_success;
  file = file;
  file_len = some (length file);
  chksum = chksum;
}

abbrev pub hw_output :
    Doca → JobType → List ℕ → Option (DocaError × List ℕ × Holds) → Option (Compressed × Holds)
hw_output d job src none = none
hw_output d job src (some (doca_error e, file, h)) = some (no_output e none, h)
hw_output d job src (some (doca_success, file, h)) =
    some (output_of file (some (d.output_chksum job src)), h)

unfoldable pub compress_file :
    Doca → Zlib → ℕ → JobType → CompressMethod → List ℕ → Holds → Option (Compressed × Holds)
unfolding compress_file_hw dst_buf_size
compress_file d z fuel job method src h =
    let size = dst_buf_size job (length src) in
    if d.calloc_file
    then elim method [
      | compress_deflate_sw ↦ elim job [
        | compress_deflate_job ↦
            let sum = some (calculate_checksum_sw z src) in
            some (
              checked (compress_file_sw z src size) (λ e. no_output e sum)
                  (output_of (z.deflated src) sum),
              h,
            )
        | decompress_deflate_job ↦ some (
          checked (decompress_file_sw z src size) (λ e. no_output e none)
              (output_of (z.inflated src) (some (calculate_checksum_sw z (z.inflated src)))),
          h,
        )
      ]
      | compress_deflate_hw ↦ hw_output d job src (compress_file_hw d fuel job src size h)
    ]
    else some (no_output error_no_memory none, h)

-- What the operating system answers on the two files of a run, and what the input file holds.
pub record Files : Type 0 where
  pub open_input : Bool
  pub fstat_input : Bool
  pub mmap_input : Bool
  pub contents : List ℕ
  pub open_output : Bool
  pub write_output : Bool

-- A file's data is mapped, if that succeeds; the descriptor then stays open.
unfoldable pub read_local_file_mmap : Files → DocaError × Option (List ℕ)
read_local_file_mmap fs =
    if fs.open_input
    then if fs.fstat_input
      then if length fs.contents == 0 || ltb max_file_size (length fs.contents)
        then (doca_error error_invalid_value, none)
        else if fs.mmap_input
        then (doca_success, some fs.contents)
        else (doca_error error_no_memory, none)
      else (doca_error error_io_failed, none)
    else (doca_error error_io_failed, none)

-- The result, the data that was written, and how often the function freed the caller's buffer.
unfoldable pub write_local_file : Files → List ℕ → DocaError × Option (List ℕ) × ℕ
write_local_file fs bytes =
    if fs.open_output
    then if fs.write_output
      then (doca_success, some bytes, 0)
      else (doca_error error_io_failed, none, 1)
    else (doca_error error_io_failed, none, 1)

-- How a run over a file ends: the result, the output file, and how often the buffer of the result was freed.
pub record FileRun : Type 0 where
  pub status : DocaError
  pub written : Option (List ℕ)
  pub frees : ℕ

-- Where reading the input fails, the sources go on with a null pointer and a length that was never set, which is
-- undefined: the model gives no result then.
abbrev pub on_read {ℓ} : {A : Type ℓ} → DocaError × Option (List ℕ) → (List ℕ → Option A) → Option A
on_read (rc, none) next = none
on_read (rc, some bytes) next = next bytes

abbrev file_written : FileRun → Files → List ℕ → FileRun
file_written run fs bytes =
    let w = write_local_file fs bytes in record run { written = w.1; frees = run.frees + w.2 }

-- The state of `file_compressor` from the result of `compress_file` on.
abbrev compressor_end : Files → Compressed → FileRun
compressor_end fs c =
    checked c.result (λ e. record { status = doca_error e; written = none; frees = 1 })
      (file_written (record { status = doca_success; written = none; frees = 0 }) fs c.file)

abbrev compressor_run : Files → Option (Compressed × Holds) → Option (FileRun × Option ℕ × Holds)
compressor_run fs none = none
compressor_run fs (some p) = some (compressor_end fs p.0, p.0.chksum, p.1)

-- The second field of the result is the checksum of the caller.
unfoldable pub file_compressor :
    Doca → Zlib → ℕ → CompressMethod → Files → Holds → Option (FileRun × Option ℕ × Holds)
unfolding compress_file read_local_file_mmap write_local_file
file_compressor d z fuel method fs h =
    on_read (read_local_file_mmap fs)
      (λ src. compressor_run fs (compress_file d z fuel compress_deflate_job method src h))

abbrev is_checksum : Option ℕ → ℕ → Bool
is_checksum none n = false
is_checksum (some c) n = c == n

-- The state of `file_decompressor` from the result of `compress_file` on.
abbrev decompressor_end : Files → ℕ → Compressed → FileRun
decompressor_end fs original c =
    checked c.result (λ e. record { status = doca_error e; written = none; frees = 1 })
      (if is_checksum c.chksum original
        then file_written (record { status = doca_success; written = none; frees = 1 }) fs c.file
        else record { status = doca_error error_bad_state; written = none; frees = 1 })

abbrev pub decompressor_run : Files → ℕ → Option (Compressed × Holds) → Option (FileRun × Holds)
decompressor_run fs original none = none
decompressor_run fs original (some p) = some (decompressor_end fs original p.0, p.1)

unfoldable pub file_decompressor : Doca → Zlib → ℕ → ℕ → Files → Holds → Option (FileRun × Holds)
unfolding compress_file read_local_file_mmap write_local_file
file_decompressor d z fuel original fs h = on_read (read_local_file_mmap fs) (λ src.
    decompressor_run fs original
      (compress_file d z fuel decompress_deflate_job compress_deflate_hw src h))
