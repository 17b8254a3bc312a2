-- ===== src/Compression/Tests.antt =====
-- compression_local_core.c: the theorems at concrete files.
use flex_bso.Common.{
  ℕ, zero, suc, ◌≤◌, ◌<◌, ◌≡◌, refl, true, false, none, some, List, [], ◌∷◌, length, replicate, min,
  arith,
}
use flex_bso.Compression.{
  DocaError, doca_success, doca_error, error_again, error_bad_state, JobType, compress_deflate_job,
  decompress_deflate_job, compress_deflate_sw, Doca, dst_buf_size, max_file_size, min_dst_buf_size,
}
use flex_bso.Compression.Job.{Holds, compress_file_hw, count_bytes}
use flex_bso.Compression.Balance.{IsWorking}
use flex_bso.Compression.Zlib.{
  Zlib, z_finish, z_ok, z_stream_end, ZlibCall, ZlibCode, calculate_checksum_sw,
}
use flex_bso.Compression.File.{Files, file_compressor, file_decompressor, read_local_file_mmap}
use flex_bso.Compression.Session.{
  Session, Opening, doca_compress_init, compress_jobs_compress_decompress_is_supported,
}
use flex_bso.Compression.Outcome.{
  wanted_size, dst_buf_size-bounds, IsAccessible, file_round_trip, IsFreed,
  file_decompressor-IsFreed,
}

-- A run of equal bytes is compressed to the byte and its count.
abbrev pub run_length : List ℕ → List ℕ
run_length [] = []
run_length (x ∷ xs) = x ∷ length (x ∷ xs) ∷ []

abbrev pub run_of : List ℕ → List ℕ
run_of (x ∷ n ∷ []) = replicate n x
run_of xs = []

abbrev pub engine_output : JobType → List ℕ → List ℕ
engine_output compress_deflate_job src = run_length src
engine_output decompress_deflate_job src = run_of src

-- An engine that works at once.
abbrev pub engine : Doca
engine = record {
  call = λ _. doca_success;
  polls = λ _. doca_success;
  event_result = λ _ _ _. doca_success;
  output = engine_output;
  output_chksum = λ _ _. 0;
  calloc_file = true;
  calloc_dst = true;
  size_file_written = true;
}

pub engine-IsWorking : IsWorking engine 0
engine-IsWorking = record {
  calls = λ c. refl;
  pending = λ j h. absurd (omega arith);
  answered = refl;
  memory = (refl, refl);
}

-- An engine that answers AGAIN once, and whose jobs then fail.
abbrev second_poll : ℕ → DocaError
second_poll zero = doca_error error_again
second_poll (suc k) = doca_success

abbrev failing : Doca
failing = record engine { polls = second_poll; event_result = λ _ _ _. doca_error error_bad_state }

abbrev pub nothing_held : Holds
nothing_held = record {
  src_refs = 0;
  dst_refs = 0;
  dst_live = 0;
  unmaps = 0;
  total_compressed_bytes = 0;
  total_decompressed_bytes = 0;
  bad_frees = 0;
}

-- The file of the counters cannot be written: the job succeeds, having freed an array on the stack.
stack_freed :
    compress_file_hw
      (record engine { size_file_written = false })
      5
      compress_deflate_job
      (7 ∷ [])
      100
      nothing_held
    ≡ some (
      doca_success,
      7 ∷ 1 ∷ [],
      record nothing_held { dst_live = 1; total_compressed_bytes = 2; bad_frees = 1 },
    )
unfolding compress_file_hw
stack_freed = refl

-- The failed job has given back its buffers, and left its destination behind.
failed_job :
    compress_file_hw failing 5 compress_deflate_job [] 100 nothing_held
    ≡ some (doca_error error_bad_state, [], record nothing_held { dst_live = 1 })
unfolding compress_file_hw
failed_job = refl

dst_buf_size-bounds_example :
    (min_dst_buf_size ≤ dst_buf_size compress_deflate_job 3000000)
    × (dst_buf_size compress_deflate_job 3000000 ≤ max_file_size)
    × (min (wanted_size compress_deflate_job 3000000) max_file_size
        ≤ dst_buf_size compress_deflate_job 3000000)
dst_buf_size-bounds_example = dst_buf_size-bounds compress_deflate_job 3000000 (omega arith)

abbrev pub closed : Session
closed = record { ctx = false; core = false }

abbrev no_core : Opening
no_core = record {
  log_backend = doca_success;
  create = doca_success;
  open_device = doca_success;
  init_core = doca_error error_bad_state;
}

-- The core objects cannot be set up: the context is destroyed again.
nothing_open : doca_compress_init no_core closed ≡ (false, closed)
unfolding doca_compress_init
nothing_open = refl

-- A device that can compress and cannot decompress passes the test.
half_supported :
    compress_jobs_compress_decompress_is_supported doca_success (doca_error error_bad_state)
    ≡ doca_success
unfolding compress_jobs_compress_decompress_is_supported
half_supported = refl

abbrev zlib_code : ZlibCall → List ℕ → ℕ → ZlibCode
zlib_code z_finish src n = z_stream_end
zlib_code c src n = z_ok

abbrev pub zlib : Zlib
zlib = record {
  deflate_code = zlib_code;
  inflate_code = zlib_code;
  deflated = run_length;
  inflated = run_of;
  crc32 = λ _. 0;
  adler32 = λ _. 0;
}

abbrev files : List ℕ → Files
files contents = record {
  open_input = true;
  fstat_input = true;
  mmap_input = true;
  contents = contents;
  open_output = true;
  write_output = true;
}

abbrev letters : List ℕ
letters = replicate 40 65

files-IsAccessible :
    (contents : List ℕ)
    → 0 < length contents
    → length contents ≤ max_file_size
    → IsAccessible (files contents)
files-IsAccessible contents h k = record {
  input = (refl, refl, refl);
  output = (refl, refl);
  sized = (h, k);
}

file_round_trip_example :
    (file_compressor engine zlib 5 compress_deflate_sw (files letters) nothing_held
      ≡ some (
        record { status = doca_success; written = some (65 ∷ 40 ∷ []); frees = 0 },
        some (calculate_checksum_sw zlib letters),
        nothing_held,
      ))
    × (file_decompressor engine zlib 5
          (calculate_checksum_sw zlib letters)
          (files (65 ∷ 40 ∷ []))
          nothing_held
        ≡ some (
          record { status = doca_success; written = some letters; frees = 1 },
          count_bytes decompress_deflate_job 40 (record nothing_held { dst_live = 1 }),
        ))
unfolding calculate_checksum_sw
file_round_trip_example =
    file_round_trip engine zlib 0 5 (files letters) (files (65 ∷ 40 ∷ [])) nothing_held
      engine-IsWorking (omega arith) (files-IsAccessible letters (omega arith) (omega arith))
      (files-IsAccessible (65 ∷ 40 ∷ []) (omega arith) (omega arith)) refl
      (record { first = refl; finish = refl; end = refl }) refl refl refl

-- The output file cannot be opened.
abbrev read_only : Files
read_only = record (files (65 ∷ 40 ∷ [])) { open_output = false }

read_back : read_local_file_mmap read_only ≡ (doca_success, some (65 ∷ 40 ∷ []))
unfolding read_local_file_mmap
read_back = refl

file_decompressor-IsFreed_example :
    IsFreed nothing_held
      (engine_output decompress_deflate_job (65 ∷ 40 ∷ []))
      read_only
      (file_decompressor engine zlib 5 0 read_only nothing_held)
file_decompressor-IsFreed_example =
    file_decompressor-IsFreed engine zlib 0 5 doca_success 0 read_only (65 ∷ 40 ∷ []) nothing_held
      read_back refl
      (record { pending = λ j h. absurd (omega arith); answered = refl; final = λ e. ground arith })
      (omega arith)

-- It then frees its buffer twice, and reports success.
freed_twice :
    file_decompressor engine zlib 5 0 read_only nothing_held
    ≡ some (
      record { status = doca_success; written = none; frees = 2 },
      record nothing_held { dst_live = 1; total_decompressed_bytes = 40 },
    )
unfolding file_decompressor
freed_twice = refl
