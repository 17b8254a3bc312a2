-- ===== src/Compression/Outcome.antt =====
-- How the functions of compression_local_core.c end: sizes, errors, and a file there and back.
use flex_bso.Common.{
  ℕ, suc, ◌+◌, ◌*◌, ◌^◌, ◌≤◌, ◌<◌, ◌≡◌, ◌≢◌, refl, ◌⊎◌, inl, inr, Bool, true, false, Option, none,
  some, List, arith, length, min, max, ◌==◌, add64, mul64, Bool-cases,
}
use flex_bso.Compression.{
  DocaErrorKind, DocaError, doca_success, doca_error, JobType, compress_deflate_job,
  decompress_deflate_job, compress_deflate_hw, compress_deflate_sw, Doca, dst_buf_size,
  max_file_size, min_dst_buf_size, decompress_ratio,
}
use flex_bso.Compression.Job.{Holds, count_bytes, size_written}
use flex_bso.Compression.Balance.{
  IsWorking, compress_file_hw-success, IsAnsweredAt, IsSettled, compress_file_hw-IsSettled,
  compress_file_hw-failure,
}
use flex_bso.Compression.Zlib.{
  Zlib, z_first, z_finish, z_end, z_ok, z_stream_end, compress_file_sw, calculate_checksum_sw,
}
use flex_bso.Compression.File.{
  output_of, compress_file, Files, FileRun, file_compressor, file_decompressor,
  read_local_file_mmap, write_local_file, decompressor_run, hw_output, no_output,
}
use flex_bso.Compression.Session.{
  Session, Opening, doca_compress_init, doca_compress_cleanup, file_compression_init,
  file_compression_cleanup,
}

-- The size that a job needs: room for incompressible data, or for data that shrank by the expected ratio.
abbrev pub wanted_size : JobType → ℕ → ℕ
wanted_size compress_deflate_job n = max (n + 16) (n * 2)
wanted_size decompress_deflate_job n = decompress_ratio * n

-- For files below 2 ^ 61 bytes, where no `size_t` wraps around, the destination has between one megabyte and
-- 256 megabytes, and no less than the job wants, up to that bound.
pub dst_buf_size-bounds :
    (job : JobType) (n : ℕ)
    → n < 2 ^ 61
    → (min_dst_buf_size ≤ dst_buf_size job n)
      × (dst_buf_size job n ≤ max_file_size)
      × (min (wanted_size job n) max_file_size ≤ dst_buf_size job n)
unfolding dst_buf_size
dst_buf_size-bounds compress_deflate_job n h = rw (fits, twice) (ground arith)
  where
    fits : add64 n 16 ≡ n + 16
    fits = omega arith

    twice : mul64 n 2 ≡ n * 2
    twice = omega arith
dst_buf_size-bounds decompress_deflate_job n h = rw fits (ground arith)
  where
    fits : mul64 decompress_ratio n ≡ decompress_ratio * n
    fits = omega arith

-- What is open after an attempt to open the engine: all of it on success, nothing on a failure.
abbrev pub IsAllOrNothing : Bool × Session → Type 0
IsAllOrNothing p =
    ((p.0 ≡ true) × (p.1.ctx ≡ true) × (p.1.core ≡ true))
    ⊎ ((p.0 ≡ false) × (p.1.ctx ≡ false) × (p.1.core ≡ false))

-- From a closed session, `doca_compress_init` opens the context and the core objects or leaves nothing open,
-- whichever call fails; and `doca_compress_cleanup` afterwards leaves nothing open.
pub init-IsAllOrNothing :
    (o : Opening) (s : Session)
    → s.ctx ≡ false
    → s.core ≡ false
    → IsAllOrNothing (doca_compress_init o s)
      × ((doca_compress_cleanup (doca_compress_init o s).1).ctx ≡ false)
      × ((doca_compress_cleanup (doca_compress_init o s).1).core ≡ false)
unfolding doca_compress_init doca_compress_cleanup file_compression_init file_compression_cleanup
init-IsAllOrNothing o s ctx core = ground arith

pub compress_file-success :
    (d : Doca) (z : Zlib) (k fuel : ℕ) (job : JobType) (src : List ℕ) (h : Holds)
    → IsWorking d k
    → k < fuel
    → d.event_result job src (dst_buf_size job (length src)) ≡ doca_success
    → compress_file d z fuel job compress_deflate_hw src h
      ≡ some (
        output_of (d.output job src) (some (d.output_chksum job src)),
        size_written d.size_file_written
            (count_bytes job (length (d.output job src)) (record h { dst_live = suc h.dst_live })),
      )
unfolding compress_file
compress_file-success d z k fuel job src h w enough done =
    rw
      (
        w.memory.0,
        compress_file_hw-success d k fuel job src (dst_buf_size job (length src)) h w enough done,
      )
      refl

pub compress_file-failure :
    (d : Doca) (z : Zlib) (k fuel : ℕ) (job : JobType) (src : List ℕ) (h : Holds)
    (e : DocaErrorKind)
    → IsWorking d k
    → k < fuel
    → d.event_result job src (dst_buf_size job (length src)) ≡ doca_error e
    → compress_file d z fuel job compress_deflate_hw src h
      ≡ some (no_output e none, record h { dst_live = suc h.dst_live })
unfolding compress_file
compress_file-failure d z k fuel job src h e w enough done =
    rw
      (
        w.memory.0,
        compress_file_hw-failure d k fuel job src (dst_buf_size job (length src)) h e w enough done,
      )
      refl

-- The streams of a software compression all end well.
pub record IsDeflating (z : Zlib) (src : List ℕ) : Type 0 where
  pub first : z.deflate_code z_first src (dst_buf_size compress_deflate_job (length src)) ≡ z_ok
  pub finish :
      z.deflate_code z_finish src (dst_buf_size compress_deflate_job (length src)) ≡ z_stream_end
  pub end : z.deflate_code z_end src (dst_buf_size compress_deflate_job (length src)) ≡ z_ok

-- The files of a run can be opened, mapped and written, and the input is not empty nor too long.
pub record IsAccessible (fs : Files) : Type 0 where
  pub input : (fs.open_input ≡ true) × (fs.fstat_input ≡ true) × (fs.mmap_input ≡ true)
  pub output : (fs.open_output ≡ true) × (fs.write_output ≡ true)
  pub sized : (0 < length fs.contents) × (length fs.contents ≤ max_file_size)

read-contents :
    (fs : Files) → IsAccessible fs → read_local_file_mmap fs ≡ (doca_success, some fs.contents)
unfolding read_local_file_mmap
read-contents fs a = rw (a.input.0, a.input.1, a.input.2) (ground arith)

compressor-written :
    (d : Doca) (z : Zlib) (fuel : ℕ) (fs : Files) (h : Holds)
    → d.calloc_file ≡ true
    → IsAccessible fs
    → IsDeflating z fs.contents
    → file_compressor d z fuel compress_deflate_sw fs h
      ≡ some (
        record { status = doca_success; written = some (z.deflated fs.contents); frees = 0 },
        some (calculate_checksum_sw z fs.contents),
        h,
      )
unfolding file_compressor compress_file compress_file_sw write_local_file
compressor-written d z fuel fs h memory a s =
    rw (read-contents fs a, memory, s.first, s.finish, s.end, a.output.0, a.output.1) refl

module _ (d : Doca) (z : Zlib) (k fuel : ℕ) (fs fs' : Files) (h : Holds) where
  decompressor-written :
      IsWorking d k
      → k < fuel
      → IsAccessible fs'
      → d.event_result decompress_deflate_job fs'.contents
          (dst_buf_size decompress_deflate_job (length fs'.contents))
        ≡ doca_success
      → file_decompressor d z fuel (d.output_chksum decompress_deflate_job fs'.contents) fs' h
        ≡ some (
          record {
            status = doca_success;
            written = some (d.output decompress_deflate_job fs'.contents);
            frees = 1;
          },
          size_written d.size_file_written (
              count_bytes decompress_deflate_job
                (length (d.output decompress_deflate_job fs'.contents))
                (record h { dst_live = suc h.dst_live })),
        )
  unfolding file_decompressor write_local_file
  decompressor-written w enough a done =
      rw
        (
          read-contents fs' a,
          compress_file-success d z k fuel decompress_deflate_job fs'.contents h w enough done,
          same (d.output_chksum decompress_deflate_job fs'.contents),
          a.output.0,
          a.output.1,
        )
        refl
    where
      same : (a : ℕ) → (a == a) ≡ true
      same a = ground arith

  -- A file that `file_compressor` compressed with zlib, given to `file_decompressor` with the checksum it
  -- reported, comes back whole. This supposes that both runs can read and write their files, that zlib and the
  -- engine report no error, and, of the two libraries, that the engine inflates what zlib deflates and that
  -- both compute the same checksum of the data. If the
  -- engine's run cannot write the file `compress_size`, the free of an array on the stack is counted in its result.
  pub file_round_trip :
      IsWorking d k
      → k < fuel
      → IsAccessible fs
      → IsAccessible fs'
      → fs'.contents ≡ z.deflated fs.contents
      → IsDeflating z fs.contents
      → d.event_result decompress_deflate_job
          (z.deflated fs.contents)
          (dst_buf_size decompress_deflate_job (length (z.deflated fs.contents)))
        ≡ doca_success
      → d.output decompress_deflate_job (z.deflated fs.contents) ≡ fs.contents
      → d.output_chksum decompress_deflate_job (z.deflated fs.contents)
        ≡ calculate_checksum_sw z fs.contents
      → (file_compressor d z fuel compress_deflate_sw fs h
          ≡ some (
            record { status = doca_success; written = some fs'.contents; frees = 0 },
            some (calculate_checksum_sw z fs.contents),
            h,
          ))
        × (file_decompressor d z fuel (calculate_checksum_sw z fs.contents) fs' h
            ≡ some (
              record { status = doca_success; written = some fs.contents; frees = 1 },
              size_written d.size_file_written (
                  count_bytes decompress_deflate_job
                    (length fs.contents)
                    (record h { dst_live = suc h.dst_live })),
            ))
  file_round_trip w enough a a' stored s done inflates sums = (there, back)
    where
      there :
          file_compressor d z fuel compress_deflate_sw fs h
          ≡ some (
            record { status = doca_success; written = some fs'.contents; frees = 0 },
            some (calculate_checksum_sw z fs.contents),
            h,
          )
      there = rw stored (compressor-written d z fuel fs h w.memory.0 a s)

      contents : d.output decompress_deflate_job fs'.contents ≡ fs.contents
      contents = rw stored inflates

      sum :
          d.output_chksum decompress_deflate_job fs'.contents ≡ calculate_checksum_sw z fs.contents
      sum = rw stored sums

      ended :
          d.event_result decompress_deflate_job fs'.contents
            (dst_buf_size decompress_deflate_job (length fs'.contents))
          ≡ doca_success
      ended = rw stored done

      back :
          file_decompressor d z fuel (calculate_checksum_sw z fs.contents) fs' h
          ≡ some (
            record { status = doca_success; written = some fs.contents; frees = 1 },
            size_written d.size_file_written (
                count_bytes decompress_deflate_job
                  (length fs.contents)
                  (record h { dst_live = suc h.dst_live })),
          )
      back = rw (← sum, ← contents) (decompressor-written w enough a' ended)

-- How a run of `file_decompressor` treats the buffer of its result.
unfoldable pub IsFreed : Holds → List ℕ → Files → Option (FileRun × Holds) → Type 0
IsFreed h output fs none = ⊥
IsFreed h output fs (some p) =
    (p.1.bad_frees ≡ h.bad_frees)
    × (((p.0.frees ≡ 1)
          × (((p.0.status ≡ doca_success) × (p.0.written ≡ some output))
              ⊎ ((p.0.status ≢ doca_success) × (p.0.written ≡ none))))
        ⊎ ((p.0.frees ≡ 2)
            × (p.0.status ≡ doca_success)
            × (p.0.written ≡ none)
            × ((fs.open_output ≡ false) ⊎ (fs.write_output ≡ false))))

Settled-IsFreed :
    (d : Doca) (fs : Files) (src : List ℕ) (original : ℕ) (h : Holds)
    (x : Option (DocaError × List ℕ × Holds))
    → d.size_file_written ≡ true
    → IsSettled d (d.output decompress_deflate_job src) h x
    → IsFreed h
        (d.output decompress_deflate_job src)
        fs
        (decompressor_run fs original (hw_output d decompress_deflate_job src x))
unfolding IsSettled IsFreed write_local_file
Settled-IsFreed d fs src original h none sized w = w
Settled-IsFreed d fs src original h (some (doca_error e, file, h')) sized w = ground (arith, sized)
Settled-IsFreed d fs src original h (some (doca_success, file, h')) sized w = ground (arith, sized)

-- When the input can be read, the file `compress_size` can be written, the engine answers poll `k` with something
-- else than AGAIN, and `fuel` allows more than `k` polls, `file_decompressor` returns, and no array on a stack was
-- freed. It frees its buffer (or a null pointer) exactly once, having written the job's output and reported
-- success, or having written nothing and reported a failure; except that when the output file cannot be
-- opened or written it frees the buffer twice, and reports success.
pub file_decompressor-IsFreed :
    (d : Doca) (z : Zlib) (k fuel : ℕ) (answer : DocaError) (original : ℕ) (fs : Files)
    (src : List ℕ) (h : Holds)
    → read_local_file_mmap fs ≡ (doca_success, some src)
    → d.size_file_written ≡ true
    → IsAnsweredAt d k answer
    → k < fuel
    → IsFreed h (d.output decompress_deflate_job src) fs (file_decompressor d z fuel original fs h)
unfolding file_decompressor compress_file IsFreed
file_decompressor-IsFreed d z k fuel answer original fs src h was_read sized w enough =
    elim (Bool-cases d.calloc_file) [
      | inl e ↦
          rw (was_read, e)
            (Settled-IsFreed d fs src original h _ sized
              (compress_file_hw-IsSettled d k fuel answer decompress_deflate_job _ _ h w enough))
      | inr e ↦ rw (was_read, e) (ground arith)
    ]
