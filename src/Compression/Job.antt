-- ===== src/Compression/Job.antt =====
-- A job on the compression engine: compression_local_core.c from `process_job` to `compress_file_hw`.
use flex_bso.Common.{
  ℕ, zero, suc, ◌-◌, Bool, true, false, if◌then◌else◌, Option, none, some, List, [], add64, length,
}
use flex_bso.Compression.{
  DocaErrorKind, error_again, error_no_memory, DocaError, doca_success, doca_error, JobType,
  compress_deflate_job, decompress_deflate_job, src_set_memrange, src_set_free_cb, src_start,
  src_buf_by_addr, dst_set_memrange, dst_set_free_cb, dst_start, dst_buf_by_addr, workq_submit,
  Doca, checked,
}

-- What a job holds: references to the two `doca_buf`s, destination buffers that are allocated and not
-- freed, how often the caller's data was unmapped, the two counters of the file, and how often the array on the
-- stack with their text was freed. What the source does after such a free is undefined; the model counts it and
-- goes on.
pub record Holds : Type 0 where
  pub src_refs : ℕ
  pub dst_refs : ℕ
  pub dst_live : ℕ
  pub unmaps : ℕ
  pub total_compressed_bytes : ℕ
  pub total_decompressed_bytes : ℕ
  pub bad_frees : ℕ

-- What a poll leads to: the next one, or the end of the loop.
abbrev after_poll : DocaError → Option DocaError → Option DocaError
after_poll (doca_error error_again) rest = rest
after_poll e rest = some e

-- The loop that waits for the job, from poll `k` on; `none` when the fuel is used up.
unfoldable pub retrieve : Doca → ℕ → ℕ → Option DocaError
retrieve d zero k = none
retrieve d (suc fuel) k = after_poll (d.polls k) (retrieve d fuel (suc k))

-- The end of `process_job`: the poll's own failure, or how the job ended.
abbrev pub job_result : DocaError → Option DocaError → Option DocaError
job_result event none = none
job_result event (some polled) = some (checked polled doca_error event)

unfoldable pub process_job : Doca → ℕ → JobType → List ℕ → ℕ → Option DocaError
unfolding retrieve
process_job d fuel job src dst_size =
    checked (d.call workq_submit) (λ e. some (doca_error e))
      (job_result (d.event_result job src dst_size) (retrieve d fuel 0))

-- The source clears its own parameter by `dst_buffer = calloc(1, dst_buf_size)`, and unmaps what the new
-- buffer holds, a null pointer, in place of the buffer when `doca_mmap_set_free_cb` fails.
unfoldable pub populate_dst_buf : Doca → Holds → DocaError × Holds
populate_dst_buf d h =
    let allocated = record h { dst_live = suc h.dst_live } in
    if d.calloc_dst
    then checked (d.call dst_set_memrange) (λ e. (doca_error e, h))
        (checked (d.call dst_set_free_cb) (λ e. (doca_error e, allocated))
          (checked (d.call dst_start) (λ e. (doca_error e, h))
            (checked (d.call dst_buf_by_addr) (λ e. (doca_error e, allocated))
              (doca_success, record allocated { dst_refs = suc h.dst_refs }))))
    else (doca_error error_no_memory, h)

-- `doca_buf_refcount_rm` of both buffers.
abbrev pub release_bufs : Holds → Holds
release_bufs h = record h { src_refs = h.src_refs - 1; dst_refs = h.dst_refs - 1 }

abbrev pub count_bytes : JobType → ℕ → Holds → Holds
count_bytes compress_deflate_job n h = record h {
  total_compressed_bytes = add64 h.total_compressed_bytes n;
}
count_bytes decompress_deflate_job n h = record h {
  total_decompressed_bytes = add64 h.total_decompressed_bytes n;
}

-- `write_local_file("compress_size", buf, 100)`, which frees `buf`, an array on the stack, when it fails; its
-- result is ignored.
abbrev pub size_written : Bool → Holds → Holds
size_written true h = h
size_written false h = record h { bad_frees = suc h.bad_frees }

-- The end of `compress_file_hw`, whose two ways out release both buffers; the counters are then written to a file.
abbrev pub job_ended :
    Doca → JobType → List ℕ → Holds → Option DocaError → Option (DocaError × List ℕ × Holds)
job_ended d job output h none = none
job_ended d job output h (some (doca_error e)) = some (doca_error e, [], release_bufs h)
job_ended d job output h (some doca_success) = some (
  doca_success,
  output,
  size_written d.size_file_written (count_bytes job (length output) (release_bufs h)),
)

-- The part of `compress_file_hw` from the source buffer on: the destination, the job and its result.
unfoldable pub run_job :
    Doca → ℕ → JobType → List ℕ → ℕ → Holds → Option (DocaError × List ℕ × Holds)
unfolding populate_dst_buf process_job
run_job d fuel job src dst_size h =
    let p = populate_dst_buf d h in
    checked p.0 (λ e. some (doca_error e, [], record p.1 { src_refs = p.1.src_refs - 1 }))
      (job_ended d job (d.output job src) p.1 (process_job d fuel job src dst_size))

-- The result, the data that `*compressed_file` points to on success, and what is held then.
unfoldable pub compress_file_hw :
    Doca → ℕ → JobType → List ℕ → ℕ → Holds → Option (DocaError × List ℕ × Holds)
unfolding run_job
compress_file_hw d fuel job src dst_size h =
    let unmapped =
      λ (e : DocaErrorKind). some (doca_error e, [], record h { unmaps = suc h.unmaps }) in
    checked (d.call src_set_memrange) unmapped (
      checked (d.call src_set_free_cb) unmapped (
        checked (d.call src_start) unmapped (
          checked (d.call src_buf_by_addr) (λ e. some (doca_error e, [], h))
            (run_job d fuel job src dst_size (record h { src_refs = suc h.src_refs })))))
