-- ===== src/Compression/Balance.antt =====
-- What a compression job of compression_local_core.c leaves behind, whatever DOCA answers.
use flex_bso.Common.{
  ℕ, zero, suc, ◌+◌, ◌-◌, ◌≤◌, ◌<◌, ◌≡◌, ◌≢◌, ◌∙◌, refl, sym, subst, ap, ◌⊎◌, Bool, true, false,
  Option, none, some, List, [], arith, length,
}
use flex_bso.Compression.{
  DocaErrorKind, error_again, DocaError, doca_success, doca_error, JobType, DocaCall,
  src_set_memrange, src_set_free_cb, src_start, src_buf_by_addr, dst_set_memrange, dst_set_free_cb,
  dst_start, dst_buf_by_addr, workq_submit, Doca, checked,
}
use flex_bso.Compression.Job.{
  Holds, retrieve, process_job, populate_dst_buf, run_job, compress_file_hw, count_bytes,
  size_written,
}

-- The engine answers poll `k`, having answered AGAIN at every poll before.
pub record IsAnsweredAt (d : Doca) (k : ℕ) (answer : DocaError) : Type 0 where
  pub pending : (j : ℕ) → j < k → d.polls j ≡ doca_error error_again
  pub answered : d.polls k ≡ answer
  pub final : answer ≢ doca_error error_again

final_poll :
    (d : Doca) (fuel k : ℕ) (e : DocaError)
    → d.polls k ≡ e
    → e ≢ doca_error error_again
    → retrieve d (suc fuel) k ≡ some e
unfolding retrieve
final_poll d fuel k (doca_error error_again) at ne = absurd (ne refl)
final_poll d fuel k e at ne = rw at refl

retrieve_from :
    (d : Doca) (n k fuel : ℕ) (e : DocaError)
    → IsAnsweredAt d (k + n) e
    → n < fuel
    → retrieve d fuel k ≡ some e
unfolding retrieve
retrieve_from d n k zero e w h = absurd (omega arith)
retrieve_from d zero k (suc fuel) e w h =
    final_poll d fuel k e (ap d.polls (sym (same k)) ∙ w.answered) w.final
  where
    same : (a : ℕ) → a + 0 ≡ a
    same a = omega arith
retrieve_from d (suc n) k (suc fuel) e w h =
    rw (w.pending k (omega arith)) (
      retrieve_from d n (suc k) fuel e (subst (λ a. IsAnsweredAt d a e) (shift k n) w)
        (omega arith))
  where
    shift : (a b : ℕ) → a + suc b ≡ suc a + b
    shift a b = omega arith

checked-ap {ℓ} :
    {A B : Type ℓ} (f : A → B) (r : DocaError) (stop : DocaErrorKind → A) (next : A)
    → checked r (λ e. f (stop e)) (f next) ≡ f (checked r stop next)
checked-ap f doca_success stop next = refl
checked-ap f (doca_error e) stop next = refl

pub process_job_ends :
    (d : Doca) (k fuel : ℕ) (e : DocaError) (job : JobType) (src : List ℕ) (size : ℕ)
    → IsAnsweredAt d k e
    → k < fuel
    → process_job d fuel job src size
      ≡ some (
          checked
            (d.call workq_submit)
            doca_error
            (checked e doca_error (d.event_result job src size)))
unfolding process_job
process_job_ends d k fuel e job src size w h =
    rw (retrieve_from d k 0 fuel e (subst (λ a. IsAnsweredAt d a e) (from_start k) w) h)
      (checked-ap some (d.call workq_submit) doca_error _)
  where
    from_start : (a : ℕ) → a ≡ 0 + a
    from_start a = omega arith

-- How often a success frees the array on the stack.
abbrev pub bad_free : Bool → ℕ
bad_free true = 0
bad_free false = 1

-- What a job returns: a success with `output` in one more destination buffer, or a failure, which may
-- leave that buffer behind. Either way the references to DOCA's buffers are given back.
unfoldable pub IsSettled : Doca → List ℕ → Holds → Option (DocaError × List ℕ × Holds) → Type 0
IsSettled d output h none = ⊥
IsSettled d output h (some p) =
    ((p.2.src_refs ≡ h.src_refs) × (p.2.dst_refs ≡ h.dst_refs))
    × (((p.0 ≡ doca_success)
          × (p.1 ≡ output)
          × (p.2.dst_live ≡ suc h.dst_live)
          × (p.2.unmaps ≡ h.unmaps)
          × (p.2.bad_frees ≡ h.bad_frees + bad_free d.size_file_written))
        ⊎ ((p.0 ≢ doca_success)
            × (p.1 ≡ [])
            × (p.2.dst_live ≤ suc h.dst_live)
            × (p.2.bad_frees ≡ h.bad_frees)))

pub compress_file_hw-IsSettled :
    (d : Doca) (k fuel : ℕ) (answer : DocaError) (job : JobType) (src : List ℕ) (size : ℕ)
    (h : Holds)
    → IsAnsweredAt d k answer
    → k < fuel
    → IsSettled d (d.output job src) h (compress_file_hw d fuel job src size h)
unfolding IsSettled compress_file_hw run_job populate_dst_buf
compress_file_hw-IsSettled d k fuel answer job src size h w enough =
    rw (process_job_ends d k fuel answer job src size w enough) (ground arith)

-- The engine works: every call succeeds, and the job too.
pub record IsWorking (d : Doca) (k : ℕ) : Type 0 where
  pub calls : (c : DocaCall) → d.call c ≡ doca_success
  pub pending : (j : ℕ) → j < k → d.polls j ≡ doca_error error_again
  pub answered : d.polls k ≡ doca_success
  pub memory : (d.calloc_file ≡ true) × (d.calloc_dst ≡ true)

IsWorking-IsAnsweredAt : (d : Doca) (k : ℕ) → IsWorking d k → IsAnsweredAt d k doca_success
IsWorking-IsAnsweredAt d k w = record {
  pending = w.pending;
  answered = w.answered;
  final = λ e. ground arith;
}

given_back : (a : ℕ) → suc a - 1 ≡ a
given_back a = omega arith

pub compress_file_hw-success :
    (d : Doca) (k fuel : ℕ) (job : JobType) (src : List ℕ) (size : ℕ) (h : Holds)
    → IsWorking d k
    → k < fuel
    → d.event_result job src size ≡ doca_success
    → compress_file_hw d fuel job src size h
      ≡ some (
        doca_success,
        d.output job src,
        size_written d.size_file_written
            (count_bytes job (length (d.output job src)) (record h { dst_live = suc h.dst_live })),
      )
unfolding compress_file_hw run_job populate_dst_buf
compress_file_hw-success d k fuel job src size h w enough done =
    rw
      (
        process_job_ends d k fuel doca_success job src size (IsWorking-IsAnsweredAt d k w) enough,
        w.calls src_set_memrange,
        w.calls src_set_free_cb,
        w.calls src_start,
        w.calls src_buf_by_addr,
        w.calls dst_set_memrange,
        w.calls dst_set_free_cb,
        w.calls dst_start,
        w.calls dst_buf_by_addr,
        w.calls workq_submit,
        w.memory.1,
        done,
      )
      (rw (given_back h.src_refs, given_back h.dst_refs) refl)

pub compress_file_hw-failure :
    (d : Doca) (k fuel : ℕ) (job : JobType) (src : List ℕ) (size : ℕ) (h : Holds)
    (e : DocaErrorKind)
    → IsWorking d k
    → k < fuel
    → d.event_result job src size ≡ doca_error e
    → compress_file_hw d fuel job src size h
      ≡ some (doca_error e, [], record h { dst_live = suc h.dst_live })
unfolding compress_file_hw run_job populate_dst_buf
compress_file_hw-failure d k fuel job src size h e w enough done =
    rw
      (
        process_job_ends d k fuel doca_success job src size (IsWorking-IsAnsweredAt d k w) enough,
        w.calls src_set_memrange,
        w.calls src_set_free_cb,
        w.calls src_start,
        w.calls src_buf_by_addr,
        w.calls dst_set_memrange,
        w.calls dst_set_free_cb,
        w.calls dst_start,
        w.calls dst_buf_by_addr,
        w.calls workq_submit,
        w.memory.1,
        done,
      )
      (rw (given_back h.src_refs, given_back h.dst_refs) refl)
