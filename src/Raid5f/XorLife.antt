-- ===== src/Raid5f/XorLife.antt =====
-- raid/raid5f.c: the XOR of a request without metadata, over any sequence of answers, retries and ends of jobs.
use flex_bso.Common.{
  ℕ, zero, suc, ◌≤◌, ◌<◌, ◌≡◌, ◌^◌, ◌⊎◌, inl, inr, Bool, true, false, ltb, length, sub64, arith,
  dec_lt, subst, sym, Bool-cases,
}
use flex_bso.Bdev.{Rc, ok}
use flex_bso.Raid5f.Xor.{
  XorState, raid5f_xor_stripe_done, xor_stripe_cb_end, raid5f_xor_stripe_continue,
  raid5f_xor_stripe_md_cb, raid5f_xor_stripe_cb, raid5f_xor_stripe, raid5f_xor_stripe_retry,
}
use flex_bso.Raid5f.XorBalance.{
  xor_reused, IsSegment, pending, IsXor, data_ended-IsXor, begun-IsXor, retried-IsXor,
}

module _ (segment : ℕ → ℕ) (total : ℕ) (has_md : Bool) (md_len old_md : ℕ) where
  -- The XOR of one stripe: begun in a stripe request whose last XOR left `old_md` bytes of metadata, the ends of its jobs in any order, and the retries when the end of another
  -- request's XOR takes it off the queue.
  pub data XorLife : XorState → Type 0 where
    begun :
        (md_answer answer : Rc)
        → XorLife
            (raid5f_xor_stripe segment total has_md md_len md_answer answer (xor_reused old_md))
    data_ended :
        (x : XorState)
        → XorLife x
        → 0 < x.data_jobs
        → (answer job_status : Rc) → XorLife (raid5f_xor_stripe_cb segment answer job_status x)
    md_ended :
        (x : XorState)
        → XorLife x
        → 0 < x.md_jobs
        → (job_status : Rc) → XorLife (raid5f_xor_stripe_md_cb job_status x)
    retried :
        (x : XorState)
        → XorLife x
        → x.queued ≡ true
        → (md_answer answer : Rc)
        → XorLife (raid5f_xor_stripe_retry segment total has_md md_len md_answer answer x)

module _ (segment : ℕ → ℕ) (total : ℕ) where
  XorLife-IsXor :
      (md_len old_md : ℕ) (x : XorState)
      → 0 < total
      → total < 2 ^ 64
      → IsSegment segment
      → old_md ≡ 0
      → XorLife segment total false md_len old_md x
      → IsXor segment total x
  XorLife-IsXor md_len old_md _ positive small seg clean (begun md_answer answer) =
      begun-IsXor segment total md_answer answer md_len old_md positive seg clean
  XorLife-IsXor md_len old_md _ positive small seg clean (data_ended x l busy answer job_status) =
      data_ended-IsXor segment total answer job_status x small seg
        (XorLife-IsXor md_len old_md x positive small seg clean l) busy
  XorLife-IsXor md_len old_md _ positive small seg clean (md_ended x l busy job_status) =
      absurd
        (omega (arith, busy, (XorLife-IsXor md_len old_md x positive small seg clean l).no_md.1))
  XorLife-IsXor md_len old_md _ positive small seg clean (retried x l waits md_answer answer) =
      retried-IsXor segment total md_answer answer md_len x
        (XorLife-IsXor md_len old_md x positive small seg clean l) waits

  -- The next `n` ends of jobs, while the accel framework accepts every new one; job `k` ends with `statuses k`.
  abbrev ended_if : Bool → Rc → XorState → XorState
  ended_if true s x = raid5f_xor_stripe_cb segment ok s x
  ended_if false s x = x

  unfoldable pub after_ends : ℕ → (ℕ → Rc) → XorState → XorState
  unfolding raid5f_xor_stripe_cb
  after_ends zero statuses x = x
  after_ends (suc n) statuses x =
      after_ends n (λ k. statuses (suc k)) (ended_if (ltb 0 x.data_jobs) (statuses 0) x)

  cb-queued :
      (s : Rc) (x : XorState)
      → x.queued ≡ false
      → (raid5f_xor_stripe_cb segment ok s x).queued ≡ false
  unfolding raid5f_xor_stripe_cb raid5f_xor_stripe_continue xor_stripe_cb_end raid5f_xor_stripe_done
  cb-queued s x h = ground (arith, h)

  cb-remaining :
      (s : Rc) (x : XorState)
      → (raid5f_xor_stripe_cb segment ok s x).remaining ≡ sub64 x.remaining x.len
  unfolding raid5f_xor_stripe_cb raid5f_xor_stripe_continue xor_stripe_cb_end raid5f_xor_stripe_done
  cb-remaining s x = ground arith

  ended_if-Xor :
      (s : Rc) (x : XorState)
      → total < 2 ^ 64
      → IsSegment segment
      → IsXor segment total x
      → x.queued ≡ false
      → (n : ℕ) → (x.remaining ≤ suc n) ⊎ (length x.cb_calls ≡ 1)
      → IsXor segment total (ended_if (ltb 0 x.data_jobs) s x)
        × ((ended_if (ltb 0 x.data_jobs) s x).queued ≡ false)
        × (((ended_if (ltb 0 x.data_jobs) s x).remaining ≤ n)
            ⊎ (length (ended_if (ltb 0 x.data_jobs) s x).cb_calls ≡ 1))
  ended_if-Xor s x small seg h q n near = elim (dec_lt 0 x.data_jobs) [
    | no k ↦ rw (idle k) (h, q, inr (ground (arith, h.one, q, k)))
    | yes k ↦ rw (busy k) (
      data_ended-IsXor segment total ok s x small seg h k,
      cb-queued s x q,
      inl (subst (λ m. m ≤ n) (sym (cb-remaining s x)) (nearer near h.left k)),
    )
  ]
    where
      idle : ¬ (0 < x.data_jobs) → ltb 0 x.data_jobs ≡ false
      idle k = ground arith

      busy : 0 < x.data_jobs → ltb 0 x.data_jobs ≡ true
      busy k = ground arith

      nearer :
          (x.remaining ≤ suc n) ⊎ (length x.cb_calls ≡ 1)
          → (length x.cb_calls ≡ 1) ⊎ ((0 < x.remaining) × (0 < x.len) × (x.len ≤ x.remaining))
          → 0 < x.data_jobs
          → sub64 x.remaining x.len ≤ n
      nearer (inr e) k busy = absurd (ground (arith, h.one, e, busy))
      nearer m (inl e) busy = absurd (ground (arith, h.one, e, busy))
      nearer (inl m) (inr k) busy = omega (arith, k.2, k.1, small, h.bounded, m)

  after_ends-called :
      (n : ℕ) (statuses : ℕ → Rc) (x : XorState)
      → total < 2 ^ 64
      → IsSegment segment
      → IsXor segment total x
      → x.queued ≡ false
      → (x.remaining ≤ n) ⊎ (length x.cb_calls ≡ 1)
      → length (after_ends n statuses x).cb_calls ≡ 1
  unfolding after_ends
  after_ends-called zero statuses x small seg h q near = called near h.left
    where
      called :
          (x.remaining ≤ 0) ⊎ (length x.cb_calls ≡ 1)
          → (length x.cb_calls ≡ 1) ⊎ ((0 < x.remaining) × (0 < x.len) × (x.len ≤ x.remaining))
          → length x.cb_calls ≡ 1
      called m (inl e) = e
      called (inr e) k = e
      called (inl m) (inr k) = absurd (omega (arith, m, k.0))
  after_ends-called (suc n) statuses x small seg h q near =
      let e = ended_if-Xor (statuses 0) x small seg h q n near in
      after_ends-called n (λ k. statuses (suc k)) _ small seg e.0 e.1 e.2

  -- A XOR without metadata, of a positive number of bytes below 2 ^ 64 that the iterator cuts into segments of
  -- at least one byte, in a stripe request where no earlier XOR left bytes of metadata, has at every time one and only one of these: a job that has not ended, a place on the
  -- retry queue, or one call of its callback, whatever the accel framework answers and however its jobs
  -- end. And from any time when it is not on the retry queue, if the framework accepts every new job, then
  -- its callback has been called exactly once after at most as many ends of jobs as it has bytes, whatever
  -- the statuses of these jobs.
  pub XorLife-called :
      (md_len old_md : ℕ) (x : XorState) (statuses : ℕ → Rc)
      → 0 < total
      → total < 2 ^ 64
      → IsSegment segment
      → old_md ≡ 0
      → XorLife segment total false md_len old_md x
      → (pending x ≡ 1) × ((x.queued ≡ true) ⊎ (length (after_ends total statuses x).cb_calls ≡ 1))
  XorLife-called md_len old_md x statuses positive small seg clean l =
      (h.one, finished (Bool-cases x.queued))
    where
      h : IsXor segment total x
      h = XorLife-IsXor md_len old_md x positive small seg clean l

      finished :
          (x.queued ≡ true) ⊎ (x.queued ≡ false)
          → (x.queued ≡ true) ⊎ (length (after_ends total statuses x).cb_calls ≡ 1)
      finished (inl e) = inl e
      finished (inr e) = inr (after_ends-called total statuses x small seg h e (inl h.bounded))
