-- ===== src/Raid5f/XorBalance.antt =====
-- raid/raid5f.c: the steps of a XOR without metadata, of which each leaves one thing outstanding.
use flex_bso.Common.{
  ℕ, ◌+◌, ◌-◌, ◌≤◌, ◌<◌, ◌≡◌, ◌^◌, ◌⊎◌, inl, inr, refl, true, false, if◌then◌else◌, ltb, ◌==◌, [],
  length, add64, sub64, arith, dec_lt, subst, sym,
}
use flex_bso.Bdev.{Rc, ok, fail, enomem}
use flex_bso.Raid5f.Xor.{
  XorState, raid5f_xor_stripe_done, xor_stripe_cb_end, raid5f_xor_stripe_continue, next_segment,
  raid5f_xor_stripe_cb, raid5f_xor_stripe, raid5f_xor_stripe_retry,
}

-- No XOR was begun yet.
abbrev pub no_xor : XorState
no_xor = record {
  len = 0;
  remaining = 0;
  remaining_md = 0;
  status = ok;
  data_jobs = 0;
  md_jobs = 0;
  queued = false;
  cb_calls = [];
}

-- A stripe request whose last XOR left `old_md` bytes of metadata: a XOR with no buffer for metadata keeps them.
abbrev pub xor_reused : ℕ → XorState
xor_reused old_md = record no_xor { remaining_md = old_md }

-- The iterator gives at least one byte, and no more than are left.
abbrev pub IsSegment : (ℕ → ℕ) → Type 0
IsSegment segment = (n : ℕ) → 0 < n → (0 < segment n) × (segment n ≤ n)

-- What the XOR waits for, or has told: jobs, a retry, and calls of the callback.
abbrev pub pending : XorState → ℕ
pending x = x.data_jobs + (if x.queued then 1 else 0) + length x.cb_calls

module _ (segment : ℕ → ℕ) (total : ℕ) where
  pub record IsXor (x : XorState) : Type 0 where
    pub one : pending x ≡ 1
    pub no_md : (x.remaining_md ≡ 0) × (x.md_jobs ≡ 0)
    pub bounded : x.remaining ≤ total
    pub left : (length x.cb_calls ≡ 1) ⊎ ((0 < x.remaining) × (0 < x.len) × (x.len ≤ x.remaining))

  -- A state that waits for nothing, has called nothing, and has a segment to submit.
  record IsReady (x : XorState) : Type 0 where
    nothing : pending x ≡ 0
    no_md : (x.remaining_md ≡ 0) × (x.md_jobs ≡ 0)
    bounded : x.remaining ≤ total
    left : (0 < x.remaining) × (0 < x.len) × (x.len ≤ x.remaining)

  continue-IsXor :
      (answer : Rc) (x : XorState) → IsReady x → IsXor (raid5f_xor_stripe_continue answer x)
  unfolding raid5f_xor_stripe_continue raid5f_xor_stripe_done
  continue-IsXor ok x h = record {
    one = ground (arith, h.nothing);
    no_md = h.no_md;
    bounded = h.bounded;
    left = inr h.left;
  }
  continue-IsXor (fail enomem) x h = record {
    one = ground (arith, h.nothing);
    no_md = h.no_md;
    bounded = h.bounded;
    left = inr h.left;
  }
  continue-IsXor (fail e) x h = record {
    one = ground (arith, h.nothing);
    no_md = h.no_md;
    bounded = h.bounded;
    left = inr h.left;
  }

  continue-remaining :
      (answer : Rc) (x : XorState) → (raid5f_xor_stripe_continue answer x).remaining ≡ x.remaining
  unfolding raid5f_xor_stripe_continue raid5f_xor_stripe_done
  continue-remaining ok x = refl
  continue-remaining (fail enomem) x = refl
  continue-remaining (fail e) x = refl

  -- A job ends while bytes are left.
  end-running :
      (job_status : Rc) (x : XorState)
      → total < 2 ^ 64
      → 0 < x.remaining
      → IsXor x
      → xor_stripe_cb_end job_status x
        ≡ record x { status = (xor_stripe_cb_end job_status x).status }
  unfolding xor_stripe_cb_end raid5f_xor_stripe_done
  end-running job_status x small more h =
      rw (going x.remaining more (omega (arith, h.bounded)) h.no_md.0) refl
    where
      going :
          (n : ℕ) → 0 < n → n < 2 ^ 64 → x.remaining_md ≡ 0 → (add64 n x.remaining_md == 0) ≡ false
      going n p q e = rw e (ground arith)

  with_status : (x : XorState) (s : Rc) → IsXor x → IsXor (record x { status = s })
  with_status x s h = record { one = h.one; no_md = h.no_md; bounded = h.bounded; left = h.left }

  -- The job of the last segment ends.
  end-last :
      (job_status : Rc) (x : XorState)
      → pending x ≡ 0
      → x.remaining ≡ 0
      → x.remaining_md ≡ 0
      → x.md_jobs ≡ 0
      → IsXor (xor_stripe_cb_end job_status x)
  unfolding xor_stripe_cb_end raid5f_xor_stripe_done
  end-last job_status x nothing none_left md jobs = record {
    one = ground (arith, nothing, none_left, md);
    no_md = ground (arith, none_left, md, jobs);
    bounded = ground (arith, none_left, md);
    left = ground (arith, nothing, none_left, md);
  }

  -- What the end of a segment's job leaves before the next segment.
  abbrev segment_ended : XorState → XorState
  segment_ended x = record x { remaining = sub64 x.remaining x.len; data_jobs = x.data_jobs - 1 }

  chosen-IsXor :
      (answer job_status : Rc) (y : XorState)
      → total < 2 ^ 64
      → IsSegment segment
      → pending y ≡ 0
      → (y.remaining_md ≡ 0) × (y.md_jobs ≡ 0)
      → y.remaining ≤ total
      → IsXor (xor_stripe_cb_end job_status (next_segment segment answer y))
  chosen-IsXor answer job_status y small seg nothing no_md bounded = elim (dec_lt 0 y.remaining) [
    | yes h ↦
        let z = record y { len = segment y.remaining } in
        let k = continue-IsXor answer z (record {
          nothing = nothing;
          no_md = no_md;
          bounded = bounded;
          left = (h, (seg y.remaining h).0, (seg y.remaining h).1);
        }) in
        let more = subst (λ n. 0 < n) (sym (continue-remaining answer z)) h in
        rw (lt→ltb h)
          (subst IsXor (sym (end-running job_status _ small more k)) (with_status _ _ k))
    | no h ↦ rw (not_lt→ltb h) (end-last job_status y nothing (omega arith) no_md.0 no_md.1)
  ]
    where
      lt→ltb : {n : ℕ} → 0 < n → ltb 0 n ≡ true
      lt→ltb k = ground arith

      not_lt→ltb : {n : ℕ} → ¬ (0 < n) → ltb 0 n ≡ false
      not_lt→ltb k = ground arith

  pub data_ended-IsXor :
      (answer job_status : Rc) (x : XorState)
      → total < 2 ^ 64
      → IsSegment segment
      → IsXor x
      → 0 < x.data_jobs
      → IsXor (raid5f_xor_stripe_cb segment answer job_status x)
  unfolding raid5f_xor_stripe_cb
  data_ended-IsXor answer job_status x small seg h busy =
      chosen-IsXor answer job_status (segment_ended x) small seg (ground (arith, h.one)) h.no_md
        (less h.left)
    where
      less :
          (length x.cb_calls ≡ 1) ⊎ ((0 < x.remaining) × (0 < x.len) × (x.len ≤ x.remaining))
          → sub64 x.remaining x.len ≤ total
      less (inl e) = absurd (ground (arith, h.one, e, busy))
      less (inr k) = omega (arith, k.2, small, h.bounded)

  pub begun-IsXor :
      (md_answer answer : Rc) (md_len old_md : ℕ)
      → 0 < total
      → IsSegment segment
      → old_md ≡ 0
      → IsXor (raid5f_xor_stripe segment total false md_len md_answer answer (xor_reused old_md))
  unfolding raid5f_xor_stripe
  begun-IsXor md_answer answer md_len old_md positive seg none_left =
      continue-IsXor answer _ (record {
        nothing = refl;
        no_md = (none_left, refl);
        bounded = omega arith;
        left = (positive, (seg total positive).0, (seg total positive).1);
      })

  pub retried-IsXor :
      (md_answer answer : Rc) (md_len : ℕ) (x : XorState)
      → IsXor x
      → x.queued ≡ true
      → IsXor (raid5f_xor_stripe_retry segment total false md_len md_answer answer x)
  unfolding raid5f_xor_stripe_retry
  retried-IsXor md_answer answer md_len x h waits = not_again x.remaining_md h.no_md.0 _ _ (
      continue-IsXor answer (record x { queued = false })
        (record {
          nothing = ground (arith, h.one, waits);
          no_md = h.no_md;
          bounded = h.bounded;
          left = more h.left;
        }))
    where
      more :
          (length x.cb_calls ≡ 1) ⊎ ((0 < x.remaining) × (0 < x.len) × (x.len ≤ x.remaining))
          → (0 < x.remaining) × (0 < x.len) × (x.len ≤ x.remaining)
      more (inl e) = absurd (ground (arith, h.one, e, waits))
      more (inr k) = k

      not_again : (n : ℕ) → n ≡ 0 → (a b : XorState) → IsXor b → IsXor (if ltb 0 n then a else b)
      not_again n e a b k = rw e k
