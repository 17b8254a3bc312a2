-- ===== src/Raid5f/Refused.antt =====
-- raid/raid5f.c: a stripe request is allocated unless one of its allocations was refused.
use flex_bso.Common.{
  ℕ, zero, suc, ◌≤◌, ◌<◌, ◌≡◌, refl, Bool, true, false, ◌==◌, ◌⊎◌, inl, inr, Option, none, some,
  arith, Bool-cases,
}
use flex_bso.Raid5f.{StripeRequestType, stripe_req_write, stripe_req_reconstruct}
use flex_bso.Raid5f.Alloc.{
  Heap, StripeMemory, Step, malloc_loop, step, step_md, parity_step, reconstruct_step, kind_step,
  xor_step, alloc_end, alloc_rest, no_memory, raid5f_stripe_request_free,
  raid5f_stripe_request_alloc, buffers_freed, freed,
}

module _ (answers : ℕ → Bool) where
  -- Of the allocations from the `lo`-th on, up to the `hi`-th, one was refused.
  abbrev pub RefusedIn : ℕ → ℕ → Type 0
  RefusedIn lo hi = (k : ℕ) × (answers k ≡ false) × (lo ≤ k) × (k < hi)

  -- All is done, or one was refused.
  abbrev pub Told : ℕ → Bool → Heap → Type 0
  Told lo done h = (lo ≤ h.asked) × ((done ≡ true) ⊎ RefusedIn lo h.asked)

  later : (lo mid hi : ℕ) → lo ≤ mid → RefusedIn mid hi → RefusedIn lo hi
  later lo mid hi le (k, e, a, b) = (k, e, omega (arith, le, a), b)

  longer : (lo mid hi : ℕ) → mid ≤ hi → RefusedIn lo mid → RefusedIn lo hi
  longer lo mid hi le (k, e, a, b) = (k, e, a, omega (arith, le, b))

  loop-Told :
      (n : ℕ) (h : Heap)
      → (h.asked ≤ (malloc_loop answers n h).1.asked)
        × (((malloc_loop answers n h).0 ≡ n) ⊎ RefusedIn h.asked (malloc_loop answers n h).1.asked)
  unfolding malloc_loop
  loop-Told zero h = (omega arith, inl refl)
  loop-Told (suc n) h = elim (Bool-cases (answers h.asked)) [
    | inr e ↦ rw e (omega arith, inr (h.asked, e, omega arith, omega arith))
    | inl e ↦ rw e (more (loop-Told n (record h { live = suc h.live; asked = suc h.asked })))
  ]
    where
      h' : Heap
      h' = record h { live = suc h.live; asked = suc h.asked }

      more :
          (h'.asked ≤ (malloc_loop answers n h').1.asked)
            × (((malloc_loop answers n h').0 ≡ n)
                ⊎ RefusedIn h'.asked (malloc_loop answers n h').1.asked)
          → (h.asked ≤ (malloc_loop answers n h').1.asked)
            × ((suc (malloc_loop answers n h').0 ≡ suc n)
                ⊎ RefusedIn h.asked (malloc_loop answers n h').1.asked)
      more (le, inl q) = (omega (arith, le), inl (omega (arith, q)))
      more (le, inr q) = (
        omega (arith, le),
        inr (later h.asked h'.asked (malloc_loop answers n h').1.asked (omega arith) q),
      )

  step-Told :
      (lo n : ℕ) (put : ℕ → StripeMemory → StripeMemory) (s : Step)
      → Told lo s.fine s.heap
      → Told lo (step answers n put s).fine (step answers n put s).heap
  step-Told lo n put s (le, inr q) = elim (Bool-cases s.fine) [
    | inl e ↦ rw e (
      omega (arith, le, (loop-Told n s.heap).0),
      inr (longer lo s.heap.asked (malloc_loop answers n s.heap).1.asked (loop-Told n s.heap).0 q),
    )
    | inr e ↦ rw e (le, inr q)
  ]
  step-Told lo n put s (le, inl e) = rw e (made (loop-Told n s.heap))
    where
      p : ℕ × Heap
      p = malloc_loop answers n s.heap

      made :
          (s.heap.asked ≤ p.1.asked) × ((p.0 ≡ n) ⊎ RefusedIn s.heap.asked p.1.asked)
          → Told lo (p.0 == n) p.1
      made (more, inl q) = (omega (arith, le, more), inl (ground (arith, q)))
      made (more, inr q) = (omega (arith, le, more), inr (later lo s.heap.asked p.1.asked le q))

  step_md-Told :
      (lo n : ℕ) (has_md : Bool) (put : ℕ → StripeMemory → StripeMemory) (s : Step)
      → Told lo s.fine s.heap
      → Told lo (step_md answers has_md n put s).fine (step_md answers has_md n put s).heap
  step_md-Told lo n true put s h = step-Told lo n put s h
  step_md-Told lo n false put s h = h

  kind-Told :
      (lo data_num : ℕ) (has_md : Bool) (t : StripeRequestType) (s : Step)
      → Told lo s.fine s.heap
      → Told lo
          (kind_step answers t has_md data_num s).fine
          (kind_step answers t has_md data_num s).heap
  unfolding kind_step parity_step reconstruct_step
  kind-Told lo data_num has_md stripe_req_write s h =
      step_md-Told lo 1 has_md (λ k m. record m { parity_md_buf = k })
        (step answers 1 (λ k m. record m { parity_buf = k }) s)
        (step-Told lo 1 (λ k m. record m { parity_buf = k }) s h)
  kind-Told lo data_num has_md stripe_req_reconstruct s h =
      step_md-Told lo data_num has_md (λ k m. record m { chunk_md_buffers_used = k }) s3
        (step_md-Told lo 1 has_md (λ k m. record m { chunk_md_buffers = k }) s2
          (step-Told lo data_num (λ k m. record m { chunk_buffers_used = k }) s1
            (step-Told lo 1 (λ k m. record m { chunk_buffers = k }) s h)))
    where
      s1 : Step
      s1 = step answers 1 (λ k m. record m { chunk_buffers = k }) s

      s2 : Step
      s2 = step answers data_num (λ k m. record m { chunk_buffers_used = k }) s1

      s3 : Step
      s3 = step_md answers has_md 1 (λ k m. record m { chunk_md_buffers = k }) s2

  xor-Told :
      (lo : ℕ) (s : Step)
      → Told lo s.fine s.heap
      → Told lo (xor_step answers s).fine (xor_step answers s).heap
  unfolding xor_step
  xor-Told lo s h =
      step-Told lo 1 (λ k m. record m { chunk_xor_md_buffers = k }) s2
        (step-Told lo 1 (λ k m. record m { chunk_xor_buffers = k }) s1
          (step-Told lo 1 (λ k m. record m { chunk_iov_iters = k }) s h))
    where
      s1 : Step
      s1 = step answers 1 (λ k m. record m { chunk_iov_iters = k }) s

      s2 : Step
      s2 = step answers 1 (λ k m. record m { chunk_xor_buffers = k }) s1

  pub free-asked : (m : StripeMemory) (h : Heap) → (raid5f_stripe_request_free m h).asked ≡ h.asked
  unfolding raid5f_stripe_request_free
  free-asked m h = by_kind m.kind
    where
      by_kind : (t : StripeRequestType) → (buffers_freed t m (freed m.iovs h)).asked ≡ h.asked
      by_kind stripe_req_write = refl
      by_kind stripe_req_reconstruct = ground arith

  abbrev pub is_some : Option StripeMemory → Bool
  is_some none = false
  is_some (some m) = true

  end-Told :
      (lo : ℕ) (s : Step)
      → Told lo s.fine s.heap
      → Told lo (is_some (alloc_end answers s).0) (alloc_end answers s).1
  end-Told lo s h = elim (Bool-cases s.fine) [
    | inl e ↦ rw e (h.0, inl refl)
    | inr e ↦ rw e (rw (free-asked s.memory s.heap) (h.0, refused h.1 e))
  ]
    where
      refused :
          (s.fine ≡ true) ⊎ RefusedIn lo s.heap.asked
          → s.fine ≡ false
          → (false ≡ true) ⊎ RefusedIn lo s.heap.asked
      refused (inl e) f = absurd (cc)
      refused (inr q) f = inr q

  rest-Told :
      (lo chunks data_num : ℕ) (has_md : Bool) (t : StripeRequestType) (h : Heap)
      → lo ≤ h.asked
      → Told lo
          (is_some (alloc_rest answers chunks data_num has_md t h).0)
          (alloc_rest answers chunks data_num has_md t h).1
  unfolding alloc_rest
  rest-Told lo chunks data_num has_md t h le = end-Told lo (xor_step answers filled) (
      xor-Told lo filled (
        kind-Told lo data_num has_md t chunked
          (step-Told lo chunks (λ k m. record m { iovs = k }) begun (le, inl refl))))
    where
      begun : Step
      begun = record { fine = true; memory = no_memory answers t; heap = h }

      chunked : Step
      chunked = step answers chunks (λ k m. record m { iovs = k }) begun

      filled : Step
      filled = kind_step answers t has_md data_num chunked

  pub alloc-Told :
      (lo chunks data_num : ℕ) (has_md : Bool) (t : StripeRequestType) (h : Heap)
      → lo ≤ h.asked
      → Told lo
          (is_some (raid5f_stripe_request_alloc answers chunks data_num has_md t h).0)
          (raid5f_stripe_request_alloc answers chunks data_num has_md t h).1
  unfolding raid5f_stripe_request_alloc
  alloc-Told lo chunks data_num has_md t h le =
      elim (Bool-cases (answers h.asked))
        as (λ _.
          Told lo (is_some (raid5f_stripe_request_alloc answers chunks data_num has_md t h).0)
            (raid5f_stripe_request_alloc answers chunks data_num has_md t h).1) [
              | inr e ↦ rw e (omega (arith, le), inr (h.asked, e, le, omega arith))
              | inl e ↦ rw e (
                  rest-Told lo chunks data_num has_md t
                    (record h { live = suc h.live; asked = suc h.asked }) (omega (arith, le)))
            ]
