-- ===== src/Raid5f/Allocated.antt =====
-- raid/raid5f.c: the blocks that the requests of one list own, whether all are allocated or not.
use flex_bso.Common.{
  ℕ, zero, suc, ◌+◌, ◌≡◌, refl, sym, subst, Bool, true, false, if◌then◌else◌, ◌⊎◌, inl, inr, Option,
  none, some, List, [], ◌∷◌, length, arith, Bool-cases,
}
use flex_bso.Raid5f.{StripeRequestType}
use flex_bso.Raid5f.Alloc.{
  Heap, StripeMemory, Step, raid5f_stripe_request_free, step, kind_step, xor_step, alloc_end,
  no_memory, raid5f_stripe_request_alloc, free_requests, Requests, request_added, alloc_requests,
  alloc_rest,
}
use flex_bso.Raid5f.Memory.{
  held, IsOwned, Owns, free-live, Finished, iovs-Begun, kind-Buffered, xor-Finished,
}

-- A heap with `base` live blocks and `refs` references.
abbrev pub IsHeap : ℕ → ℕ → Heap → Type 0
IsHeap base refs h = (h.live ≡ base) × (h.accel_refs ≡ refs)

-- Either the request and what it owns is live besides `base` blocks, or nothing more.
abbrev IsAllocated : ℕ → ℕ → Option StripeMemory × Heap → Type 0
IsAllocated base refs (none, h) = IsHeap base refs h
IsAllocated base refs (some m, h) = Owns base refs m h

module _ (answers : ℕ → Bool) where
  end-IsAllocated :
      (base refs : ℕ) (t : StripeRequestType) (s : Step)
      → Finished answers base refs t s
      → IsAllocated base refs (alloc_end answers s)
  end-IsAllocated base refs t s f = chosen s.fine
    where
      owns : Owns base refs s.memory s.heap
      owns = record {
        live = f.0.0;
        accel = f.0.1;
        owned = subst (λ k. IsOwned k s.memory) (sym f.2) f.1;
      }

      chosen :
          (b : Bool)
          → IsAllocated base refs (
              if b
              then (some s.memory, s.heap)
              else (none, raid5f_stripe_request_free s.memory s.heap))
      chosen true = owns
      chosen false = free-live base refs s.memory s.heap owns

  rest-IsAllocated :
      (base refs chunks data_num : ℕ) (has_md : Bool) (t : StripeRequestType) (h : Heap)
      → IsHeap (suc base) refs h
      → IsAllocated base refs (alloc_rest answers chunks data_num has_md t h)
  unfolding alloc_rest
  rest-IsAllocated base refs chunks data_num has_md t h e =
      end-IsAllocated base refs t (xor_step answers filled) (
        xor-Finished answers base refs t filled (
          kind-Buffered answers base refs t has_md data_num chunked
            (iovs-Begun answers base refs chunks begun (omega (arith, e.0), e.1) refl (refl, refl)
              (refl, refl) (refl, refl) (refl, refl, refl))
            refl))
    where
      begun : Step
      begun = record { fine = true; memory = no_memory answers t; heap = h }

      chunked : Step
      chunked = step answers chunks (λ k m. record m { iovs = k }) begun

      filled : Step
      filled = kind_step answers t has_md data_num chunked

  alloc-IsAllocated :
      (chunks data_num : ℕ) (has_md : Bool) (t : StripeRequestType) (h : Heap)
      → IsAllocated h.live h.accel_refs
          (raid5f_stripe_request_alloc answers chunks data_num has_md t h)
  unfolding raid5f_stripe_request_alloc
  alloc-IsAllocated chunks data_num has_md t h =
      elim (Bool-cases (answers h.asked))
        as (λ _.
          IsAllocated h.live h.accel_refs
            (raid5f_stripe_request_alloc answers chunks data_num has_md t h)) [
              | inl e ↦ rw e (
                  rest-IsAllocated h.live h.accel_refs chunks data_num has_md t
                    (record h { live = suc h.live; asked = suc h.asked }) (refl, refl))
              | inr e ↦ rw e (refl, refl)
            ]

-- The blocks of a list of requests.
abbrev pub held_by : List StripeMemory → ℕ
held_by [] = 0
held_by (m ∷ ms) = suc (held m) + held_by ms

abbrev pub AllOwned : List StripeMemory → Type 0
AllOwned [] = Unit
AllOwned (m ∷ ms) = IsOwned m.kind m × AllOwned ms

pub free_requests-live :
    (base refs : ℕ) (ms : List StripeMemory) (h : Heap)
    → AllOwned ms
    → IsHeap (base + held_by ms) refs h
    → IsHeap base refs (free_requests ms h)
unfolding free_requests
free_requests-live base refs [] h o e = (omega (arith, e.0), e.1)
free_requests-live base refs (m ∷ ms) h o e =
    free_requests-live base refs ms (raid5f_stripe_request_free m h) o.1 (
      free-live (base + held_by ms) refs m h
        (record { live = omega (arith, e.0); accel = e.1; owned = o.0 }))

-- The requests that were allocated are live besides `base` blocks, and there are `n` of them if none is missing.
pub record AreAllocated (base refs n : ℕ) (r : Requests) : Type 0 where
  pub heap_counted : IsHeap (base + held_by r.requests) refs r.heap
  pub owned : AllOwned r.requests
  pub number : (r.complete ≡ false) ⊎ (length r.requests ≡ n)

next-AreAllocated :
    (base refs n k : ℕ) (r rest : Requests)
    → AreAllocated base refs (suc k) r
    → AreAllocated base refs (n + length r.requests) rest
    → (b : Bool) → r.complete ≡ b
    → AreAllocated base refs (suc n + k) (elim b [ true ↦ rest | false ↦ r ])
next-AreAllocated base refs n k r rest a c true e = record {
  heap_counted = c.heap_counted;
  owned = c.owned;
  number = ground (arith, a.number, c.number);
}
next-AreAllocated base refs n k r rest a c false e = record {
  heap_counted = a.heap_counted;
  owned = a.owned;
  number = inl e;
}

module _ (answers : ℕ → Bool) (accel_ok : Bool) (chunks data_num : ℕ) (has_md : Bool) where
  added-AreAllocated :
      (base refs : ℕ) (ms : List StripeMemory) (x : Option StripeMemory × Heap)
      → IsAllocated (base + held_by ms) refs x
      → AllOwned ms
      → AreAllocated base refs
          (suc (length ms))
          (request_added answers accel_ok chunks data_num has_md x ms)
  added-AreAllocated base refs ms (none, h) a o = record {
    heap_counted = a;
    owned = o;
    number = inl refl;
  }
  added-AreAllocated base refs ms (some m, h) a o = record {
    heap_counted = (omega (arith, a.live), a.accel);
    owned = (a.owned, o);
    number = inr refl;
  }

  pub requests-AreAllocated :
      (t : StripeRequestType) (base refs n : ℕ) (ms : List StripeMemory) (h : Heap)
      → IsHeap (base + held_by ms) refs h
      → AllOwned ms
      → AreAllocated base refs
          (n + length ms)
          (alloc_requests answers accel_ok chunks data_num has_md t n ms h)
  unfolding alloc_requests
  requests-AreAllocated t base refs zero ms h e o = record {
    heap_counted = e;
    owned = o;
    number = inr (omega arith);
  }
  requests-AreAllocated t base refs (suc n) ms h e o =
      let x = raid5f_stripe_request_alloc answers chunks data_num has_md t h in
      let r = request_added answers accel_ok chunks data_num has_md x ms in
      let a =
        added-AreAllocated base refs ms x
          (subst (λ b. IsAllocated b refs x) e.0
            (subst (λ a. IsAllocated h.live a x) e.1
              (alloc-IsAllocated answers chunks data_num has_md t h)))
          o in
      next-AreAllocated base refs n (length ms) r
        (alloc_requests answers accel_ok chunks data_num has_md t n r.requests r.heap) a
        (requests-AreAllocated t base refs n r.requests r.heap a.heap_counted a.owned) r.complete
        refl
