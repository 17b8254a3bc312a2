-- ===== src/Raid5f/Ended.antt =====
-- raid/raid5f.c: a channel is created unless an allocation, or the accel framework, has refused.
use flex_bso.Common.{
  ℕ, zero, suc, ◌≤◌, ◌≡◌, refl, Bool, true, false, if◌then◌else◌, ◌⊎◌, inl, inr, Option, none, some,
  List, [], ◌∷◌, arith, Bool-cases, ◌∙◌,
}
use flex_bso.Bdev.{Rc, ok, fail, enomem}
use flex_bso.Raid5f.{StripeRequestType, stripe_req_write, stripe_req_reconstruct}
use flex_bso.Raid5f.Alloc.{
  Heap, StripeMemory, raid5f_stripe_request_free, raid5f_stripe_request_alloc, free_requests,
  raid5f_ioch_destroy, R5Channel, ChannelStep, Requests, request_added, alloc_requests,
  write_requests_step, reconstruct_requests_step, accel_step, array_step, create_end, create_with,
  no_channel,
}
use flex_bso.Raid5f.Refused.{RefusedIn, Told, is_some, free-asked, alloc-Told}

module _ (answers : ℕ → Bool) (accel_ok : Bool) (chunks data_num : ℕ) (has_md : Bool) where
  added-complete :
      (x : Option StripeMemory × Heap) (ms : List StripeMemory)
      → (request_added answers accel_ok chunks data_num has_md x ms).complete ≡ is_some answers x.0
  added-complete (none, h) ms = refl
  added-complete (some m, h) ms = refl

  added-heap :
      (x : Option StripeMemory × Heap) (ms : List StripeMemory)
      → (request_added answers accel_ok chunks data_num has_md x ms).heap ≡ x.1
  added-heap (none, h) ms = refl
  added-heap (some m, h) ms = refl

  abbrev ToldBy : ℕ → Requests → Type 0
  ToldBy lo r = Told answers lo r.complete r.heap

  requests-Told :
      (lo : ℕ) (t : StripeRequestType) (n : ℕ) (ms : List StripeMemory) (h : Heap)
      → lo ≤ h.asked
      → Told answers lo
          (alloc_requests answers accel_ok chunks data_num has_md t n ms h).complete
          (alloc_requests answers accel_ok chunks data_num has_md t n ms h).heap
  unfolding alloc_requests
  requests-Told lo t zero ms h le = (le, inl refl)
  requests-Told lo t (suc n) ms h le =
      next (requests-Told lo t n added.requests added.heap told.0) added.complete refl
    where
      x : Option StripeMemory × Heap
      x = raid5f_stripe_request_alloc answers chunks data_num has_md t h

      added : Requests
      added = request_added answers accel_ok chunks data_num has_md x ms

      rest : Requests
      rest = alloc_requests answers accel_ok chunks data_num has_md t n added.requests added.heap

      told : Told answers lo added.complete added.heap
      told =
          rw (added-complete x ms, added-heap x ms)
            (alloc-Told answers lo chunks data_num has_md t h le)

      next :
          Told answers lo rest.complete rest.heap
          → (b : Bool) → added.complete ≡ b
          → ToldBy lo (elim b [ true ↦ rest | false ↦ added ])
      next more true e = more
      next more false e = told

  -- What a step of the creation leaves: it goes on, the accel framework has refused, or an allocation was.
  abbrev Goes : ℕ → ChannelStep → Type 0
  Goes lo s =
      (lo ≤ s.heap.asked)
      × ((s.going ≡ true) ⊎ (accel_ok ≡ false) ⊎ RefusedIn answers lo s.heap.asked)

  filled-Goes :
      (lo : ℕ) (s : ChannelStep) (r : Requests) (put : List StripeMemory → R5Channel → R5Channel)
      → Goes lo s
      → ((m : ℕ) → m ≤ s.heap.asked → Told answers m r.complete r.heap)
      → Goes lo (
          if s.going
          then record { going = r.complete; channel = put r.requests s.channel; heap = r.heap }
          else s)
  filled-Goes lo s r put (le, g) told = chosen s.going refl
    where
      more : s.heap.asked ≤ r.heap.asked
      more = (told s.heap.asked (omega arith)).0

      chosen :
          (b : Bool)
          → s.going ≡ b
          → Goes lo (
              if b
              then record { going = r.complete; channel = put r.requests s.channel; heap = r.heap }
              else s)
      chosen false e = (le, g)
      chosen true e = (omega (arith, le, more), or_refused (told lo le).1)
        where
          or_refused :
              (r.complete ≡ true) ⊎ RefusedIn answers lo r.heap.asked
              → (r.complete ≡ true) ⊎ (accel_ok ≡ false) ⊎ RefusedIn answers lo r.heap.asked
          or_refused (inl q) = inl q
          or_refused (inr q) = inr (inr q)

  accel-Goes :
      (lo : ℕ) (s : ChannelStep)
      → Goes lo s
      → Goes lo (accel_step answers accel_ok chunks data_num has_md s)
  unfolding accel_step
  accel-Goes lo s h = ground (arith, h)

  array-Goes :
      (lo : ℕ) (put : ℕ → R5Channel → R5Channel) (s : ChannelStep)
      → Goes lo s
      → Goes lo (array_step answers accel_ok chunks data_num has_md put s)
  array-Goes lo put s (le, g) = chosen (Bool-cases s.going) (Bool-cases (answers s.heap.asked))
    where
      stuck :
          (s.going ≡ true) ⊎ (accel_ok ≡ false) ⊎ RefusedIn answers lo s.heap.asked
          → s.going ≡ false
          → (accel_ok ≡ false) ⊎ RefusedIn answers lo s.heap.asked
      stuck (inl e) f = absurd (cc)
      stuck (inr q) f = q

      chosen :
          (s.going ≡ true) ⊎ (s.going ≡ false)
          → (answers s.heap.asked ≡ true) ⊎ (answers s.heap.asked ≡ false)
          → Goes lo (array_step answers accel_ok chunks data_num has_md put s)
      chosen (inr e) a = rw e (le, inr (stuck g e))
      chosen (inl e) (inl a) = rw (e, a) (omega (arith, le), inl refl)
      chosen (inl e) (inr a) =
          rw (e, a) (omega (arith, le), inr (inr (s.heap.asked, a, le, omega arith)))

  free_requests-asked : (ms : List StripeMemory) (h : Heap) → (free_requests ms h).asked ≡ h.asked
  unfolding free_requests
  free_requests-asked [] h = refl
  free_requests-asked (m ∷ ms) h =
      free_requests-asked ms (raid5f_stripe_request_free m h) ∙ free-asked answers m h

  destroy-asked : (c : R5Channel) (h : Heap) → (raid5f_ioch_destroy c h).asked ≡ h.asked
  unfolding raid5f_ioch_destroy
  destroy-asked c h =
      free_requests-asked c.free_reconstruct (free_requests c.free_write h)
      ∙ free_requests-asked c.free_write h

  -- The creation ends well, the accel framework has refused its channel, or an allocation that was made was.
  abbrev pub EndsWell : Heap → Rc × R5Channel × Heap → Type 0
  EndsWell h p = (p.0 ≡ ok) ⊎ (accel_ok ≡ false) ⊎ RefusedIn answers h.asked p.2.asked

  end-EndsWell :
      (h : Heap) (s : ChannelStep)
      → Goes h.asked s
      → EndsWell h (create_end answers accel_ok chunks data_num has_md s)
  end-EndsWell h s g = chosen s.going refl
    where
      chosen :
          (b : Bool)
          → s.going ≡ b
          → EndsWell h (
              if b
              then (ok, s.channel, s.heap)
              else (fail enomem, s.channel, raid5f_ioch_destroy s.channel s.heap))
      chosen true e = inl refl
      chosen false e = rw (destroy-asked s.channel s.heap) (inr (stuck g.1 e))
        where
          stuck :
              (s.going ≡ true) ⊎ (accel_ok ≡ false) ⊎ RefusedIn answers h.asked s.heap.asked
              → s.going ≡ false
              → (accel_ok ≡ false) ⊎ RefusedIn answers h.asked s.heap.asked
          stuck (inl e) f = absurd (cc)
          stuck (inr q) f = q

  pub create_with-EndsWell :
      (n : ℕ) (h : Heap) → EndsWell h (create_with answers accel_ok chunks data_num has_md n h)
  unfolding create_with write_requests_step reconstruct_requests_step
  create_with-EndsWell n h = end-EndsWell h (array (λ k c. record c { chunk_xor_iovcnt = k }) s5) (
      array-Goes h.asked (λ k c. record c { chunk_xor_iovcnt = k }) s5
        (array-Goes h.asked (λ k c. record c { chunk_xor_iovs = k }) s4
          (array-Goes h.asked (λ k c. record c { chunk_xor_buffers = k }) s3
            (accel-Goes h.asked s2 (
              filled-Goes h.asked s1
                (alloc_requests answers accel_ok chunks data_num has_md stripe_req_reconstruct n []
                  s1.heap)
                (λ ms c. record c { free_reconstruct = ms })
                (filled-Goes h.asked s0
                  (alloc_requests answers accel_ok chunks data_num has_md stripe_req_write n [] h)
                  (λ ms c. record c { free_write = ms }) (omega arith, inl refl)
                  (λ m le. requests-Told m stripe_req_write n [] h le))
                (λ m le. requests-Told m stripe_req_reconstruct n [] s1.heap le))))))
    where
      array : (ℕ → R5Channel → R5Channel) → ChannelStep → ChannelStep
      array = array_step answers accel_ok chunks data_num has_md

      s0 : ChannelStep
      s0 = record {
        going = true;
        channel = no_channel answers accel_ok chunks data_num has_md;
        heap = h;
      }

      s1 : ChannelStep
      s1 = write_requests_step answers accel_ok chunks data_num has_md n s0

      s2 : ChannelStep
      s2 = reconstruct_requests_step answers accel_ok chunks data_num has_md n s1

      s3 : ChannelStep
      s3 = accel_step answers accel_ok chunks data_num has_md s2

      s4 : ChannelStep
      s4 = array (λ k c. record c { chunk_xor_buffers = k }) s3

      s5 : ChannelStep
      s5 = array (λ k c. record c { chunk_xor_iovs = k }) s4

  -- A channel that is going on has what the steps behind it were to take.
  abbrev Taken : ChannelStep → Type 0
  Taken s =
      (s.going ≡ false)
      ⊎ ((s.channel.accel_ch ≡ 1)
          × (s.channel.chunk_xor_buffers ≡ 1)
          × (s.channel.chunk_xor_iovs ≡ 1)
          × (s.channel.chunk_xor_iovcnt ≡ 1))

  steps-Taken :
      (s : ChannelStep)
      → Taken (
          array_step answers accel_ok chunks data_num has_md
            (λ k c. record c { chunk_xor_iovcnt = k })
            (array_step answers accel_ok chunks data_num has_md
              (λ k c. record c { chunk_xor_iovs = k })
              (array_step answers accel_ok chunks data_num has_md
                (λ k c. record c { chunk_xor_buffers = k })
                (accel_step answers accel_ok chunks data_num has_md s))))
  unfolding accel_step
  steps-Taken s = ground arith

  abbrev pub HasTaken : Rc × R5Channel × Heap → Type 0
  HasTaken p =
      (p.0 ≡ fail enomem)
      ⊎ ((p.1.accel_ch ≡ 1)
          × (p.1.chunk_xor_buffers ≡ 1)
          × (p.1.chunk_xor_iovs ≡ 1)
          × (p.1.chunk_xor_iovcnt ≡ 1))

  end-HasTaken :
      (s : ChannelStep) → Taken s → HasTaken (create_end answers accel_ok chunks data_num has_md s)
  end-HasTaken s (inl e) = rw e (inl refl)
  end-HasTaken s (inr h) = chosen s.going
    where
      chosen :
          (b : Bool)
          → HasTaken (
              if b
              then (ok, s.channel, s.heap)
              else (fail enomem, s.channel, raid5f_ioch_destroy s.channel s.heap))
      chosen true = inr h
      chosen false = inl refl

  pub create_with-HasTaken :
      (n : ℕ) (h : Heap) → HasTaken (create_with answers accel_ok chunks data_num has_md n h)
  unfolding create_with
  create_with-HasTaken n h = end-HasTaken _ (steps-Taken _)
