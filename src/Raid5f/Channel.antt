-- ===== src/Raid5f/Channel.antt =====
-- raid/raid5f.c: an io channel that is created in full, or not at all.
use flex_bso.Common.{
  ℕ, ◌+◌, ◌≡◌, ◌∙◌, refl, sym, ap, subst, Bool, true, false, if◌then◌else◌, ◌⊎◌, inl, inr, List, [],
  length, arith, ◌≤◌, ◌<◌,
}
use flex_bso.Bdev.{Rc, ok, fail, enomem}
use flex_bso.Raid5f.{stripe_req_write, stripe_req_reconstruct}
use flex_bso.Raid5f.Alloc.{
  Heap, StripeMemory, R5Channel, free_requests, raid5f_ioch_destroy, raid5f_max_stripes,
  ChannelStep, Requests, alloc_requests, write_requests_step, reconstruct_requests_step, accel_step,
  array_step, no_channel, create_end, raid5f_ioch_create, create_with,
}
use flex_bso.Raid5f.Allocated.{
  IsHeap, held_by, AllOwned, free_requests-live, AreAllocated, requests-AreAllocated,
}
use flex_bso.Raid5f.Ended.{EndsWell, HasTaken, create_with-EndsWell, create_with-HasTaken}

module _ (answers : ℕ → Bool) (accel_ok : Bool) (chunks data_num : ℕ) (has_md : Bool) where
  -- A channel under way, with the requests `fw` and `fr` in its lists.
  abbrev Stage : ℕ → ℕ → List StripeMemory → List StripeMemory → ChannelStep → Type 0
  Stage base refs fw fr s =
      (s.heap.live
        ≡ base
          + (held_by fw + held_by fr)
          + (s.channel.chunk_xor_buffers + s.channel.chunk_xor_iovs + s.channel.chunk_xor_iovcnt))
      × (s.heap.accel_refs ≡ refs + s.channel.accel_ch)
      × (s.channel.free_write ≡ fw)
      × (s.channel.free_reconstruct ≡ fr)

  abbrev NoArrays : ChannelStep → Type 0
  NoArrays s =
      (s.channel.chunk_xor_buffers ≡ 0)
      × (s.channel.chunk_xor_iovs ≡ 0)
      × (s.channel.chunk_xor_iovcnt ≡ 0)

  -- Unless the creation has failed, both lists are full.
  abbrev AreFull : ℕ → List StripeMemory → List StripeMemory → ChannelStep → Type 0
  AreFull n fw fr s = (s.going ≡ false) ⊎ ((length fw ≡ n) × (length fr ≡ n))

  accel-Stage :
      (n base refs : ℕ) (fw fr : List StripeMemory) (s : ChannelStep)
      → Stage base refs fw fr s
      → s.channel.accel_ch ≡ 0
      → NoArrays s
      → AreFull n fw fr s
      → (let s' = accel_step answers accel_ok chunks data_num has_md s in
          Stage base refs fw fr s' × NoArrays s' × AreFull n fw fr s')
  unfolding accel_step
  accel-Stage n base refs fw fr s g a e f = ground arith

  buffers-Stage :
      (n base refs : ℕ) (fw fr : List StripeMemory) (s : ChannelStep)
      → Stage base refs fw fr s
      → NoArrays s
      → AreFull n fw fr s
      → (let s' =
            array_step answers accel_ok chunks data_num has_md
              (λ k c. record c { chunk_xor_buffers = k })
              s in
          Stage base refs fw fr s'
          × (s'.channel.chunk_xor_iovs ≡ 0)
          × (s'.channel.chunk_xor_iovcnt ≡ 0)
          × AreFull n fw fr s')
  buffers-Stage n base refs fw fr s g e f = ground arith

  iovs-Stage :
      (n base refs : ℕ) (fw fr : List StripeMemory) (s : ChannelStep)
      → Stage base refs fw fr s
      → s.channel.chunk_xor_iovs ≡ 0
      → s.channel.chunk_xor_iovcnt ≡ 0
      → AreFull n fw fr s
      → (let s' =
            array_step answers accel_ok chunks data_num has_md
              (λ k c. record c { chunk_xor_iovs = k })
              s in
          Stage base refs fw fr s' × (s'.channel.chunk_xor_iovcnt ≡ 0) × AreFull n fw fr s')
  iovs-Stage n base refs fw fr s g e m f = ground arith

  iovcnt-Stage :
      (n base refs : ℕ) (fw fr : List StripeMemory) (s : ChannelStep)
      → Stage base refs fw fr s
      → s.channel.chunk_xor_iovcnt ≡ 0
      → AreFull n fw fr s
      → (let s' =
            array_step answers accel_ok chunks data_num has_md
              (λ k c. record c { chunk_xor_iovcnt = k })
              s in
          Stage base refs fw fr s' × AreFull n fw fr s')
  iovcnt-Stage n base refs fw fr s g m f = ground arith

  -- A channel gives back what it holds.
  destroy-IsHeap :
      (base refs : ℕ) (fw fr : List StripeMemory) (s : ChannelStep)
      → AllOwned fw
      → AllOwned fr
      → Stage base refs fw fr s
      → IsHeap base refs (raid5f_ioch_destroy s.channel s.heap)
  unfolding raid5f_ioch_destroy
  destroy-IsHeap base refs fw fr s ow or g =
      (omega (arith, reconstruct_freed.0), omega (arith, reconstruct_freed.1))
    where
      arrays : ℕ
      arrays = s.channel.chunk_xor_buffers + s.channel.chunk_xor_iovs + s.channel.chunk_xor_iovcnt

      write_freed :
          IsHeap
            (base + arrays + held_by fr)
            (refs + s.channel.accel_ch)
            (free_requests s.channel.free_write s.heap)
      write_freed =
          free_requests-live (base + arrays + held_by fr) (refs + s.channel.accel_ch)
            s.channel.free_write s.heap (subst AllOwned (sym g.2) ow)
            (omega (arith, g.0, ap held_by g.2), g.1)

      reconstruct_freed :
          IsHeap
            (base + arrays)
            (refs + s.channel.accel_ch)
            (free_requests s.channel.free_reconstruct (free_requests s.channel.free_write s.heap))
      reconstruct_freed =
          free_requests-live (base + arrays) (refs + s.channel.accel_ch) s.channel.free_reconstruct
            _ (subst AllOwned (sym g.3) or)
            (omega (arith, write_freed.0, ap held_by g.3), write_freed.1)

  -- A channel in full, which gives back all that it took when it is destroyed; or -ENOMEM and nothing taken.
  abbrev IsBalanced : ℕ → Heap → Rc × R5Channel × Heap → Type 0
  IsBalanced n h p =
      ((p.0 ≡ ok)
        × (length p.1.free_write ≡ n)
        × (length p.1.free_reconstruct ≡ n)
        × ((raid5f_ioch_destroy p.1 p.2).live ≡ h.live)
        × ((raid5f_ioch_destroy p.1 p.2).accel_refs ≡ h.accel_refs))
      ⊎ ((p.0 ≡ fail enomem) × (p.2.live ≡ h.live) × (p.2.accel_refs ≡ h.accel_refs))

  end-IsBalanced :
      (n : ℕ) (h : Heap) (fw fr : List StripeMemory) (s : ChannelStep)
      → AllOwned fw
      → AllOwned fr
      → Stage h.live h.accel_refs fw fr s
      → AreFull n fw fr s
      → IsBalanced n h (create_end answers accel_ok chunks data_num has_md s)
  end-IsBalanced n h fw fr s ow or g f = chosen s.going refl
    where
      back : IsHeap h.live h.accel_refs (raid5f_ioch_destroy s.channel s.heap)
      back = destroy-IsHeap h.live h.accel_refs fw fr s ow or g

      full : s.going ≡ true → (length fw ≡ n) × (length fr ≡ n)
      full e = ground (arith, f)

      chosen :
          (b : Bool)
          → s.going ≡ b
          → IsBalanced n h (
              if b
              then (ok, s.channel, s.heap)
              else (fail enomem, s.channel, raid5f_ioch_destroy s.channel s.heap))
      chosen true e =
          inl (refl, ap length g.2 ∙ (full e).0, ap length g.3 ∙ (full e).1, back.0, back.1)
      chosen false e = inr (refl, back.0, back.1)

  -- One list filled, as far as memory goes; and both.
  abbrev OneFilled : ℕ → ℕ → ℕ → ChannelStep → Type 0
  OneFilled n base refs s =
      (fw : List StripeMemory) × AllOwned fw
      × Stage base refs fw [] s
      × (s.channel.accel_ch ≡ 0)
      × NoArrays s
      × ((s.going ≡ false) ⊎ (length fw ≡ n))

  abbrev BothFilled : ℕ → ℕ → ℕ → ChannelStep → Type 0
  BothFilled n base refs s =
      (fw : List StripeMemory) × (fr : List StripeMemory) × AllOwned fw
      × AllOwned fr
      × Stage base refs fw fr s
      × (s.channel.accel_ch ≡ 0)
      × NoArrays s
      × AreFull n fw fr s

  write-OneFilled :
      (n : ℕ) (h : Heap)
      → OneFilled n h.live h.accel_refs (
          write_requests_step answers accel_ok chunks data_num has_md n (record {
            going = true;
            channel = no_channel answers accel_ok chunks data_num has_md;
            heap = h;
          }))
  unfolding write_requests_step
  write-OneFilled n h =
      let a =
        requests-AreAllocated answers accel_ok chunks data_num has_md stripe_req_write h.live
          h.accel_refs n [] h (omega arith, refl) tt in
      (
        _,
        a.owned,
        (omega (arith, a.heap_counted.0), omega (arith, a.heap_counted.1), refl, refl),
        refl,
        (refl, refl, refl),
        ground (arith, a.number),
      )

  reconstruct-BothFilled :
      (n base refs : ℕ) (s : ChannelStep)
      → OneFilled n base refs s
      → BothFilled n base refs
          (reconstruct_requests_step answers accel_ok chunks data_num has_md n s)
  unfolding reconstruct_requests_step
  reconstruct-BothFilled n base refs s f = chosen s.going refl
    where
      a : AreAllocated (base + held_by f.0) refs (n + 0) (
          alloc_requests answers accel_ok chunks data_num has_md stripe_req_reconstruct n [] s.heap)
      a =
          requests-AreAllocated answers accel_ok chunks data_num has_md stripe_req_reconstruct
            (base + held_by f.0) refs n [] s.heap
            (omega (arith, f.2.0, f.4), omega (arith, f.2.1, f.3)) tt

      r : Requests
      r = alloc_requests answers accel_ok chunks data_num has_md stripe_req_reconstruct n [] s.heap

      filled : ChannelStep
      filled = record {
        going = r.complete;
        channel = record s.channel { free_reconstruct = r.requests };
        heap = r.heap;
      }

      chosen : (b : Bool) → s.going ≡ b → BothFilled n base refs (if b then filled else s)
      chosen true e = (
        f.0,
        r.requests,
        f.1,
        a.owned,
        (omega (arith, a.heap_counted.0, f.4), omega (arith, a.heap_counted.1, f.3), f.2.2, refl),
        f.3,
        f.4,
        ground (arith, a.number, f.5, e),
      )
      chosen false e = (f.0, [], f.1, tt, f.2, f.3, f.4, inl e)

  create_with-IsBalanced :
      (n : ℕ) (h : Heap) → IsBalanced n h (create_with answers accel_ok chunks data_num has_md n h)
  unfolding create_with
  create_with-IsBalanced n h =
      end-IsBalanced n h b.0 b.1 (array (λ k c. record c { chunk_xor_iovcnt = k }) s4) b.2 b.3 c.0
        c.1
    where
      array : (ℕ → R5Channel → R5Channel) → ChannelStep → ChannelStep
      array = array_step answers accel_ok chunks data_num has_md

      s1 : ChannelStep
      s1 = reconstruct_requests_step answers accel_ok chunks data_num has_md n (
          write_requests_step answers accel_ok chunks data_num has_md n (record {
            going = true;
            channel = no_channel answers accel_ok chunks data_num has_md;
            heap = h;
          }))

      s2 : ChannelStep
      s2 = accel_step answers accel_ok chunks data_num has_md s1

      s3 : ChannelStep
      s3 = array (λ k c. record c { chunk_xor_buffers = k }) s2

      s4 : ChannelStep
      s4 = array (λ k c. record c { chunk_xor_iovs = k }) s3

      b : BothFilled n h.live h.accel_refs s1
      b = reconstruct-BothFilled n h.live h.accel_refs _ (write-OneFilled n h)

      c :
          Stage h.live h.accel_refs b.0 b.1 (array (λ k c. record c { chunk_xor_iovcnt = k }) s4)
          × AreFull n b.0 b.1 (array (λ k c. record c { chunk_xor_iovcnt = k }) s4)
      c =
          let x = accel-Stage n h.live h.accel_refs b.0 b.1 s1 b.4 b.5 b.6 b.7 in
          let y = buffers-Stage n h.live h.accel_refs b.0 b.1 s2 x.0 x.1 x.2 in
          let w = iovs-Stage n h.live h.accel_refs b.0 b.1 s3 y.0 y.1 y.2 y.3 in
          iovcnt-Stage n h.live h.accel_refs b.0 b.1 s4 w.0 w.1 w.2

  -- A channel in full, which gives back all that it took when it is destroyed; or -ENOMEM and nothing taken, after
  -- a refusal.
  abbrev pub IsCreated : ℕ → Heap → Rc × R5Channel × Heap → Type 0
  IsCreated n h p =
      ((p.0 ≡ ok)
        × (length p.1.free_write ≡ n)
        × (length p.1.free_reconstruct ≡ n)
        × (p.1.accel_ch ≡ 1)
        × (p.1.chunk_xor_buffers ≡ 1)
        × (p.1.chunk_xor_iovs ≡ 1)
        × (p.1.chunk_xor_iovcnt ≡ 1)
        × ((raid5f_ioch_destroy p.1 p.2).live ≡ h.live)
        × ((raid5f_ioch_destroy p.1 p.2).accel_refs ≡ h.accel_refs))
      ⊎ ((p.0 ≡ fail enomem)
          × (p.2.live ≡ h.live)
          × (p.2.accel_refs ≡ h.accel_refs)
          × ((accel_ok ≡ false)
              ⊎ ((k : ℕ) × (answers k ≡ false) × (h.asked ≤ k) × (k < p.2.asked))))

  joined-IsCreated :
      (n : ℕ) (h : Heap) (p : Rc × R5Channel × Heap)
      → IsBalanced n h p
      → EndsWell answers accel_ok chunks data_num has_md h p
      → HasTaken answers accel_ok chunks data_num has_md p
      → IsCreated n h p
  joined-IsCreated n h p (inl b) e (inl t) = absurd (cc)
  joined-IsCreated n h p (inl b) e (inr t) = inl (b.0, b.1, b.2, t.0, t.1, t.2, t.3, b.3, b.4)
  joined-IsCreated n h p (inr b) (inl e) t = absurd (cc)
  joined-IsCreated n h p (inr b) (inr e) t = inr (b.0, b.1, b.2, e)

  -- `raid5f_ioch_create` returns 0 with 32 free requests of each kind, a channel of the accel framework and the
  -- three arrays, and destroying the channel gives back all that it took; or it returns -ENOMEM and has given
  -- back all that it took, and then the accel framework has refused its channel, or one of the allocations
  -- that it made (of the requests, their buffers, or the arrays) was refused.
  pub raid5f_ioch_create-IsCreated :
      (h : Heap)
      → IsCreated raid5f_max_stripes h
          (raid5f_ioch_create answers accel_ok chunks data_num has_md h)
  unfolding raid5f_ioch_create
  raid5f_ioch_create-IsCreated h =
      joined-IsCreated raid5f_max_stripes h _ (create_with-IsBalanced raid5f_max_stripes h)
        (create_with-EndsWell answers accel_ok chunks data_num has_md raid5f_max_stripes h)
        (create_with-HasTaken answers accel_ok chunks data_num has_md raid5f_max_stripes h)
