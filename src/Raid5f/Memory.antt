-- ===== src/Raid5f/Memory.antt =====
-- raid/raid5f.c: no memory is lost, whichever allocation fails.
use flex_bso.Common.{ℕ, zero, suc, ◌+◌, ◌-◌, ◌≡◌, ◌≢◌, ◌∙◌, refl, Bool, false, ◌⊎◌, arith}
use flex_bso.Raid5f.{StripeRequestType, stripe_req_write, stripe_req_reconstruct}
use flex_bso.Raid5f.Alloc.{
  Heap, StripeMemory, Step, buffers_freed, raid5f_stripe_request_free, malloc, malloc_loop, step,
  step_md, parity_step, reconstruct_step, kind_step, xor_step,
}

-- The blocks that a request owns besides itself.
abbrev pub held : StripeMemory → ℕ
held m =
    m.iovs
    + (m.parity_buf + m.parity_md_buf)
    + (m.chunk_buffers + m.chunk_buffers_used)
    + (m.chunk_md_buffers + m.chunk_md_buffers_used)
    + (m.chunk_iov_iters + m.chunk_xor_buffers + m.chunk_xor_md_buffers)

-- What a request of its kind owns: no entries of an array that it has not, and nothing of the other kind.
abbrev pub IsOwned : StripeRequestType → StripeMemory → Type 0
IsOwned stripe_req_write m =
    (m.chunk_buffers + m.chunk_buffers_used ≡ 0)
    × (m.chunk_md_buffers + m.chunk_md_buffers_used ≡ 0)
IsOwned stripe_req_reconstruct m =
    (m.parity_buf + m.parity_md_buf ≡ 0)
    × ((m.chunk_buffers_used ≡ 0) ⊎ (m.chunk_buffers ≢ 0))
    × ((m.chunk_md_buffers_used ≡ 0) ⊎ (m.chunk_md_buffers ≢ 0))

-- Of the heap, a request and `base` other blocks are live.
pub record Owns (base refs : ℕ) (m : StripeMemory) (h : Heap) : Type 0 where
  pub live : h.live ≡ base + suc (held m)
  pub accel : h.accel_refs ≡ refs
  pub owned : IsOwned m.kind m

buffers_freed-live :
    (t : StripeRequestType) (base : ℕ) (m : StripeMemory) (h : Heap)
    → IsOwned t m
    → h.live
      ≡ base
        + (m.parity_buf + m.parity_md_buf)
        + (m.chunk_buffers + m.chunk_buffers_used)
        + (m.chunk_md_buffers + m.chunk_md_buffers_used)
    → ((buffers_freed t m h).live ≡ base) × ((buffers_freed t m h).accel_refs ≡ h.accel_refs)
buffers_freed-live stripe_req_write base m h o e = ground arith
buffers_freed-live stripe_req_reconstruct base m h o e = ground arith

pub free-live :
    (base refs : ℕ) (m : StripeMemory) (h : Heap)
    → Owns base refs m h
    → ((raid5f_stripe_request_free m h).live ≡ base)
      × ((raid5f_stripe_request_free m h).accel_refs ≡ refs)
unfolding raid5f_stripe_request_free
free-live base refs m h o =
    let k =
      buffers_freed-live m.kind
        (suc (base + (m.chunk_iov_iters + m.chunk_xor_buffers + m.chunk_xor_md_buffers))) m
        (record h { live = h.live - m.iovs }) o.owned (omega (arith, o.live)) in
    (omega (arith, k.0), k.1 ∙ o.accel)

module _ (answers : ℕ → Bool) where
  malloc_loop-live :
      (n : ℕ) (h : Heap)
      → ((malloc_loop answers n h).1.live ≡ h.live + (malloc_loop answers n h).0)
        × ((malloc_loop answers n h).1.accel_refs ≡ h.accel_refs)
  unfolding malloc_loop
  malloc_loop-live zero h = (omega arith, refl)
  malloc_loop-live (suc n) h = ground (arith, malloc_loop-live n (malloc answers h).1)

  module _ (base refs : ℕ) where
    -- A step has kept account: all that is live is `base` and what the request owns.
    abbrev pub IsLive : Step → Type 0
    IsLive s = (s.heap.live ≡ base + suc (held s.memory)) × (s.heap.accel_refs ≡ refs)

    -- Nothing is allocated yet for the parity, for the data, for the metadata, or for the calculation.
    abbrev pub NoParity : StripeMemory → Type 0
    NoParity m = (m.parity_buf ≡ 0) × (m.parity_md_buf ≡ 0)

    abbrev pub NoData : StripeMemory → Type 0
    NoData m = (m.chunk_buffers ≡ 0) × (m.chunk_buffers_used ≡ 0)

    abbrev pub NoMd : StripeMemory → Type 0
    NoMd m = (m.chunk_md_buffers ≡ 0) × (m.chunk_md_buffers_used ≡ 0)

    abbrev pub NoXor : StripeMemory → Type 0
    NoXor m = (m.chunk_iov_iters ≡ 0) × (m.chunk_xor_buffers ≡ 0) × (m.chunk_xor_md_buffers ≡ 0)

    abbrev pub Begun : Step → Type 0
    Begun s = IsLive s × NoParity s.memory × NoData s.memory × NoMd s.memory × NoXor s.memory

    abbrev pub Buffered : StripeRequestType → Step → Type 0
    Buffered t s = IsLive s × NoXor s.memory × IsOwned t s.memory × (s.memory.kind ≡ t)

    abbrev pub Finished : StripeRequestType → Step → Type 0
    Finished t s = IsLive s × IsOwned t s.memory × (s.memory.kind ≡ t)

    -- The chunks' iovecs.
    pub iovs-Begun :
        (n : ℕ) (s : Step)
        → IsLive s
        → s.memory.iovs ≡ 0
        → NoParity s.memory
        → NoData s.memory
        → NoMd s.memory
        → NoXor s.memory
        → Begun (step answers n (λ k m. record m { iovs = k }) s)
    iovs-Begun n s live zero_iovs p d m x = ground (arith, malloc_loop-live n s.heap)

    -- One more block for a field that is empty.
    parity_buf-step :
        (s : Step)
        → Begun s
        → s.memory.kind ≡ stripe_req_write
        → (let s' = step answers 1 (λ k m. record m { parity_buf = k }) s in
            IsLive s'
            × (s'.memory.parity_md_buf ≡ 0)
            × NoData s'.memory
            × NoMd s'.memory
            × NoXor s'.memory
            × (s'.memory.kind ≡ stripe_req_write))
    parity_buf-step s b k = ground (arith, malloc_loop-live 1 s.heap)

    parity_md-step :
        (has_md : Bool) (s : Step)
        → IsLive s
        → s.memory.parity_md_buf ≡ 0
        → NoData s.memory
        → NoMd s.memory
        → NoXor s.memory
        → s.memory.kind ≡ stripe_req_write
        → Buffered stripe_req_write
            (step_md answers has_md 1 (λ k m. record m { parity_md_buf = k }) s)
    parity_md-step has_md s live p d m x k = ground (arith, malloc_loop-live 1 s.heap)

    parity-Buffered :
        (has_md : Bool) (s : Step)
        → Begun s
        → s.memory.kind ≡ stripe_req_write
        → Buffered stripe_req_write (parity_step answers has_md s)
    unfolding parity_step
    parity-Buffered has_md s b k =
        let q = parity_buf-step s b k in
        parity_md-step has_md (step answers 1 (λ k m. record m { parity_buf = k }) s) q.0 q.1 q.2
          q.3 q.4 q.5

    abbrev HasArray : ℕ → Bool → Type 0
    HasArray n fine = (n ≢ 0) ⊎ (fine ≡ false)

    array-step :
        (s : Step)
        → Begun s
        → s.memory.kind ≡ stripe_req_reconstruct
        → (let s' = step answers 1 (λ k m. record m { chunk_buffers = k }) s in
            IsLive s'
            × NoParity s'.memory
            × ((s'.memory.chunk_buffers_used ≡ 0) × HasArray s'.memory.chunk_buffers s'.fine)
            × NoMd s'.memory
            × NoXor s'.memory
            × (s'.memory.kind ≡ stripe_req_reconstruct))
    array-step s b k = ground (arith, malloc_loop-live 1 s.heap)

    used-step :
        (n : ℕ) (s : Step)
        → IsLive s
        → NoParity s.memory
        → s.memory.chunk_buffers_used ≡ 0
        → HasArray s.memory.chunk_buffers s.fine
        → NoMd s.memory
        → NoXor s.memory
        → s.memory.kind ≡ stripe_req_reconstruct
        → (let s' = step answers n (λ k m. record m { chunk_buffers_used = k }) s in
            IsLive s'
            × NoMd s'.memory
            × NoXor s'.memory
            × IsOwned stripe_req_reconstruct s'.memory
            × (s'.memory.kind ≡ stripe_req_reconstruct))
    used-step n s live p u has m x k = ground (arith, malloc_loop-live n s.heap)

    md_array-step :
        (has_md : Bool) (s : Step)
        → IsLive s
        → NoMd s.memory
        → NoXor s.memory
        → IsOwned stripe_req_reconstruct s.memory
        → s.memory.kind ≡ stripe_req_reconstruct
        → (let s' = step_md answers has_md 1 (λ k m. record m { chunk_md_buffers = k }) s in
            IsLive s'
            × (s'.memory.chunk_md_buffers_used ≡ 0)
            × ((HasArray s'.memory.chunk_md_buffers s'.fine) ⊎ (has_md ≡ false))
            × NoXor s'.memory
            × IsOwned stripe_req_reconstruct s'.memory
            × (s'.memory.kind ≡ stripe_req_reconstruct))
    md_array-step has_md s live m x o k = ground (arith, malloc_loop-live 1 s.heap)

    md_used-step :
        (has_md : Bool) (n : ℕ) (s : Step)
        → IsLive s
        → s.memory.chunk_md_buffers_used ≡ 0
        → (HasArray s.memory.chunk_md_buffers s.fine) ⊎ (has_md ≡ false)
        → NoXor s.memory
        → IsOwned stripe_req_reconstruct s.memory
        → s.memory.kind ≡ stripe_req_reconstruct
        → Buffered stripe_req_reconstruct
            (step_md answers has_md n (λ k m. record m { chunk_md_buffers_used = k }) s)
    md_used-step has_md n s live u has x o k = ground (arith, malloc_loop-live n s.heap)

    reconstruct-Buffered :
        (has_md : Bool) (n : ℕ) (s : Step)
        → Begun s
        → s.memory.kind ≡ stripe_req_reconstruct
        → Buffered stripe_req_reconstruct (reconstruct_step answers has_md n s)
    unfolding reconstruct_step
    reconstruct-Buffered has_md n s b k =
        let a = array-step s b k in
        let s1 = step answers 1 (λ i m. record m { chunk_buffers = i }) s in
        let u = used-step n s1 a.0 a.1 a.2.0 a.2.1 a.3 a.4 a.5 in
        let s2 = step answers n (λ i m. record m { chunk_buffers_used = i }) s1 in
        let q = md_array-step has_md s2 u.0 u.1 u.2 u.3 u.4 in
        md_used-step has_md n
          (step_md answers has_md 1 (λ i m. record m { chunk_md_buffers = i }) s2) q.0 q.1 q.2 q.3
          q.4 q.5

    pub kind-Buffered :
        (t : StripeRequestType) (has_md : Bool) (n : ℕ) (s : Step)
        → Begun s
        → s.memory.kind ≡ t
        → Buffered t (kind_step answers t has_md n s)
    unfolding kind_step
    kind-Buffered stripe_req_write has_md n s b k = parity-Buffered has_md s b k
    kind-Buffered stripe_req_reconstruct has_md n s b k = reconstruct-Buffered has_md n s b k

    iters-step :
        (t : StripeRequestType) (s : Step)
        → Buffered t s
        → (let s' = step answers 1 (λ k m. record m { chunk_iov_iters = k }) s in
            Finished t s'
            × (s'.memory.chunk_xor_buffers ≡ 0)
            × (s'.memory.chunk_xor_md_buffers ≡ 0))
    iters-step stripe_req_write s b = ground (arith, malloc_loop-live 1 s.heap)
    iters-step stripe_req_reconstruct s b = ground (arith, malloc_loop-live 1 s.heap)

    xor_buffers-step :
        (t : StripeRequestType) (s : Step)
        → Finished t s
        → s.memory.chunk_xor_buffers ≡ 0
        → s.memory.chunk_xor_md_buffers ≡ 0
        → (let s' = step answers 1 (λ k m. record m { chunk_xor_buffers = k }) s in
            Finished t s' × (s'.memory.chunk_xor_md_buffers ≡ 0))
    xor_buffers-step stripe_req_write s b x y = ground (arith, malloc_loop-live 1 s.heap)
    xor_buffers-step stripe_req_reconstruct s b x y = ground (arith, malloc_loop-live 1 s.heap)

    xor_md-step :
        (t : StripeRequestType) (s : Step)
        → Finished t s
        → s.memory.chunk_xor_md_buffers ≡ 0
        → Finished t (step answers 1 (λ k m. record m { chunk_xor_md_buffers = k }) s)
    xor_md-step stripe_req_write s b y = ground (arith, malloc_loop-live 1 s.heap)
    xor_md-step stripe_req_reconstruct s b y = ground (arith, malloc_loop-live 1 s.heap)

    pub xor-Finished :
        (t : StripeRequestType) (s : Step) → Buffered t s → Finished t (xor_step answers s)
    unfolding xor_step
    xor-Finished t s b =
        let i = iters-step t s b in
        let s1 = step answers 1 (λ k m. record m { chunk_iov_iters = k }) s in
        let x = xor_buffers-step t s1 i.0 i.1 i.2 in
        xor_md-step t (step answers 1 (λ k m. record m { chunk_xor_buffers = k }) s1) x.0 x.1
