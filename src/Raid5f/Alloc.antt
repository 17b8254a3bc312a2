-- ===== src/Raid5f/Alloc.antt =====
-- raid/raid5f.c: the memory of stripe requests and of io channels.
-- A pointer is counted as 1, or as 0 if it is null; an array of pointers by those of its entries that are not.
use flex_bso.Common.{
  ℕ, zero, suc, ◌-◌, Bool, true, false, if◌then◌else◌, ◌==◌, Option, none, some, List, [], ◌∷◌,
}
use flex_bso.Bdev.{Rc, ok, fail, enomem}
use flex_bso.Raid5f.{StripeRequestType, stripe_req_write, stripe_req_reconstruct}

-- The blocks that are allocated, how many were asked for so far, and the references to the channel of the
-- accel framework.
pub record Heap : Type 0 where
  pub live : ℕ
  pub asked : ℕ
  pub accel_refs : ℕ

-- What a stripe request owns.
pub record StripeMemory : Type 0 where
  pub kind : StripeRequestType
  pub iovs : ℕ
  pub parity_buf : ℕ
  pub parity_md_buf : ℕ
  pub chunk_buffers : ℕ
  pub chunk_buffers_used : ℕ
  pub chunk_md_buffers : ℕ
  pub chunk_md_buffers_used : ℕ
  pub chunk_iov_iters : ℕ
  pub chunk_xor_buffers : ℕ
  pub chunk_xor_md_buffers : ℕ

-- An allocation under way; after a failure (`goto err`) the later steps are skipped.
pub record Step : Type 0 where
  pub fine : Bool
  pub memory : StripeMemory
  pub heap : Heap

abbrev pub freed : ℕ → Heap → Heap
freed n h = record h { live = h.live - n }

-- The part of `raid5f_stripe_request_free` for one kind of request.
abbrev pub buffers_freed : StripeRequestType → StripeMemory → Heap → Heap
buffers_freed stripe_req_write m h = freed m.parity_md_buf (freed m.parity_buf h)
buffers_freed stripe_req_reconstruct m h =
    let data_freed =
      if m.chunk_buffers == 0 then h else freed m.chunk_buffers (freed m.chunk_buffers_used h) in
    if m.chunk_md_buffers == 0
    then data_freed
    else freed m.chunk_md_buffers (freed m.chunk_md_buffers_used data_freed)

unfoldable pub raid5f_stripe_request_free : StripeMemory → Heap → Heap
raid5f_stripe_request_free m h = freed 1 (
    freed m.chunk_iov_iters (
      freed m.chunk_xor_md_buffers
        (freed m.chunk_xor_buffers (buffers_freed m.kind m (freed m.iovs h)))))

-- `answers k` says whether the k-th allocation succeeds.
module _ (answers : ℕ → Bool) where
  -- One allocation.
  abbrev pub malloc : Heap → ℕ × Heap
  malloc h =
      if answers h.asked
      then (1, record h { live = suc h.live; asked = suc h.asked })
      else (0, record h { asked = suc h.asked })

  -- A loop of `n` allocations that stops at the first that fails: how many it made.
  unfoldable pub malloc_loop : ℕ → Heap → ℕ × Heap
  malloc_loop zero h = (0, h)
  malloc_loop (suc n) h =
      let p = malloc h in
      let rest = malloc_loop n p.1 in if p.0 == 0 then (0, p.1) else (suc rest.0, rest.1)

  -- A step of the allocation: `n` blocks, which `put` stores.
  abbrev pub step : ℕ → (ℕ → StripeMemory → StripeMemory) → Step → Step
  step n put s =
      let p = malloc_loop n s.heap in
      if s.fine then record { fine = p.0 == n; memory = put p.0 s.memory; heap = p.1 } else s

  abbrev pub no_memory : StripeRequestType → StripeMemory
  no_memory kind = record {
    kind = kind;
    iovs = 0;
    parity_buf = 0;
    parity_md_buf = 0;
    chunk_buffers = 0;
    chunk_buffers_used = 0;
    chunk_md_buffers = 0;
    chunk_md_buffers_used = 0;
    chunk_iov_iters = 0;
    chunk_xor_buffers = 0;
    chunk_xor_md_buffers = 0;
  }

  -- A step that is made only for bdevs with metadata.
  abbrev pub step_md : Bool → ℕ → (ℕ → StripeMemory → StripeMemory) → Step → Step
  step_md has_md n put s = if has_md then step n put s else s

  unfoldable pub parity_step : Bool → Step → Step
  unfolding malloc_loop
  parity_step has_md s =
      step_md has_md 1 (λ k m. record m { parity_md_buf = k })
        (step 1 (λ k m. record m { parity_buf = k }) s)

  unfoldable pub reconstruct_step : Bool → ℕ → Step → Step
  unfolding malloc_loop
  reconstruct_step has_md data_num s =
      step_md has_md data_num (λ k m. record m { chunk_md_buffers_used = k })
        (step_md has_md 1 (λ k m. record m { chunk_md_buffers = k })
          (step data_num (λ k m. record m { chunk_buffers_used = k })
            (step 1 (λ k m. record m { chunk_buffers = k }) s)))

  unfoldable pub kind_step : StripeRequestType → Bool → ℕ → Step → Step
  unfolding parity_step reconstruct_step
  kind_step stripe_req_write has_md data_num s = parity_step has_md s
  kind_step stripe_req_reconstruct has_md data_num s = reconstruct_step has_md data_num s

  unfoldable pub xor_step : Step → Step
  unfolding malloc_loop
  xor_step s =
      step 1 (λ k m. record m { chunk_xor_md_buffers = k })
        (step 1 (λ k m. record m { chunk_xor_buffers = k })
          (step 1 (λ k m. record m { chunk_iov_iters = k }) s))

  -- The end of the function: the request, or `err:`.
  abbrev pub alloc_end : Step → Option StripeMemory × Heap
  alloc_end s =
      if s.fine then (some s.memory, s.heap) else (none, raid5f_stripe_request_free s.memory s.heap)

  -- The part of `raid5f_stripe_request_alloc` after the request itself is allocated: `chunks` base bdevs,
  -- `data_num` of them for the data of a stripe.
  unfoldable pub alloc_rest : ℕ → ℕ → Bool → StripeRequestType → Heap → Option StripeMemory × Heap
  unfolding kind_step xor_step raid5f_stripe_request_free malloc_loop
  alloc_rest chunks data_num has_md kind h = alloc_end (
      xor_step (
        kind_step kind has_md data_num (
          step chunks (λ k m. record m { iovs = k })
            (record { fine = true; memory = no_memory kind; heap = h }))))

  unfoldable pub raid5f_stripe_request_alloc :
      ℕ → ℕ → Bool → StripeRequestType → Heap → Option StripeMemory × Heap
  unfolding alloc_rest
  raid5f_stripe_request_alloc chunks data_num has_md kind h =
      let p = malloc h in
      if p.0 == 0 then (none, p.1) else alloc_rest chunks data_num has_md kind p.1

-- `struct raid5f_io_channel`; the retry queue is empty while requests are allocated or freed.
pub record R5Channel : Type 0 where
  pub free_write : List StripeMemory
  pub free_reconstruct : List StripeMemory
  pub accel_ch : ℕ
  pub chunk_xor_buffers : ℕ
  pub chunk_xor_iovs : ℕ
  pub chunk_xor_iovcnt : ℕ

-- A loop of `raid5f_ioch_destroy` over one of the lists.
unfoldable pub free_requests : List StripeMemory → Heap → Heap
unfolding raid5f_stripe_request_free
free_requests [] h = h
free_requests (m ∷ ms) h = free_requests ms (raid5f_stripe_request_free m h)

unfoldable pub raid5f_ioch_destroy : R5Channel → Heap → Heap
unfolding free_requests
raid5f_ioch_destroy c h =
    let requests_freed = free_requests c.free_reconstruct (free_requests c.free_write h) in
    let put = record requests_freed { accel_refs = requests_freed.accel_refs - c.accel_ch } in
    freed c.chunk_xor_iovcnt (freed c.chunk_xor_iovs (freed c.chunk_xor_buffers put))

abbrev pub raid5f_max_stripes : ℕ
raid5f_max_stripes = 32

-- The creation of a channel under way; after a failure (`goto err`) the later steps are skipped.
pub record ChannelStep : Type 0 where
  pub going : Bool
  pub channel : R5Channel
  pub heap : Heap

-- The requests of one kind as they are put at the head of their list.
pub record Requests : Type 0 where
  pub complete : Bool
  pub requests : List StripeMemory
  pub heap : Heap

module _ (answers : ℕ → Bool) (accel_ok : Bool) (chunks data_num : ℕ) (has_md : Bool) where
  abbrev pub request_added : Option StripeMemory × Heap → List StripeMemory → Requests
  request_added (none, h) ms = record { complete = false; requests = ms; heap = h }
  request_added (some m, h) ms = record { complete = true; requests = m ∷ ms; heap = h }

  -- The loop that allocates `n` more requests of one kind.
  unfoldable pub alloc_requests : StripeRequestType → ℕ → List StripeMemory → Heap → Requests
  unfolding raid5f_stripe_request_alloc
  alloc_requests kind zero ms h = record { complete = true; requests = ms; heap = h }
  alloc_requests kind (suc n) ms h =
      let added =
        request_added (raid5f_stripe_request_alloc answers chunks data_num has_md kind h) ms in
      elim added.complete [ true ↦ alloc_requests kind n added.requests added.heap | false ↦ added ]

  -- The two loops that fill the lists with `n` requests.
  unfoldable pub write_requests_step : ℕ → ChannelStep → ChannelStep
  unfolding alloc_requests
  write_requests_step n s =
      let a = alloc_requests stripe_req_write n [] s.heap in
      if s.going
      then record {
        going = a.complete;
        channel = record s.channel { free_write = a.requests };
        heap = a.heap;
      }
      else s

  unfoldable pub reconstruct_requests_step : ℕ → ChannelStep → ChannelStep
  unfolding alloc_requests
  reconstruct_requests_step n s =
      let a = alloc_requests stripe_req_reconstruct n [] s.heap in
      if s.going
      then record {
        going = a.complete;
        channel = record s.channel { free_reconstruct = a.requests };
        heap = a.heap;
      }
      else s

  -- `spdk_accel_get_io_channel`
  unfoldable pub accel_step : ChannelStep → ChannelStep
  accel_step s =
      if s.going
      then if accel_ok
        then record {
          going = true;
          channel = record s.channel { accel_ch = 1 };
          heap = record s.heap { accel_refs = suc s.heap.accel_refs };
        }
        else record s { going = false }
      else s

  -- One of the three arrays of the channel.
  abbrev pub array_step : (ℕ → R5Channel → R5Channel) → ChannelStep → ChannelStep
  array_step put s =
      let p = malloc answers s.heap in
      if s.going then record { going = p.0 == 1; channel = put p.0 s.channel; heap = p.1 } else s

  abbrev pub no_channel : R5Channel
  no_channel = record {
    free_write = [];
    free_reconstruct = [];
    accel_ch = 0;
    chunk_xor_buffers = 0;
    chunk_xor_iovs = 0;
    chunk_xor_iovcnt = 0;
  }

  -- The end of the function: the channel, or `err:`.
  abbrev pub create_end : ChannelStep → Rc × R5Channel × Heap
  create_end s =
      if s.going
      then (ok, s.channel, s.heap)
      else (fail enomem, s.channel, raid5f_ioch_destroy s.channel s.heap)

  -- The body of `raid5f_ioch_create`, for `n` requests of each kind.
  unfoldable pub create_with : ℕ → Heap → Rc × R5Channel × Heap
  unfolding write_requests_step reconstruct_requests_step accel_step raid5f_ioch_destroy
  create_with n h = create_end (
      array_step (λ k c. record c { chunk_xor_iovcnt = k })
        (array_step (λ k c. record c { chunk_xor_iovs = k })
          (array_step (λ k c. record c { chunk_xor_buffers = k })
            (accel_step (
              reconstruct_requests_step n (
                write_requests_step n
                  (record { going = true; channel = no_channel; heap = h })))))))

  unfoldable pub raid5f_ioch_create : Heap → Rc × R5Channel × Heap
  unfolding create_with
  raid5f_ioch_create h = create_with raid5f_max_stripes h
