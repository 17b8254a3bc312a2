-- ===== src/Raid5f.antt =====
-- raid/raid5f.c: stripes of data chunks and one parity chunk, which moves round the base bdevs.
pub mod Chunks
pub mod Start
pub mod Read
pub mod Slots
pub mod Flips
pub mod Write
pub mod Iovecs
pub mod Cut
pub mod Fill
pub mod Mapped
pub mod Alloc
pub mod Memory
pub mod Allocated
pub mod Refused
pub mod Ended
pub mod Channel
pub mod Xor
pub mod XorBalance
pub mod XorLife
pub mod Requests
pub mod Dispatch
mod Examples
mod Tests
use flex_bso.Common.{
  ℕ, zero, suc, ◌+◌, ◌-◌, ◌*◌, ◌/◌, ◌%◌, Bool, true, false, ◌&&◌, not, ltb, ◌==◌, if◌then◌else◌,
  List, [], ◌∷◌, get_or, add64, sub64, mul64, mul32, shl64, shl_int, shr, u8, max,
}
use flex_bso.Bdev.{
  IoType, read, write, IoStatus, success, failed, nomem, Rc, ok, fail, Errno, enomem, einval, Iovec,
  BdevIo, Child, status_of,
}
use flex_bso.RaidBdev.{
  RaidBdev, RaidBdevIo, RaidBdevIoChannel, RaidModule, raid5f, constraint_max_base_bdevs_removed,
  base_info, min_data_size, set_data_size, u64_max, raid_bdev_readv_blocks_ext,
  raid_bdev_writev_blocks_ext, raid_bdev_io_complete, raid_bdev_io_complete_part,
  raid_bdev_queue_io_wait, accept,
}

-- `struct raid5f_info`
pub record Raid5fInfo : Type 0 where
  pub stripe_blocks : ℕ
  pub total_stripes : ℕ
  pub buf_alignment : ℕ

unfoldable pub raid5f_stripe_data_chunks_num : RaidBdev → ℕ
raid5f_stripe_data_chunks_num r = r.min_base_bdevs_operational

-- The difference is taken in `uint64_t` and kept in a `uint8_t`.
unfoldable pub raid5f_stripe_parity_chunk_index : RaidBdev → ℕ → ℕ
unfolding raid5f_stripe_data_chunks_num
raid5f_stripe_parity_chunk_index r stripe_index =
    u8 (sub64 (raid5f_stripe_data_chunks_num r) (stripe_index % r.num_base_bdevs))

-- `chunk_data_idx < p_idx ? chunk_data_idx : chunk_data_idx + 1`
unfoldable pub chunk_idx : RaidBdev → ℕ → ℕ → ℕ
chunk_idx r stripe_index chunk_data_idx =
    if ltb chunk_data_idx (raid5f_stripe_parity_chunk_index r stripe_index)
    then chunk_data_idx
    else u8 (chunk_data_idx + 1)

-- The greatest alignment that a base bdev asks for.
abbrev pub max_alignment : ℕ → List ℕ → ℕ
max_alignment a [] = a
max_alignment a (b ∷ bs) = max_alignment (max a b) bs

-- `allocated` says whether `calloc` succeeds; `aligns` are the answers of `spdk_bdev_get_buf_align`.
unfoldable pub raid5f_start : Bool → List ℕ → RaidBdev → Rc × RaidBdev × Raid5fInfo
unfolding min_data_size set_data_size
raid5f_start allocated aligns r =
    let min_blockcnt = min_data_size u64_max r.base_bdev_info in
    let stripes = min_blockcnt / r.strip_size in
    let stripe_blocks = mul32 r.strip_size (raid5f_stripe_data_chunks_num r) in
    if allocated
    then (
      ok,
      record r {
        base_bdev_info = set_data_size (mul64 stripes r.strip_size) r.base_bdev_info;
        bdev_blockcnt = mul64 stripe_blocks stripes;
        optimal_io_boundary = r.strip_size;
        split_on_optimal_io_boundary = true;
        write_unit_size = stripe_blocks;
        split_on_write_unit = true;
      },
      record {
        stripe_blocks = stripe_blocks;
        total_stripes = stripes;
        buf_alignment = max_alignment 0 aligns;
      },
    )
    else (fail enomem, r, record { stripe_blocks = 0; total_stripes = 0; buf_alignment = 0 })

-- `enum stripe_request_type`
pub data StripeRequestType : Type 0 where
  stripe_req_write stripe_req_reconstruct : StripeRequestType

-- `struct stripe_request`; the chunks are given by their iovecs.
pub record StripeRequest : Type 0 where
  pub request_type : StripeRequestType
  pub poisoned : Bool
  pub stripe_index : ℕ
  pub parity_chunk : ℕ
  pub chunk_iovs : List (List Iovec)
  pub reconstruct_chunk : ℕ
  pub reconstruct_offset : ℕ

-- A stripe request at work: its request, how often it was released to its channel, and the bytes of its chunks'
-- buffers (the caller's, or the parity buffer) in which `raid5f_chunk_submit` has flipped a bit.
pub record StripeIo : Type 0 where
  pub io : RaidBdevIo
  pub req : StripeRequest
  pub releases : ℕ
  pub flips : List ℕ

abbrev pub no_iovec : Iovec
no_iovec = record { iov_base = 0; iov_len = 0 }

abbrev pub iovs_of : StripeRequest → ℕ → List Iovec
iovs_of q i = get_or q.chunk_iovs i []

-- `raid5f_stripe_request_release`
abbrev pub released_if : Bool → ℕ → ℕ
released_if true n = suc n
released_if false n = n

-- A part is completed, and the stripe request released if it was the last one.
unfoldable pub complete_and_release : StripeIo → ℕ → IoStatus → StripeIo
unfolding raid_bdev_io_complete_part
complete_and_release s completed status =
    let p = raid_bdev_io_complete_part s.io completed status in
    record s { io = p.1; releases = released_if p.0 s.releases }

-- The child of a stripe write has ended.
unfoldable pub raid5f_stripe_request_chunk_write_complete : StripeIo → IoStatus → StripeIo
unfolding complete_and_release
raid5f_stripe_request_chunk_write_complete s status = complete_and_release s 1 status

module _ (r : RaidBdev) (ch : RaidBdevIoChannel) (b : BdevIo) where
  -- The chunk takes no child request: no channel to write to, or the chunk to be reconstructed.
  abbrev pub chunk_done : StripeRequest → ℕ → Bool
  chunk_done q i = elim q.request_type [
    | stripe_req_write ↦ not (get_or ch.base_channel i false)
    | stripe_req_reconstruct ↦ i == q.reconstruct_chunk
  ]

  abbrev pub chunk_child : StripeRequest → ℕ → Child
  chunk_child q i = elim q.request_type [
    | stripe_req_write ↦
        raid_bdev_writev_blocks_ext (base_info r i) i (iovs_of q i)
          (shl64 q.stripe_index r.strip_size_shift) r.strip_size
    | stripe_req_reconstruct ↦
        raid_bdev_readv_blocks_ext (base_info r i) i (iovs_of q i)
          (add64 (shl64 q.stripe_index r.strip_size_shift) q.reconstruct_offset) b.num_blocks
  ]

  -- The slots that a failed submission completes at once.
  abbrev pub slots_of : StripeRequestType → ℕ
  slots_of stripe_req_write = r.num_base_bdevs
  slots_of stripe_req_reconstruct = raid5f_stripe_data_chunks_num r

  -- `dice i` says whether `rand() % 1000 < 1` when chunk `i` is written.
  abbrev pub poison : (ℕ → Bool) → ℕ → StripeIo → StripeIo
  poison dice i s = elim s.req.request_type [
    | stripe_req_write ↦
        if not s.req.poisoned && dice i
        then record s {
          req = record s.req { poisoned = true };
          flips = (get_or (iovs_of s.req i) 0 no_iovec).iov_base ∷ s.flips;
        }
        else s
    | stripe_req_reconstruct ↦ s
  ]

  abbrev pub chunk_answered : ℕ → StripeIo → Child → Rc → Rc × StripeIo
  chunk_answered i s c ok = (ok, record s { io = accept s.io c })
  chunk_answered i s c (fail e) =
      let io = record s.io { base_bdev_io_submitted = u8 (s.io.base_bdev_io_submitted + 255) } in
      (
        fail e,
        elim e [
          | enomem ↦ record s { io = raid_bdev_queue_io_wait io i }
          | _ ↦
              complete_and_release (record s { io = io })
                (sub64 (slots_of s.req.request_type) io.base_bdev_io_submitted) failed
        ],
      )

  -- `raid5f_chunk_submit` of chunk `i`
  unfoldable pub raid5f_chunk_submit : (Child → Rc) → (ℕ → Bool) → ℕ → StripeIo → Rc × StripeIo
  unfolding raid_bdev_queue_io_wait complete_and_release
  raid5f_chunk_submit answer dice i s =
      let counted = record s.io { base_bdev_io_submitted = u8 (s.io.base_bdev_io_submitted + 1) } in
      if chunk_done s.req i
      then (ok, record s { io = (raid_bdev_io_complete_part counted 1 success).1 })
      else chunk_answered i (poison dice i (record s { io = counted })) (chunk_child s.req i)
          (answer (chunk_child s.req i))

  -- The loop of `raid5f_stripe_request_submit_chunks` at chunk `i`, with `left` chunks to go.
  unfoldable pub submit_chunks_from : (Child → Rc) → (ℕ → Bool) → ℕ → ℕ → StripeIo → StripeIo
  submit_chunks_from answer dice zero i s = s
  submit_chunks_from answer dice (suc left) i s =
      let p = raid5f_chunk_submit answer dice i s in
      elim p.0 [ ok ↦ submit_chunks_from answer dice left (suc i) p.1 | fail e ↦ p.1 ]

  unfoldable pub raid5f_stripe_request_submit_chunks :
      (Child → Rc) → (ℕ → Bool) → StripeIo → StripeIo
  unfolding submit_chunks_from
  raid5f_stripe_request_submit_chunks answer dice s =
      submit_chunks_from answer dice (r.num_base_bdevs - s.io.base_bdev_io_submitted)
        s.io.base_bdev_io_submitted s

  -- The parity is computed; `xor_status` is 0 as `ok`.
  unfoldable pub raid5f_stripe_write_request_xor_done :
      Rc → (Child → Rc) → (ℕ → Bool) → StripeIo → StripeIo
  unfolding raid5f_stripe_request_submit_chunks raid_bdev_io_complete
  raid5f_stripe_write_request_xor_done ok answer dice s =
      raid5f_stripe_request_submit_chunks answer dice s
  raid5f_stripe_write_request_xor_done (fail e) answer dice s = record s {
    io = raid_bdev_io_complete s.io failed;
    releases = suc s.releases;
  }

-- Where a read of one chunk goes: `chunk_idx` and `base_offset_blocks`. `chunk_data_idx` is shifted as an `int`.
pub record ReadPlace : Type 0 where
  pub base : ℕ
  pub base_offset_blocks : ℕ

unfoldable pub read_place : RaidBdev → ℕ → ℕ → ReadPlace
unfolding chunk_idx
read_place r stripe_index stripe_offset =
    let chunk_data_idx = u8 (shr stripe_offset r.strip_size_shift) in
    let chunk_offset = sub64 stripe_offset (shl_int chunk_data_idx r.strip_size_shift) in
    record {
      base = chunk_idx r stripe_index chunk_data_idx;
      base_offset_blocks = add64 (shl64 stripe_index r.strip_size_shift) chunk_offset;
    }

abbrev pub g_raid5f_module : RaidModule
g_raid5f_module = record {
  module_level = raid5f;
  base_bdevs_min = 3;
  constraint_type = constraint_max_base_bdevs_removed;
  constraint_value = 1;
  has_stop = true;
  has_null_payload = false;
  has_resize = false;
}
