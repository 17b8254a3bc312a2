-- ===== src/Raid5f/Requests.antt =====
-- raid/raid5f.c: reads and writes from `raid5f_submit_rw_request` on: which base bdev is read, and when a stripe
-- request is taken from the channel.
-- A free stripe request is only counted: all its fields are set when it is taken, but for the XOR's, of which
-- `R5Run` keeps those of the write's last one. A stripe request that is released at once is counted again.
use flex_bso.Common.{
  ℕ, zero, suc, ◌+◌, ◌/◌, ◌%◌, Bool, true, false, if◌then◌else◌, ◌==◌, Option, some, List, [], ◌∷◌,
  length, get_or, shl64, shl_int, sub64, shr, u8,
}
use flex_bso.Bdev.{
  IoType, read, write, failed, nomem, Rc, ok, fail, enomem, einval, Iovec, BdevIo, Child,
}
use flex_bso.RaidBdev.{
  RaidBdev, RaidBdevIo, RaidBdevIoChannel, base_info, raid_bdev_readv_blocks_ext,
  raid_bdev_io_complete, raid_bdev_queue_io_wait, accept,
}
use flex_bso.Raid5f.{
  Raid5fInfo, StripeRequestType, stripe_req_write, stripe_req_reconstruct, StripeRequest, StripeIo,
  ReadPlace, raid5f_stripe_parity_chunk_index, read_place, raid5f_stripe_request_submit_chunks,
  raid5f_stripe_write_request_xor_done,
}
use flex_bso.Raid5f.Iovecs.{raid5f_chunk_set_iovcnt, raid5f_stripe_request_map_iovecs}
use flex_bso.Raid5f.Xor.{XorState, xor_bytes, raid5f_xor_stripe}
use flex_bso.Raid5f.XorBalance.{xor_reused}

-- What is outside of a request: the answers of the base bdevs, of the accel framework, of `realloc` and of
-- `rand`, and the buffers that the stripe request that is taken has for its parity or its chunks.
pub record Surroundings : Type 0 where
  pub answer : Child → Rc
  pub xor_answer : Rc
  pub segment : ℕ → ℕ
  pub reallocated : Bool
  pub dice : ℕ → Bool
  pub parity_buf : ℕ
  pub chunk_buffers : List ℕ
  pub maxes : List ℕ

-- A request at work: how many stripe requests the channel has left, the request itself, and the stripe request
-- that it took with the XOR of its chunks.
pub record R5Run : Type 0 where
  pub free_write : ℕ
  pub free_reconstruct : ℕ
  pub io : RaidBdevIo
  pub stripe : Option StripeIo
  pub xor : XorState

-- `raid5f_stripe_request_init`
unfoldable pub raid5f_stripe_request_init : RaidBdev → StripeRequestType → ℕ → StripeRequest
raid5f_stripe_request_init r kind stripe_index = record {
  request_type = kind;
  poisoned = false;
  stripe_index = stripe_index;
  parity_chunk = raid5f_stripe_parity_chunk_index r stripe_index;
  chunk_iovs = [];
  reconstruct_chunk = 0;
  reconstruct_offset = 0;
}

-- The loop that gives each chunk its iovecs for a reconstruction, at chunk `i` with `left` to go: the caller's for
-- the chunk `missing`, a buffer of the stripe request for the others.
unfoldable pub reconstruct_iovs : RaidBdev → BdevIo → ℕ → ℕ → ℕ → List ℕ → List (List Iovec)
reconstruct_iovs r b missing zero i bufs = []
reconstruct_iovs r b missing (suc left) i bufs = elim (i == missing) [
  | true ↦ b.iovs ∷ reconstruct_iovs r b missing left (suc i) bufs
  | false ↦
      (record { iov_base = get_or bufs 0 0; iov_len = shl64 b.num_blocks r.blocklen_shift } ∷ [])
      ∷ reconstruct_iovs r b missing left (suc i) (take_one bufs)
]
  where
    take_one : List ℕ → List ℕ
    take_one [] = []
    take_one (x ∷ xs) = xs

module _ (r : RaidBdev) (ch : RaidBdevIoChannel) (b : BdevIo) (w : Surroundings) where
  abbrev pub started_stripe : StripeRequest → RaidBdevIo → StripeIo
  started_stripe q io = record {
    io = record io { base_bdev_io_remaining = r.num_base_bdevs };
    req = q;
    releases = 0;
    flips = [];
  }

  -- The request goes on in its stripe request.
  abbrev pub in_stripe : R5Run → StripeIo → R5Run
  in_stripe run s = record run { io = s.io; stripe = some s }

  -- The part of `raid5f_submit_reconstruct_read` with a free stripe request.
  unfoldable pub reconstruct_from : ℕ → ℕ → ℕ → ℕ → R5Run → Rc × R5Run
  unfolding raid5f_stripe_request_init reconstruct_iovs raid5f_stripe_request_submit_chunks
      raid5f_chunk_set_iovcnt
  reconstruct_from free stripe_index missing chunk_offset run =
      let q = record (raid5f_stripe_request_init r stripe_req_reconstruct stripe_index) {
        chunk_iovs = reconstruct_iovs r b missing r.num_base_bdevs 0 w.chunk_buffers;
        reconstruct_chunk = missing;
        reconstruct_offset = chunk_offset;
      } in
      let s =
        raid5f_stripe_request_submit_chunks r ch b w.answer w.dice (started_stripe q run.io) in
      elim (raid5f_chunk_set_iovcnt w.reallocated (get_or w.maxes missing 4) (length b.iovs)).0 [
        | ok ↦ (ok, in_stripe (record run { free_reconstruct = free + s.releases }) s)
        | fail e ↦ (fail e, run)
      ]

  unfoldable pub raid5f_submit_reconstruct_read : ℕ → ℕ → ℕ → R5Run → Rc × R5Run
  unfolding reconstruct_from
  raid5f_submit_reconstruct_read stripe_index missing chunk_offset run = elim run.free_reconstruct [
    | zero ↦ (fail enomem, run)
    | suc free ↦ reconstruct_from free stripe_index missing chunk_offset run
  ]

  -- `chunk_offset`, as `raid5f_submit_read_request` and `raid5f_chunk_read_complete` compute it.
  abbrev pub chunk_offset_of : ℕ → ℕ
  chunk_offset_of stripe_offset =
      sub64 stripe_offset (shl_int (u8 (shr stripe_offset r.strip_size_shift)) r.strip_size_shift)

  -- The read of the chunk itself has ended. The result of the reconstruction that follows is ignored.
  unfoldable pub raid5f_chunk_read_complete : Bool → ℕ → ℕ → R5Run → R5Run
  unfolding raid5f_submit_reconstruct_read raid_bdev_io_complete read_place
  raid5f_chunk_read_complete done stripe_index stripe_offset run =
      if done
      then (raid5f_submit_reconstruct_read stripe_index
          (read_place r stripe_index stripe_offset).base (chunk_offset_of stripe_offset) run).1
      else record run { io = raid_bdev_io_complete run.io failed }

  abbrev pub chunk_read_child : ReadPlace → Child
  chunk_read_child p =
      raid_bdev_readv_blocks_ext (base_info r p.base) p.base b.iovs p.base_offset_blocks
        b.num_blocks

  abbrev pub chunk_read_answered : ReadPlace → R5Run → Rc → Rc × R5Run
  chunk_read_answered p run ok = (ok, record run { io = accept run.io (chunk_read_child p) })
  chunk_read_answered p run (fail enomem) =
      (ok, record run { io = raid_bdev_queue_io_wait run.io p.base })
  chunk_read_answered p run (fail e) = (fail e, run)

  unfoldable pub raid5f_submit_read_request : ℕ → ℕ → R5Run → Rc × R5Run
  unfolding raid5f_submit_reconstruct_read read_place raid_bdev_queue_io_wait
  raid5f_submit_read_request stripe_index stripe_offset run =
      let p = read_place r stripe_index stripe_offset in
      if get_or ch.base_channel p.base false
      then chunk_read_answered p run (w.answer (chunk_read_child p))
      else raid5f_submit_reconstruct_read stripe_index p.base (chunk_offset_of stripe_offset) run

  -- The XOR, if it was refused at once, has called its callback.
  abbrev pub xor_called : List Rc → StripeIo → StripeIo
  xor_called [] s = s
  xor_called (status ∷ more) s =
      raid5f_stripe_write_request_xor_done r ch b status w.answer w.dice s

  -- The part of `raid5f_submit_write_request` after the iovecs are mapped.
  unfoldable pub write_from : ℕ → StripeRequest → R5Run → R5Run
  unfolding raid5f_xor_stripe xor_bytes raid5f_stripe_write_request_xor_done
  write_from free q run =
      let x =
        raid5f_xor_stripe w.segment (xor_bytes r b stripe_req_write) false 0 ok w.xor_answer
          (xor_reused run.xor.remaining_md) in
      let begun = started_stripe q run.io in
      let has_parity = get_or ch.base_channel q.parity_chunk false in
      let s =
        if has_parity
        then xor_called x.cb_calls begun
        else raid5f_stripe_write_request_xor_done r ch b ok w.answer w.dice begun in
      let xor = if has_parity then x else run.xor in
      in_stripe (record run { free_write = free + s.releases; xor = xor }) s

  unfoldable pub raid5f_submit_write_request : ℕ → R5Run → Rc × R5Run
  unfolding raid5f_stripe_request_init raid5f_stripe_request_map_iovecs write_from
  raid5f_submit_write_request stripe_index run =
      let q = raid5f_stripe_request_init r stripe_req_write stripe_index in
      let m =
        raid5f_stripe_request_map_iovecs r w.reallocated w.maxes w.parity_buf q.parity_chunk
          b.iovs in
      elim run.free_write [
        | zero ↦ (fail enomem, run)
        | suc free ↦ elim m.0 [
          | ok ↦ (ok, write_from free (record q { chunk_iovs = m.1 }) run)
          | fail e ↦ (fail e, run)
        ]
      ]

  -- The switch of `raid5f_submit_rw_request`.
  abbrev pub rw_by_type : IoType → ℕ → ℕ → R5Run → Rc × R5Run
  rw_by_type read stripe_index stripe_offset run =
      raid5f_submit_read_request stripe_index stripe_offset run
  rw_by_type write stripe_index stripe_offset run = raid5f_submit_write_request stripe_index run
  rw_by_type t stripe_index stripe_offset run = (fail einval, run)

  -- The end of `raid5f_submit_rw_request`.
  abbrev pub rw_ended : Rc × R5Run → R5Run
  rw_ended (ok, run) = run
  rw_ended (fail enomem, run) = record run { io = raid_bdev_io_complete run.io nomem }
  rw_ended (fail e, run) = record run { io = raid_bdev_io_complete run.io failed }

  unfoldable pub raid5f_submit_rw_request : Raid5fInfo → R5Run → R5Run
  unfolding raid5f_submit_read_request raid5f_submit_write_request raid_bdev_io_complete
  raid5f_submit_rw_request info run = rw_ended (
      rw_by_type b.io_type (b.offset_blocks / info.stripe_blocks)
        (b.offset_blocks % info.stripe_blocks) run)
