-- ===== src/Raid1.antt =====
-- raid/raid1.c: mirrored base bdevs. Writes go to every base bdev that has a channel, a read to the
-- one with the fewest outstanding blocks.
pub mod Mirror
pub mod ReadBalance
pub mod Reads
pub mod Counters
mod Tests
use flex_bso.Common.{
  ℕ, zero, suc, ◌+◌, ◌-◌, Bool, true, false, ◌&&◌, ltb, leb, ◌==◌, if◌then◌else◌, List, [], ◌∷◌,
  get_or, set, add64, sub64,
}
use flex_bso.Bdev.{
  IoType, read, write, IoStatus, failed, Rc, ok, fail, enomem, enodev, einval, BdevIo, Child,
}
use flex_bso.RaidBdev.{
  RaidBdev, RaidBdevIo, RaidBdevIoChannel, RaidModule, raid1, constraint_min_base_bdevs_operational,
  base_info, min_data_size, set_data_size, u64_max, raid_bdev_readv_blocks_ext,
  raid_bdev_writev_blocks_ext, raid_bdev_io_complete, raid_bdev_io_complete_part,
  raid_bdev_queue_io_wait, accept, complete_one,
}
use flex_bso.Fanout.{Slot, missing, child}
use flex_bso.Fanout.Handler.{serve}

-- `struct raid1_io_channel`: `read_blocks_outstanding`.
abbrev pub Raid1IoChannel : Type 0
Raid1IoChannel = List ℕ

unfoldable pub raid1_channel_inc_read_counters : Raid1IoChannel → ℕ → ℕ → Raid1IoChannel
raid1_channel_inc_read_counters r1 idx num_blocks = set r1 idx (add64 (get_or r1 idx 0) num_blocks)

unfoldable pub raid1_channel_dec_read_counters : Raid1IoChannel → ℕ → ℕ → Raid1IoChannel
raid1_channel_dec_read_counters r1 idx num_blocks = set r1 idx (sub64 (get_or r1 idx 0) num_blocks)

unfoldable pub raid1_bdev_io_completion : RaidBdevIo → Bool → RaidBdevIo
unfolding complete_one
raid1_bdev_io_completion io done = complete_one io done

unfoldable pub raid1_write_bdev_io_completion : RaidBdevIo → Bool → RaidBdevIo
unfolding raid1_bdev_io_completion
raid1_write_bdev_io_completion io done = raid1_bdev_io_completion io done

unfoldable pub raid1_read_bdev_io_completion :
    BdevIo → Raid1IoChannel → RaidBdevIo → Bool → RaidBdevIo × Raid1IoChannel
unfolding raid1_bdev_io_completion raid1_channel_dec_read_counters
raid1_read_bdev_io_completion b r1 io done = (
  raid1_bdev_io_completion io done,
  raid1_channel_dec_read_counters r1 io.base_bdev_io_submitted b.num_blocks,
)

-- The loop of `raid1_channel_next_read_base_bdev`, with the number of rounds left.
unfoldable pub next_read_from : RaidBdevIoChannel → Raid1IoChannel → ℕ → ℕ → ℕ → ℕ → ℕ
next_read_from ch r1 zero i read_blocks_min idx = idx
next_read_from ch r1 (suc k) i read_blocks_min idx =
    let hit = get_or ch.base_channel i false && ltb (get_or r1 i 0) read_blocks_min in
    next_read_from ch r1 k (i + 1) (if hit then get_or r1 i 0 else read_blocks_min)
      (if hit then i else idx)

-- UINT8_MAX stands for no base bdev.
unfoldable pub raid1_channel_next_read_base_bdev : RaidBdevIoChannel → Raid1IoChannel → ℕ
unfolding next_read_from
raid1_channel_next_read_base_bdev ch r1 = next_read_from ch r1 ch.num_channels 0 u64_max 255

-- What `raid1_submit_read_request` does with the answer to its child request.
unfoldable pub read_answered :
    Rc → ℕ → Child → BdevIo → RaidBdevIo → Raid1IoChannel → Rc × RaidBdevIo × Raid1IoChannel
unfolding raid1_channel_inc_read_counters raid_bdev_queue_io_wait
read_answered ok idx c b io r1 = (
  ok,
  record (accept io c) { base_bdev_io_submitted = idx },
  raid1_channel_inc_read_counters r1 idx b.num_blocks,
)
read_answered (fail enomem) idx c b io r1 = (ok, raid_bdev_queue_io_wait io idx, r1)
read_answered (fail e) idx c b io r1 = (fail e, io, r1)

module _ (r : RaidBdev) (ch : RaidBdevIoChannel) (b : BdevIo) where
  abbrev pub read_child : ℕ → Child
  read_child idx =
      raid_bdev_readv_blocks_ext (base_info r idx) idx b.iovs b.offset_blocks b.num_blocks

  unfoldable pub raid1_submit_read_request :
      (Child → Rc) → RaidBdevIo → Raid1IoChannel → Rc × RaidBdevIo × Raid1IoChannel
  unfolding raid1_channel_next_read_base_bdev read_answered raid_bdev_io_complete
  raid1_submit_read_request answer io r1 =
      let idx = raid1_channel_next_read_base_bdev ch r1 in
      if idx == 255
      then (ok, raid_bdev_io_complete io failed, r1)
      else read_answered (answer (read_child idx)) idx (read_child idx) b
          (record io { base_bdev_io_remaining = 1 }) r1

  -- The slots of the loop in `raid1_submit_write_request`.
  abbrev pub write_slot : ℕ → Slot
  write_slot idx =
      if get_or ch.base_channel idx false
      then child
          (raid_bdev_writev_blocks_ext (base_info r idx) idx b.iovs b.offset_blocks b.num_blocks)
      else missing

  abbrev pub write_begin : RaidBdevIo → RaidBdevIo
  write_begin io =
      if io.base_bdev_io_submitted == 0
      then record io { base_bdev_io_remaining = r.num_base_bdevs }
      else io

  abbrev pub write_give_up : RaidBdevIo → RaidBdevIo
  write_give_up io =
      (raid_bdev_io_complete_part io (sub64 r.num_base_bdevs io.base_bdev_io_submitted) failed).1

  -- The test behind the loop is reached only when the loop has run out of slots.
  unfoldable pub raid1_submit_write_request : (Child → Rc) → RaidBdevIo → Rc × RaidBdevIo
  raid1_submit_write_request answer io =
      let io' = serve r.num_base_bdevs write_slot write_give_up write_begin answer io in
      (
        if leb r.num_base_bdevs io'.base_bdev_io_submitted && io'.base_bdev_io_submitted == 0
            then fail enodev
            else ok,
        io',
      )

  abbrev pub finish_rw : Rc × RaidBdevIo × Raid1IoChannel → RaidBdevIo × Raid1IoChannel
  finish_rw (ok, io, r1) = (io, r1)
  finish_rw (fail e, io, r1) = (raid_bdev_io_complete io failed, r1)

  abbrev pub rw_request :
      IoType → (Child → Rc) → RaidBdevIo → Raid1IoChannel → Rc × RaidBdevIo × Raid1IoChannel
  rw_request read answer io r1 = raid1_submit_read_request answer io r1
  rw_request write answer io r1 =
      let (ret, io') = raid1_submit_write_request answer io in (ret, io', r1)
  rw_request t answer io r1 = (fail einval, io, r1)

  unfoldable pub raid1_submit_rw_request :
      (Child → Rc) → RaidBdevIo → Raid1IoChannel → RaidBdevIo × Raid1IoChannel
  unfolding raid_bdev_io_complete
  raid1_submit_rw_request answer io r1 = finish_rw (rw_request b.io_type answer io r1)

-- `allocated` says whether `calloc` gave the memory for `raid1_info`.
unfoldable pub raid1_start : Bool → RaidBdev → Rc × RaidBdev
unfolding min_data_size set_data_size
raid1_start allocated r =
    let min_blockcnt = min_data_size u64_max r.base_bdev_info in
    if allocated
    then (
      ok,
      record r {
        base_bdev_info = set_data_size min_blockcnt r.base_bdev_info;
        bdev_blockcnt = min_blockcnt;
      },
    )
    else (fail enomem, r)

abbrev pub g_raid1_module : RaidModule
g_raid1_module = record {
  module_level = raid1;
  base_bdevs_min = 2;
  constraint_type = constraint_min_base_bdevs_operational;
  constraint_value = 1;
  has_stop = true;
  has_null_payload = false;
  has_resize = false;
}
