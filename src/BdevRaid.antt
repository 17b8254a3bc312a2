-- ===== src/BdevRaid.antt =====
-- raid/bdev_raid.c: the requests that the RAID bdev takes, and how they are handed to the RAID level.
pub mod Reset
mod Tests
use flex_bso.Common.{
  ℕ, ◌==◌, Bool, true, false, ◌&&◌, ◌||◌, not, if◌then◌else◌, Option, none, some, List, [], ◌∷◌,
  get_or,
}
use flex_bso.Bdev.{
  IoType, read, write, unmap, flush, reset, other, success, failed, Rc, BdevIo, Child,
}
use flex_bso.RaidBdev.{
  BaseInfo, RaidBdev, RaidBdevIo, RaidBdevIoChannel, RaidModule, raid_bdev_io_complete,
  complete_one,
}
use flex_bso.Fanout.{Slot, missing, child}
use flex_bso.Fanout.Handler.{serve}

unfoldable pub raid_base_bdev_reset_complete : RaidBdevIo → Bool → RaidBdevIo
unfolding complete_one
raid_base_bdev_reset_complete io done = complete_one io done

module _ (r : RaidBdev) (ch : RaidBdevIoChannel) where
  -- A reset has no range; `spdk_bdev_reset` takes the base bdev alone.
  abbrev pub reset_slot : ℕ → Slot
  reset_slot i =
      if get_or ch.base_channel i false
      then child (record { kind = reset; idx = i; lba = 0; blocks = 0; iovs = [] })
      else missing

  abbrev pub reset_begin : RaidBdevIo → RaidBdevIo
  reset_begin io =
      if io.base_bdev_io_remaining == 0
      then record io { base_bdev_io_remaining = r.num_base_bdevs }
      else io

  abbrev pub reset_give_up : RaidBdevIo → RaidBdevIo
  reset_give_up io = raid_bdev_io_complete io failed

  unfoldable pub raid_bdev_submit_reset_request : (Child → Rc) → RaidBdevIo → RaidBdevIo
  raid_bdev_submit_reset_request answer io =
      serve r.num_base_bdevs reset_slot reset_give_up reset_begin answer io

-- The handlers of a RAID level; the second one is NULL in a level that has no such requests.
pub record Handlers : Type 0 where
  pub submit_rw_request : (Child → Rc) → RaidBdevIo → RaidBdevIo
  pub submit_null_payload_request : Option ((Child → Rc) → RaidBdevIo → RaidBdevIo)

-- The buffer of a read is given, or not.
unfoldable pub raid_bdev_get_buf_cb : Handlers → Bool → (Child → Rc) → RaidBdevIo → RaidBdevIo
unfolding raid_bdev_io_complete
raid_bdev_get_buf_cb h true answer io = h.submit_rw_request answer io
raid_bdev_get_buf_cb h false answer io = raid_bdev_io_complete io failed

-- With no handler the code would call NULL; `raid_bdev_io_type_supported` keeps such requests away.
abbrev pub null_payload :
    Option ((Child → Rc) → RaidBdevIo → RaidBdevIo) → (Child → Rc) → RaidBdevIo → RaidBdevIo
null_payload none answer io = io
null_payload (some f) answer io = f answer io

module _ (r : RaidBdev) (ch : RaidBdevIoChannel) (h : Handlers) where
  abbrev pub submit_by_type : IoType → Bool → (Child → Rc) → RaidBdevIo → RaidBdevIo
  submit_by_type read buf answer io = raid_bdev_get_buf_cb h buf answer io
  submit_by_type write buf answer io = h.submit_rw_request answer io
  submit_by_type reset buf answer io = raid_bdev_submit_reset_request r ch answer io
  submit_by_type flush buf answer io = null_payload h.submit_null_payload_request answer io
  submit_by_type unmap buf answer io = null_payload h.submit_null_payload_request answer io
  submit_by_type other buf answer io = raid_bdev_io_complete io failed

  -- `buf` says whether `spdk_bdev_io_get_buf` finds a buffer for a read.
  unfoldable pub raid_bdev_submit_request : BdevIo → Bool → (Child → Rc) → RaidBdevIo → RaidBdevIo
  unfolding raid_bdev_get_buf_cb raid_bdev_submit_reset_request raid_bdev_io_complete
  raid_bdev_submit_request b buf answer io = submit_by_type b.io_type buf answer (record io {
    base_bdev_io_remaining = 0;
    base_bdev_io_submitted = 0;
    base_bdev_io_status = success;
  })

-- `supports d t` is the answer of `spdk_bdev_io_type_supported` for the bdev behind descriptor `d`.
module _ (supports : ℕ → IoType → Bool) where
  abbrev base_supports : Option ℕ → IoType → Bool
  base_supports none t = true
  base_supports (some d) t = supports d t

  abbrev pub all_support : List BaseInfo → IoType → Bool
  all_support [] t = true
  all_support (i ∷ is) t = base_supports i.desc t && all_support is t

  unfoldable pub raid_bdev_io_type_supported : RaidModule → RaidBdev → IoType → Bool
  raid_bdev_io_type_supported m r read = true
  raid_bdev_io_type_supported m r write = true
  raid_bdev_io_type_supported m r flush = m.has_null_payload && all_support r.base_bdev_info flush
  raid_bdev_io_type_supported m r reset = all_support r.base_bdev_info reset
  raid_bdev_io_type_supported m r unmap = m.has_null_payload && all_support r.base_bdev_info unmap
  raid_bdev_io_type_supported m r other = false
