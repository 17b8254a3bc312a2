-- ===== src/Fanout.antt =====
-- The loop by which a request is split over the base bdevs. The same loop stands in
-- `raid_bdev_submit_reset_request` (raid/bdev_raid.c), `raid0_submit_null_payload_request`
-- (raid/raid0.c) and `raid1_submit_write_request` (raid/raid1.c): it goes on at
-- `base_bdev_io_submitted`, skips the slots that have no channel, stops at -ENOMEM to be queued,
-- and gives up at any other error.
pub mod Accounting
pub mod Life
pub mod Handler
pub mod Sent
use flex_bso.Common.{ℕ, zero, suc, ◌+◌, ◌%◌, ◌^◌, u8}
use flex_bso.Bdev.{Rc, ok, fail, Errno, enomem, success, Child}
use flex_bso.RaidBdev.{RaidBdevIo, raid_bdev_io_complete_part, raid_bdev_queue_io_wait, accept}

-- What stands in a slot: no channel, or the child request to send there.
pub data Slot : Type 0 where
  missing : Slot
  child : Child → Slot

-- `raid_io->base_bdev_io_submitted++`, a `uint8_t`
abbrev pub count_slot : RaidBdevIo → RaidBdevIo
count_slot io = record io { base_bdev_io_submitted = u8 (io.base_bdev_io_submitted + 1) }

-- What the answer to a submission leads to: `next` goes on with the loop.
abbrev pub on_answer :
    (RaidBdevIo → RaidBdevIo) → (RaidBdevIo → RaidBdevIo) → RaidBdevIo → Child → Rc → RaidBdevIo
on_answer give_up next io c ok = next (count_slot (accept io c))
on_answer give_up next io c (fail enomem) = raid_bdev_queue_io_wait io c.idx
on_answer give_up next io c (fail e) = give_up io

module _ (slot : ℕ → Slot) (answer : Child → Rc) (give_up : RaidBdevIo → RaidBdevIo) where
  abbrev pub on_slot : (RaidBdevIo → RaidBdevIo) → RaidBdevIo → Slot → RaidBdevIo
  on_slot next io missing = next (raid_bdev_io_complete_part (count_slot io) 1 success).1
  on_slot next io (child c) = on_answer give_up next io c (answer c)

  -- The first argument counts the slots that are left.
  unfoldable pub submit_slots : ℕ → RaidBdevIo → RaidBdevIo
  submit_slots zero io = io
  submit_slots (suc k) io = on_slot (submit_slots k) io (slot io.base_bdev_io_submitted)
