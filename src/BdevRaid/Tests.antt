-- ===== src/BdevRaid/Tests.antt =====
-- Runs of raid/bdev_raid.c at concrete inputs.
use flex_bso.Common.{zero, suc, ◌≡◌, refl, true, false, some, none, [], ◌∷◌, arith, length, get_or}
use flex_bso.Bdev.{Rc, ok, fail, enomem, Child}
use flex_bso.RaidBdev.{
  BaseInfo, RaidBdev, RaidBdevIo, RaidBdevIoChannel, no_info, fresh_io, raid1, online, complete_one,
  raid_bdev_io_complete_part, raid_bdev_queue_io_wait,
}
use flex_bso.Fanout.{submit_slots}
use flex_bso.Fanout.Accounting.{Flight}
use flex_bso.Fanout.Life.{Life, start, retry, end, Outcome}
use flex_bso.Fanout.Sent.{sent_where}
use flex_bso.BdevRaid.Reset.{base_reset}
use flex_bso.BdevRaid.{raid_bdev_submit_reset_request}
use flex_bso.BdevRaid.Reset.{raid_bdev_reset-Outcome, raid_bdev_reset-success}

abbrev disk : BaseInfo
disk = record no_info { desc = some 1; data_offset = 16; data_size = 100; blockcnt = 116 }

abbrev mirrors : RaidBdev
mirrors = record {
  base_bdev_info = disk ∷ disk ∷ disk ∷ [];
  strip_size = 0;
  strip_size_kb = 0;
  strip_size_shift = 0;
  blocklen_shift = 9;
  state = online;
  num_base_bdevs = 3;
  num_base_bdevs_discovered = 3;
  min_base_bdevs_operational = 1;
  level = raid1;
  destroy_started = false;
  superblock_enabled = false;
  bdev_blockcnt = 0;
  bdev_blocklen = 512;
  optimal_io_boundary = 0;
  split_on_optimal_io_boundary = false;
  write_unit_size = 0;
  split_on_write_unit = false;
}

-- The second base bdev has no channel.
abbrev channel : RaidBdevIoChannel
channel = record { base_channel = true ∷ false ∷ true ∷ []; num_channels = 3 }

abbrev first_answer : Child → Rc
first_answer c = elim c.idx [ zero ↦ ok | suc _ ↦ fail enomem ]

abbrev all_ok : Child → Rc
all_ok c = ok

abbrev waiting : RaidBdevIo
waiting = raid_bdev_submit_reset_request mirrors channel first_answer fresh_io

abbrev retried : RaidBdevIo
retried = raid_bdev_submit_reset_request mirrors channel all_ok (record waiting { waitq = none })

abbrev all_ended : Flight
all_ended = record { io = complete_one (complete_one retried true) true; done = 2; bad = false }

reset_done : Life (raid_bdev_submit_reset_request mirrors channel) all_ended
unfolding raid_bdev_submit_reset_request submit_slots complete_one raid_bdev_io_complete_part
    raid_bdev_queue_io_wait
reset_done =
    end {f = record { io = complete_one retried true; done = 1; bad = false }}
      (end {f = record { io = retried; done = 0; bad = false }}
        (retry {f = record { io = waiting; done = 0; bad = false }} (start first_answer) 2 refl
          all_ok)
        (omega arith) true)
      (omega arith) true

raid_bdev_reset-Outcome_example : Outcome 3 all_ended
raid_bdev_reset-Outcome_example =
    raid_bdev_reset-Outcome mirrors channel (omega arith) (omega arith) reset_done

raid_bdev_reset-success_example :
    (all_ended.bad ≡ false)
    × (all_ended.done ≡ length all_ended.io.sent)
    × (all_ended.io.sent
        ≡ sent_where
            (λ i. get_or channel.base_channel i false)
            (base_reset mirrors channel (omega arith) (omega arith))
            3)
unfolding raid_bdev_submit_reset_request submit_slots complete_one raid_bdev_io_complete_part
    raid_bdev_queue_io_wait
raid_bdev_reset-success_example =
    raid_bdev_reset-success mirrors channel (omega arith) (omega arith) reset_done refl
