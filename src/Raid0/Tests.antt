-- ===== src/Raid0/Tests.antt =====
-- Runs of raid/raid0.c at concrete inputs.
use flex_bso.Common.{
  ℕ, zero, suc, ◌+◌, ◌≤◌, ◌<◌, ◌≡◌, ◌↔◌, refl, true, false, some, none, [], ◌∷◌, arith, length, inl,
  inr,
}
use flex_bso.Bdev.{read, unmap, Rc, ok, fail, enomem, BdevIo, Child}
use flex_bso.RaidBdev.{
  rw_answered, BaseInfo, RaidBdev, RaidBdevIo, no_info, base_info, fresh_io, raid0, online,
  complete_one, min_data_size, set_data_size, raid_bdev_io_complete_part, raid_bdev_queue_io_wait,
  raid_bdev_unmap_blocks,
}
use flex_bso.Fanout.{submit_slots}
use flex_bso.Fanout.Accounting.{Flight}
use flex_bso.Fanout.Life.{Life, start, retry, end, Outcome}
use flex_bso.Raid0.{
  raid0_submit_rw_request, raid0_get_io_range, raid0_split_io_range, io_range,
  raid0_submit_null_payload_request, raid0_start,
}
use flex_bso.Raid0.Geometry.{IsLaidOut, IsRange, disk_of, block_at}
use flex_bso.Raid0.ReadWrite.{IsServable, IsExact, raid0_rw-IsExact}
use flex_bso.Raid0.Split.{disk_at, piece, IsIn, raid0_split-exact, raid0_split_complete}
use flex_bso.Fanout.Sent.{sent_where}
use flex_bso.Raid0.NullPayload.{
  disk_child, disks, null_handler, raid0_null-Outcome, raid0_null-success,
}
use flex_bso.RaidBdev.Sizes.{IsConfigured}
use flex_bso.Raid0.Start.{raid0_start-layout}

abbrev disk : BaseInfo
disk = record no_info { desc = some 1; data_offset = 16; data_size = 103; blockcnt = 119 }

-- Three base bdevs of unlike size, strips of four blocks.
abbrev configured : RaidBdev
configured = record {
  base_bdev_info = disk ∷ record disk { data_size = 22 } ∷ disk ∷ [];
  strip_size = 4;
  strip_size_kb = 2;
  strip_size_shift = 2;
  blocklen_shift = 9;
  state = online;
  num_base_bdevs = 3;
  num_base_bdevs_discovered = 3;
  min_base_bdevs_operational = 3;
  level = raid0;
  destroy_started = false;
  superblock_enabled = false;
  bdev_blockcnt = 0;
  bdev_blocklen = 512;
  optimal_io_boundary = 0;
  split_on_optimal_io_boundary = false;
  write_unit_size = 0;
  split_on_write_unit = false;
}

configured-room :
    (d : ℕ)
    → d < 3
    → (base_info configured d).data_offset + (base_info configured d).data_size ≤ 119
configured-room zero h = omega arith
configured-room (suc zero) h = omega arith
configured-room (suc (suc zero)) h = omega arith
configured-room (suc (suc (suc d))) h = absurd (omega arith)

configured-IsConfigured : IsConfigured configured
configured-IsConfigured = record {
  slots = refl;
  some_bdevs = omega arith;
  few_bdevs = omega arith;
  power = refl;
  word = omega arith;
  room = λ d h. omega (arith, configured-room d h);
  count_fits = λ d h. omega (arith, configured-room d h);
}

raid0_start-layout_example :
    (m : ℕ) × IsLaidOut (raid0_start configured) m
    × ((d : ℕ)
        → d < 3
        → (base_info (raid0_start configured) d).data_size ≤ (base_info configured d).data_size)
    × ((d : ℕ) × (d < 3)
        × ((base_info configured d).data_size
            < (base_info (raid0_start configured) d).data_size + 4))
raid0_start-layout_example = raid0_start-layout configured configured-IsConfigured

started_blocks : (raid0_start configured).bdev_blockcnt ≡ 60
unfolding raid0_start min_data_size set_data_size
started_blocks = refl

abbrev array : RaidBdev
array = raid0_start configured

abbrev read_io : BdevIo
read_io = record { io_type = read; offset_blocks = 29; num_blocks = 3; iovs = [] }

abbrev all_ok : Child → Rc
all_ok c = ok

read_io-IsServable : IsServable array read_io
unfolding raid0_start min_data_size set_data_size
read_io-IsServable = record {
  some_blocks = omega arith;
  in_array = omega arith;
  one_strip = inr refl;
}

raid0_rw-IsExact_example :
    (c : Child) × (raid0_submit_rw_request array read_io all_ok fresh_io
      ≡ rw_answered fresh_io c (all_ok c))
    × (c.kind ≡ read)
    × IsExact array read_io c
raid0_rw-IsExact_example =
    raid0_rw-IsExact array (raid0_start-layout configured configured-IsConfigured).0 read_io
      (raid0_start-layout configured configured-IsConfigured).1 read_io-IsServable (inl refl) all_ok
      fresh_io

-- Blocks 6 to 38 of the array.
abbrev unmap_io : BdevIo
unmap_io = record { io_type = unmap; offset_blocks = 6; num_blocks = 33; iovs = [] }

unmap-IsRange : IsRange 3 4 2 6 33
unmap-IsRange = record {
  some_bdevs = omega arith;
  few_bdevs = omega arith;
  power = refl;
  word = omega arith;
  some_blocks = omega arith;
  in_word = omega arith;
}

three_involved : 1 < (raid0_get_io_range 3 4 2 6 33).n_disks_involved
unfolding raid0_get_io_range
three_involved = omega arith

raid0_split-exact_example : IsIn 9 (piece (raid0_get_io_range 3 4 2 6 33) 3 1) ↔ (
    (6 ≤ block_at 3 4 (disk_at (raid0_get_io_range 3 4 2 6 33) 3 1) 9)
    × (block_at 3 4 (disk_at (raid0_get_io_range 3 4 2 6 33) 3 1) 9 < 6 + 33))
raid0_split-exact_example = raid0_split-exact 3 4 2 6 33 unmap-IsRange 1 three_involved 9

raid0_split_complete_example :
    (j : ℕ) × (j < (raid0_get_io_range 3 4 2 6 33).n_disks_involved)
    × (disk_at (raid0_get_io_range 3 4 2 6 33) 3 j ≡ disk_of 3 4 20)
    × ((i : ℕ)
        → i < (raid0_get_io_range 3 4 2 6 33).n_disks_involved
        → disk_at (raid0_get_io_range 3 4 2 6 33) 3 i ≡ disk_of 3 4 20
        → i ≡ j)
raid0_split_complete_example =
    raid0_split_complete 3 4 2 6 33 unmap-IsRange 20 (omega arith) (omega arith)

-- The first base bdev is out of memory at the first try.
abbrev first_answer : Child → Rc
first_answer c = elim c.idx [ zero ↦ fail enomem | suc _ ↦ ok ]

abbrev handler : (Child → Rc) → RaidBdevIo → RaidBdevIo
handler = null_handler configured unmap_io unmap-IsRange

abbrev waiting : RaidBdevIo
waiting = handler first_answer fresh_io

abbrev retried : RaidBdevIo
retried = handler all_ok (record waiting { waitq = none })

abbrev ended : RaidBdevIo → RaidBdevIo
ended io = complete_one io true

abbrev all_ended : Flight
all_ended = record { io = ended (ended (ended retried)); done = 3; bad = false }

unmapped : Life handler all_ended
unfolding raid0_submit_null_payload_request raid0_get_io_range raid0_split_io_range submit_slots
    complete_one raid_bdev_io_complete_part raid_bdev_queue_io_wait raid_bdev_unmap_blocks
unmapped =
    end {f = record { io = ended (ended retried); done = 2; bad = false }}
      (end {f = record { io = ended retried; done = 1; bad = false }}
        (end {f = record { io = retried; done = 0; bad = false }}
          (retry {f = record { io = waiting; done = 0; bad = false }} (start first_answer) 0 refl
            all_ok)
          (omega arith) true)
        (omega arith) true)
      (omega arith) true

raid0_null-Outcome_example : Outcome (io_range configured unmap_io).n_disks_involved all_ended
raid0_null-Outcome_example =
    raid0_null-Outcome configured unmap_io unmap-IsRange (inl refl) unmapped

raid0_null-success_example :
    (all_ended.bad ≡ false)
    × (all_ended.done ≡ length all_ended.io.sent)
    × (all_ended.io.sent
        ≡ sent_where
            (λ k. true)
            (disk_child configured unmap_io unmap-IsRange)
            (disks configured unmap_io unmap-IsRange))
unfolding raid0_submit_null_payload_request raid0_get_io_range raid0_split_io_range submit_slots
    complete_one raid_bdev_io_complete_part raid_bdev_queue_io_wait raid_bdev_unmap_blocks
raid0_null-success_example =
    raid0_null-success configured unmap_io unmap-IsRange (inl refl) unmapped refl
