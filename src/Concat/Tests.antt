-- ===== src/Concat/Tests.antt =====
-- Runs of raid/concat.c at concrete inputs.
use flex_bso.Common.{
  ℕ, zero, suc, ◌+◌, ◌-◌, ◌≤◌, ◌<◌, ◌≡◌, ◌↔◌, refl, true, false, some, none, List, [], ◌∷◌, arith,
  length, inl, map,
}
use flex_bso.Bdev.{read, unmap, Rc, ok, fail, enomem, BdevIo, Child}
use flex_bso.RaidBdev.{
  BaseInfo, RaidBdev, RaidBdevIo, no_info, base_info, fresh_io, rw_answered, concat, online,
  complete_one, raid_bdev_io_complete_part, raid_bdev_queue_io_wait, raid_bdev_unmap_blocks,
}
use flex_bso.Fanout.Accounting.{Flight}
use flex_bso.Fanout.Life.{Life, start, retry, end, Outcome}
use flex_bso.Concat.{
  ConcatBlockRange, range_at, whole_range, find_bounds, null_loop, concat_submit_rw_request,
  concat_submit_null_payload_request, lay_out, concat_start,
}
use flex_bso.Concat.Layout.{IsConcat, first, behind}
use flex_bso.Concat.Start.{CanStart, concat_start-layout}
use flex_bso.Concat.ReadWrite.{IsServable, IsExact, concat_rw-IsExact}
use flex_bso.Concat.Pieces.{IsIn, concat_pieces-exact}
use flex_bso.Fanout.Sent.{sent_where}
use flex_bso.Concat.NullPayload.{piece_child, AreBounds, concat_null-Outcome, concat_null-success}

abbrev disk : BaseInfo
disk = record no_info { desc = some 1; data_offset = 16; data_size = 22; blockcnt = 119 }

abbrev with_middle : ℕ → RaidBdev
with_middle size = record {
  base_bdev_info = disk ∷ record disk { data_size = size } ∷ record disk { data_size = 40 } ∷ [];
  strip_size = 4;
  strip_size_kb = 2;
  strip_size_shift = 2;
  blocklen_shift = 9;
  state = online;
  num_base_bdevs = 3;
  num_base_bdevs_discovered = 3;
  min_base_bdevs_operational = 3;
  level = concat;
  destroy_started = false;
  superblock_enabled = false;
  bdev_blockcnt = 0;
  bdev_blocklen = 512;
  optimal_io_boundary = 0;
  split_on_optimal_io_boundary = false;
  write_unit_size = 0;
  split_on_write_unit = false;
}

-- Three base bdevs of unlike size, strips of four blocks.
abbrev configured : RaidBdev
configured = with_middle 11

configured-room :
    (d : ℕ)
    → d < 3
    → (base_info configured d).data_offset + (base_info configured d).data_size ≤ 119
configured-room zero h = omega arith
configured-room (suc zero) h = omega arith
configured-room (suc (suc zero)) h = omega arith
configured-room (suc (suc (suc d))) h = absurd (omega arith)

configured-CanStart : CanStart configured
configured-CanStart = record {
  slots = refl;
  some_bdevs = omega arith;
  few_bdevs = omega arith;
  power = refl;
  total_fits = omega arith;
  room = λ d h. omega (arith, configured-room d h);
}

concat_start-layout_example :
    ((concat_start true configured).0 ≡ ok)
    × IsConcat (concat_start true configured).1 (concat_start true configured).2
    × ((i : ℕ)
        → i < 3
        → ((range_at configured (concat_start true configured).2 i).range_length
            ≤ (base_info configured i).data_size)
          × ((base_info configured i).data_size
              < (range_at configured (concat_start true configured).2 i).range_length + 4))
concat_start-layout_example = concat_start-layout configured configured-CanStart

abbrev array : RaidBdev
array = (concat_start true configured).1

abbrev ranges : List ConcatBlockRange
ranges = (concat_start true configured).2

started_ranges : map (λ g. g.range_start) ranges ≡ 0 ∷ 20 ∷ 28 ∷ []
unfolding concat_start lay_out
started_ranges = refl

array-IsConcat : IsConcat array ranges
array-IsConcat = (concat_start-layout configured configured-CanStart).1

abbrev all_ok : Child → Rc
all_ok c = ok

abbrev read_io : BdevIo
read_io = record { io_type = read; offset_blocks = 25; num_blocks = 3; iovs = [] }

read_io-IsServable : IsServable array read_io
unfolding concat_start lay_out
read_io-IsServable = record { some_blocks = omega arith; in_array = omega arith; one_strip = refl }

concat_rw-IsExact_example :
    (d : Child) × (concat_submit_rw_request array ranges read_io all_ok fresh_io
      ≡ rw_answered fresh_io d (all_ok d))
    × (d.kind ≡ read)
    × IsExact array ranges read_io d
concat_rw-IsExact_example =
    concat_rw-IsExact array ranges array-IsConcat read_io read_io-IsServable (inl refl) all_ok
      fresh_io

-- Blocks 6 to 35 of the array.
abbrev unmap_io : BdevIo
unmap_io = record { io_type = unmap; offset_blocks = 6; num_blocks = 30; iovs = [] }

unmap_in_array : 36 ≤ array.bdev_blockcnt
unfolding concat_start lay_out
unmap_in_array = omega arith

concat_pieces-exact_example :
    (s : ℕ) × (t : ℕ) × (find_bounds array ranges array.num_base_bdevs 0 (whole_range unmap_io) none
      ≡ record { start_idx = some s; stop_idx = some t })
    × ((j : ℕ)
        → s + j ≤ t
        → (l : ℕ)
        → IsIn array ranges unmap_io s j l ↔ (
            (l < (range_at array ranges (s + j)).range_length)
            × (6 ≤ first array ranges (s + j) + l)
            × (first array ranges (s + j) + l < 36)))
    × ((y : ℕ)
        → 6 ≤ y
        → y < 36
        → (i : ℕ) × (s ≤ i) × (i ≤ t) × (first array ranges i ≤ y) × (y < behind array ranges i))
concat_pieces-exact_example =
    concat_pieces-exact array ranges array-IsConcat unmap_io (omega arith) unmap_in_array
      (omega arith)

-- The first base bdev is out of memory at the first try.
abbrev first_answer : Child → Rc
first_answer c = elim c.idx [ zero ↦ fail enomem | suc _ ↦ ok ]

abbrev handler : (Child → Rc) → RaidBdevIo → RaidBdevIo
handler = concat_submit_null_payload_request array ranges unmap_io

abbrev waiting : RaidBdevIo
waiting = handler first_answer fresh_io

abbrev retried : RaidBdevIo
retried = handler all_ok (record waiting { waitq = none })

abbrev ended : RaidBdevIo → RaidBdevIo
ended io = complete_one io true

abbrev all_ended : Flight
all_ended = record { io = ended (ended (ended retried)); done = 3; bad = false }

unmapped : Life handler all_ended
unfolding concat_submit_null_payload_request find_bounds null_loop concat_start lay_out complete_one
    raid_bdev_io_complete_part raid_bdev_queue_io_wait raid_bdev_unmap_blocks
unmapped =
    end {f = record { io = ended (ended retried); done = 2; bad = false }}
      (end {f = record { io = ended retried; done = 1; bad = false }}
        (end {f = record { io = retried; done = 0; bad = false }}
          (retry {f = record { io = waiting; done = 0; bad = false }} (start first_answer) 0 refl
            all_ok)
          (omega arith) true)
        (omega arith) true)
      (omega arith) true

concat_null-Outcome_example :
    (s : ℕ) × (t : ℕ) × AreBounds array ranges array-IsConcat unmap_io
      (omega arith)
      unmap_in_array
      (inl refl)
      s
      t
    × Outcome (t - s + 1) all_ended
concat_null-Outcome_example =
    concat_null-Outcome array ranges array-IsConcat unmap_io (omega arith) unmap_in_array (inl refl)
      unmapped

concat_null-success_example :
    (s : ℕ) × (t : ℕ) × AreBounds array ranges array-IsConcat unmap_io
      (omega arith)
      unmap_in_array
      (inl refl)
      s
      t
    × (all_ended.bad ≡ false)
    × (all_ended.done ≡ length all_ended.io.sent)
    × (all_ended.io.sent
        ≡ sent_where
            (λ j. true)
            (piece_child array ranges array-IsConcat unmap_io
              (omega arith)
              unmap_in_array
              (inl refl)
              s)
            (t - s + 1))
unfolding concat_submit_null_payload_request find_bounds null_loop concat_start lay_out complete_one
    raid_bdev_io_complete_part raid_bdev_queue_io_wait raid_bdev_unmap_blocks
concat_null-success_example =
    concat_null-success array ranges array-IsConcat unmap_io (omega arith) unmap_in_array (inl refl)
      unmapped refl

-- A base bdev smaller than a strip has an empty range; if it stands between two others, an unmap across
-- it sends it a request of no blocks.
empty_range :
    map
      (λ c. c.blocks)
      (concat_submit_null_payload_request
        (concat_start true (with_middle 3)).1
        (concat_start true (with_middle 3)).2
        (record { io_type = unmap; offset_blocks = 18; num_blocks = 4; iovs = [] })
        all_ok
        fresh_io).sent
    ≡ 2 ∷ 0 ∷ 2 ∷ []
unfolding concat_submit_null_payload_request find_bounds null_loop concat_start lay_out
    raid_bdev_unmap_blocks
empty_range = refl
