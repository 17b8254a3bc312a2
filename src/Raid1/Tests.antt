-- ===== src/Raid1/Tests.antt =====
-- Runs of raid/raid1.c at concrete inputs.
use flex_bso.Common.{get_or, zero, suc, ◌≡◌, refl, true, false, some, none, [], ◌∷◌, arith, length}
use flex_bso.Bdev.{read, write, Rc, ok, fail, enomem, BdevIo, Child}
use flex_bso.RaidBdev.{
  BaseInfo, RaidBdev, RaidBdevIo, RaidBdevIoChannel, no_info, fresh_io, raid1, online, complete_one,
  raid_bdev_queue_io_wait, raid_bdev_io_complete_part, raid_bdev_writev_blocks_ext,
  raid_bdev_readv_blocks_ext,
}
use flex_bso.Fanout.Accounting.{Flight}
use flex_bso.Fanout.Life.{Life, start, retry, end, Outcome}
use flex_bso.Fanout.Sent.{sent_where}
use flex_bso.Fanout.{submit_slots}
use flex_bso.Raid1.{
  Raid1IoChannel, raid1_submit_read_request, read_answered, raid1_read_bdev_io_completion,
  raid1_submit_write_request, raid1_channel_inc_read_counters, raid1_channel_dec_read_counters,
  raid1_submit_rw_request, raid1_channel_next_read_base_bdev,
}
use flex_bso.Raid1.Mirror.{mirrored_write, write_handler, raid1_write-Outcome, raid1_write-success}
use flex_bso.Raid1.ReadBalance.{Choice, next_read-Choice}
use flex_bso.Raid1.Reads.{Reads, idle, submitted, retried, ended, Balanced}
use flex_bso.Raid1.Counters.{Reads-Balanced}

abbrev disk : BaseInfo
disk = record no_info { desc = some 1; data_offset = 16; data_size = 100; blockcnt = 116 }

-- Three mirrors, the second one without a channel.
abbrev mirrors : RaidBdev
mirrors = record {
  base_bdev_info = disk ∷ disk ∷ record disk { data_size = 90 } ∷ [];
  strip_size = 0;
  strip_size_kb = 0;
  strip_size_shift = 0;
  blocklen_shift = 9;
  state = online;
  num_base_bdevs = 3;
  num_base_bdevs_discovered = 3;
  min_base_bdevs_operational = 1;
  level = raid1;
  destroy_started = false;
  superblock_enabled = false;
  bdev_blockcnt = 0;
  bdev_blocklen = 512;
  optimal_io_boundary = 0;
  split_on_optimal_io_boundary = false;
  write_unit_size = 0;
  split_on_write_unit = false;
}

abbrev channel : RaidBdevIoChannel
channel = record { base_channel = true ∷ false ∷ true ∷ []; num_channels = 3 }

abbrev write_io : BdevIo
write_io = record { io_type = write; offset_blocks = 4; num_blocks = 8; iovs = [] }

-- The third base bdev is out of memory at the first try.
abbrev first_answer : Child → Rc
first_answer c = elim c.idx [ zero ↦ ok | suc _ ↦ fail enomem ]

abbrev all_ok : Child → Rc
all_ok c = ok

abbrev handler : (Child → Rc) → RaidBdevIo → RaidBdevIo
handler = write_handler mirrors channel write_io [] (omega arith) (omega arith)

abbrev waiting : RaidBdevIo
waiting = handler first_answer fresh_io

abbrev retried_io : RaidBdevIo
retried_io = handler all_ok (record waiting { waitq = none })

waiting_lem : waiting.waitq ≡ some 2
unfolding complete_one raid1_submit_rw_request raid1_submit_write_request submit_slots
    raid_bdev_queue_io_wait raid_bdev_io_complete_part raid_bdev_writev_blocks_ext
waiting_lem = refl

abbrev in_flight : Flight
in_flight = record { io = retried_io; done = 0; bad = false }

-- After the retry both children end well.
both_sent : length retried_io.sent ≡ 2
unfolding complete_one raid1_submit_rw_request raid1_submit_write_request submit_slots
    raid_bdev_queue_io_wait raid_bdev_io_complete_part raid_bdev_writev_blocks_ext
both_sent = refl

abbrev one_ended : Flight
one_ended = record { io = complete_one retried_io true; done = 1; bad = false }

abbrev all_ended : Flight
all_ended = record { io = complete_one (complete_one retried_io true) true; done = 2; bad = false }

mirrored : Life handler all_ended
unfolding complete_one raid1_submit_rw_request raid1_submit_write_request submit_slots
    raid_bdev_queue_io_wait raid_bdev_io_complete_part raid_bdev_writev_blocks_ext
mirrored =
    end {f = one_ended}
      (end {f = in_flight} (retry (start first_answer) 2 refl all_ok) (omega arith) true)
      (omega arith) true

raid1_write-Outcome_example : Outcome 3 all_ended
raid1_write-Outcome_example =
    raid1_write-Outcome mirrors channel write_io [] (omega arith) (omega arith) refl mirrored

raid1_write-success_example :
    (all_ended.bad ≡ false)
    × (all_ended.done ≡ length all_ended.io.sent)
    × (all_ended.io.sent
        ≡ sent_where
            (λ i. get_or channel.base_channel i false)
            (mirrored_write mirrors channel write_io [] (omega arith) (omega arith))
            3)
unfolding complete_one raid1_submit_rw_request raid1_submit_write_request submit_slots
    raid_bdev_queue_io_wait raid_bdev_io_complete_part raid_bdev_writev_blocks_ext
raid1_write-success_example =
    raid1_write-success mirrors channel write_io [] (omega arith) (omega arith) refl mirrored refl

next_read-Choice_example :
    Choice channel (5 ∷ 0 ∷ 3 ∷ []) 3 (raid1_channel_next_read_base_bdev channel (5 ∷ 0 ∷ 3 ∷ []))
next_read-Choice_example = next_read-Choice channel (5 ∷ 0 ∷ 3 ∷ [])

picks_third : raid1_channel_next_read_base_bdev channel (5 ∷ 0 ∷ 3 ∷ []) ≡ 2
unfolding raid1_channel_next_read_base_bdev
picks_third = refl

abbrev small_read : BdevIo
small_read = record { io_type = read; offset_blocks = 4; num_blocks = 8; iovs = [] }

abbrev first_read : RaidBdevIo × Raid1IoChannel
first_read = raid1_submit_rw_request mirrors channel small_read all_ok fresh_io (0 ∷ 0 ∷ 0 ∷ [])

-- The second read goes to the third base bdev, which is out of memory at first.
abbrev second_read : RaidBdevIo × Raid1IoChannel
second_read = raid1_submit_rw_request mirrors channel small_read first_answer fresh_io first_read.1

abbrev second_again : RaidBdevIo × Raid1IoChannel
second_again =
    raid1_submit_rw_request mirrors channel small_read all_ok
      (record second_read.0 { waitq = none }) second_read.1

abbrev first_ended : Raid1IoChannel
first_ended = (raid1_read_bdev_io_completion small_read second_again.1 first_read.0 true).1

third_counted : first_ended ≡ 0 ∷ 0 ∷ 8 ∷ []
unfolding raid1_submit_rw_request raid1_submit_read_request raid1_channel_next_read_base_bdev
    read_answered raid1_channel_inc_read_counters raid1_read_bdev_io_completion
    raid1_channel_dec_read_counters raid_bdev_queue_io_wait raid_bdev_readv_blocks_ext
third_counted = refl

two_reads : Reads mirrors channel first_ended ((small_read, second_again.0) ∷ [])
unfolding raid1_submit_rw_request raid1_submit_read_request raid1_channel_next_read_base_bdev
    read_answered raid1_channel_inc_read_counters raid1_read_bdev_io_completion
    raid1_channel_dec_read_counters raid_bdev_queue_io_wait raid_bdev_readv_blocks_ext
two_reads =
    ended
      (retried
        (submitted (submitted idle small_read all_ok refl (omega arith)) small_read first_answer
          refl (omega arith))
        [] ((small_read, first_read.0) ∷ []) small_read second_read.0 refl 2 refl all_ok
        (omega arith))
      ((small_read, second_again.0) ∷ []) [] small_read first_read.0 refl (omega arith) true

Reads-Balanced_example : Balanced 3 first_ended ((small_read, second_again.0) ∷ [])
Reads-Balanced_example = Reads-Balanced mirrors channel two_reads
