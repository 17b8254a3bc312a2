-- ===== src/Raid5f/Tests.antt =====
-- Runs of raid/raid5f.c at concrete inputs.
use flex_bso.Common.{
  ℕ, zero, suc, ◌+◌, ◌/◌, ◌%◌, ◌≤◌, ◌<◌, ◌≡◌, ◌≢◌, ◌⊎◌, refl, Bool, true, false, some, none, List,
  [], ◌∷◌, arith, length, ◌==◌, ◌^◌,
}
use flex_bso.Bdev.{read, write, success, Rc, ok, fail, enomem, eio, BdevIo, Child}
use flex_bso.RaidBdev.{
  BaseInfo, RaidBdev, RaidBdevIoChannel, no_info, base_info, fresh_io, raid5f, online,
  min_data_size, raid_bdev_io_complete_part, raid_bdev_queue_io_wait, raid_bdev_writev_blocks_ext,
  raid_bdev_readv_blocks_ext,
}
use flex_bso.RaidBdev.Sizes.{IsConfigured}
use flex_bso.Fanout.Life.{Outcome, sent_below}
use flex_bso.Raid5f.{
  StripeRequest, stripe_req_write, stripe_req_reconstruct, StripeIo, raid5f_stripe_data_chunks_num,
  raid5f_stripe_parity_chunk_index, chunk_idx, read_place, raid5f_start, raid5f_chunk_submit,
  submit_chunks_from, raid5f_stripe_request_submit_chunks, raid5f_stripe_write_request_xor_done,
  complete_and_release, raid5f_stripe_request_chunk_write_complete,
}
use flex_bso.Raid5f.Chunks.{IsStriped, chunk_idx-bijective}
use flex_bso.Raid5f.Start.{IsStripes, raid5f_start-layout}
use flex_bso.Raid5f.Read.{IsPlace, read_place-IsPlace}
use flex_bso.Raid5f.Slots.{write_slot}
use flex_bso.Raid5f.Flips.{
  first_byte, StripeLife, computed, retried, ended, stripe_begun, raid5f_write-flips,
}
use flex_bso.Raid5f.Write.{raid5f_write-Outcome, raid5f_write-success}

abbrev disk : BaseInfo
disk = record no_info { desc = some 1; data_offset = 16; data_size = 103; blockcnt = 119 }

-- Three base bdevs of unlike size, strips of four blocks.
abbrev pub configured : RaidBdev
configured = record {
  base_bdev_info = disk ∷ record disk { data_size = 22 } ∷ disk ∷ [];
  strip_size = 4;
  strip_size_kb = 2;
  strip_size_shift = 2;
  blocklen_shift = 9;
  state = online;
  num_base_bdevs = 3;
  num_base_bdevs_discovered = 3;
  min_base_bdevs_operational = 2;
  level = raid5f;
  destroy_started = false;
  superblock_enabled = false;
  bdev_blockcnt = 0;
  bdev_blocklen = 512;
  optimal_io_boundary = 0;
  split_on_optimal_io_boundary = false;
  write_unit_size = 0;
  split_on_write_unit = false;
}

configured-IsStriped : IsStriped configured
configured-IsStriped = record {
  some_bdevs = omega arith;
  few_bdevs = omega arith;
  one_parity = refl;
}

chunk_idx-bijective_example :
    ((i : ℕ)
      → i < raid5f_stripe_data_chunks_num configured
      → (chunk_idx configured 4 i < 3)
        × (chunk_idx configured 4 i ≢ raid5f_stripe_parity_chunk_index configured 4))
    × ((i j : ℕ)
        → i < raid5f_stripe_data_chunks_num configured
        → j < raid5f_stripe_data_chunks_num configured
        → chunk_idx configured 4 i ≡ chunk_idx configured 4 j
        → i ≡ j)
    × ((d : ℕ)
        → d < 3
        → d ≢ raid5f_stripe_parity_chunk_index configured 4
        → (i : ℕ) × (i < raid5f_stripe_data_chunks_num configured) × (chunk_idx configured 4 i ≡ d))
chunk_idx-bijective_example = chunk_idx-bijective configured configured-IsStriped 4

configured-room :
    (d : ℕ)
    → d < 3
    → (base_info configured d).data_offset + (base_info configured d).data_size ≤ 119
configured-room zero h = omega arith
configured-room (suc zero) h = omega arith
configured-room (suc (suc zero)) h = omega arith
configured-room (suc (suc (suc d))) h = absurd (omega arith)

configured-IsConfigured : IsConfigured configured
configured-IsConfigured = record {
  slots = refl;
  some_bdevs = omega arith;
  few_bdevs = omega arith;
  power = refl;
  word = omega arith;
  room = λ d h. omega (arith, configured-room d h);
  count_fits = λ d h. omega (arith, configured-room d h);
}

abbrev aligns : List ℕ
aligns = 1 ∷ 4096 ∷ 512 ∷ []

raid5f_start-layout_example :
    ((raid5f_start true aligns configured).0 ≡ ok)
    × IsStripes
        (raid5f_start true aligns configured).1
        (raid5f_start true aligns configured).2
        (min_data_size 18446744073709551615 configured.base_bdev_info / 4)
    × ((d : ℕ)
        → d < 3
        → (base_info (raid5f_start true aligns configured).1 d).data_size
          ≤ (base_info configured d).data_size)
raid5f_start-layout_example =
    raid5f_start-layout configured aligns configured-IsConfigured configured-IsStriped (omega arith)

abbrev array : RaidBdev
array = (raid5f_start true aligns configured).1

array_stripes :
    IsStripes array
      (raid5f_start true aligns configured).2
      (min_data_size 18446744073709551615 configured.base_bdev_info / 4)
array_stripes =
    (raid5f_start-layout configured aligns configured-IsConfigured configured-IsStriped
      (omega arith)).1

block_inside : 21 < array.bdev_blockcnt
unfolding raid5f_start min_data_size raid5f_stripe_data_chunks_num
block_inside = omega arith

stripe_small : (raid5f_start true aligns configured).2.stripe_blocks ≤ 2 ^ 31
unfolding raid5f_start raid5f_stripe_data_chunks_num
stripe_small = omega arith

read_place-IsPlace_example :
    IsPlace array
      (raid5f_start true aligns configured).2
      (min_data_size 18446744073709551615 configured.base_bdev_info / 4)
      array_stripes
      21
      block_inside
      stripe_small
      (read_place array
        (21 / (raid5f_start true aligns configured).2.stripe_blocks)
        (21 % (raid5f_start true aligns configured).2.stripe_blocks))
read_place-IsPlace_example =
    read_place-IsPlace array (raid5f_start true aligns configured).2
      (min_data_size 18446744073709551615 configured.base_bdev_info / 4) array_stripes 21
      block_inside stripe_small

-- All base bdevs but the second have a channel.
abbrev pub channel : RaidBdevIoChannel
channel = record { base_channel = true ∷ false ∷ true ∷ []; num_channels = 3 }

abbrev write_io : BdevIo
write_io = record { io_type = write; offset_blocks = 8; num_blocks = 8; iovs = [] }

abbrev stripe : StripeRequest
stripe = record {
  request_type = stripe_req_write;
  poisoned = false;
  stripe_index = 1;
  parity_chunk = 1;
  chunk_iovs =
      (record { iov_base = 100; iov_len = 2048 } ∷ [])
      ∷ (record { iov_base = 9000; iov_len = 2048 } ∷ [])
      ∷ (record { iov_base = 2148; iov_len = 2048 } ∷ [])
      ∷ [];
  reconstruct_chunk = 0;
  reconstruct_offset = 0;
}

-- The third base bdev is out of memory at the first try, and its chunk gets a bit flipped.
abbrev first_answer : Child → Rc
first_answer c = elim c.idx [ zero ↦ ok | suc _ ↦ fail enomem ]

abbrev all_ok : Child → Rc
all_ok c = ok

abbrev third : ℕ → Bool
third i = i == 2

abbrev waiting : StripeIo
waiting =
    raid5f_stripe_write_request_xor_done configured channel write_io ok first_answer third
      (stripe_begun configured channel write_io stripe)

abbrev again : StripeIo
again =
    raid5f_stripe_request_submit_chunks configured channel write_io all_ok third
      (record waiting { io = record waiting.io { waitq = none } })

abbrev one_ended : StripeIo
one_ended = raid5f_stripe_request_chunk_write_complete again success

abbrev all_ended : StripeIo
all_ended = raid5f_stripe_request_chunk_write_complete one_ended success

written : StripeLife configured channel write_io stripe all_ended 2 false
unfolding raid5f_stripe_write_request_xor_done raid5f_stripe_request_submit_chunks
    submit_chunks_from raid5f_chunk_submit raid5f_stripe_request_chunk_write_complete
    complete_and_release raid_bdev_io_complete_part raid_bdev_queue_io_wait
    raid_bdev_writev_blocks_ext
written =
    ended {s = one_ended}
      (ended {s = again} (retried {s = waiting} (computed first_answer third) 2 refl all_ok third)
        (omega arith) true)
      (omega arith) true

released_once : all_ended.releases ≡ 1
unfolding raid5f_stripe_write_request_xor_done raid5f_stripe_request_submit_chunks
    submit_chunks_from raid5f_chunk_submit raid5f_stripe_request_chunk_write_complete
    complete_and_release raid_bdev_io_complete_part raid_bdev_queue_io_wait
    raid_bdev_writev_blocks_ext
released_once = refl

raid5f_write-flips_example :
    ((all_ended.req.poisoned ≡ false) × (all_ended.flips ≡ []))
    ⊎ ((all_ended.req.poisoned ≡ true)
        × ((i : ℕ) × (i < 3) × (all_ended.flips ≡ first_byte stripe i ∷ [])))
raid5f_write-flips_example = raid5f_write-flips configured channel write_io stripe written

raid5f_write-Outcome_example : Outcome 3 (record { io = all_ended.io; done = 2; bad = false })
raid5f_write-Outcome_example =
    raid5f_write-Outcome configured channel write_io (omega arith) (omega arith) stripe written

raid5f_write-success_example :
    (false ≡ false)
    × (2 ≡ length all_ended.io.sent)
    × (all_ended.io.sent ≡ sent_below (write_slot configured channel write_io stripe) 3)
unfolding raid5f_stripe_write_request_xor_done raid5f_stripe_request_submit_chunks
    submit_chunks_from raid5f_chunk_submit raid5f_stripe_request_chunk_write_complete
    complete_and_release raid_bdev_io_complete_part raid_bdev_queue_io_wait
    raid_bdev_writev_blocks_ext
raid5f_write-success_example =
    raid5f_write-success configured channel write_io (omega arith) (omega arith) stripe written refl

-- A reconstruction whose second read is refused for good: the first chunk and the reconstructed one are
-- accounted for, and then only the data chunks that are left, so that one part stays open for ever.
abbrev refused : StripeIo
refused =
    raid5f_stripe_request_submit_chunks configured channel
      (record write_io { io_type = read; num_blocks = 1 }) (λ c. fail eio) (λ i. false)
      (record {
        io = record fresh_io { base_bdev_io_remaining = 3 };
        req = record stripe { request_type = stripe_req_reconstruct };
        releases = 0;
        flips = [];
      })

reconstruct_stuck :
    (refused.io.sent ≡ []) × (refused.io.waitq ≡ none) × (refused.io.completions ≡ [])
unfolding raid5f_stripe_request_submit_chunks submit_chunks_from raid5f_chunk_submit
    raid5f_stripe_data_chunks_num complete_and_release raid_bdev_io_complete_part
    raid_bdev_readv_blocks_ext
reconstruct_stuck = (refl, refl, refl)
