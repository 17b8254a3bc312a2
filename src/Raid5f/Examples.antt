-- ===== src/Raid5f/Examples.antt =====
-- raid/raid5f.c: the theorems on buffers and on memory at concrete requests.
use flex_bso.Common.{
  ℕ, ◌*◌, ◌≤◌, ◌<◌, ◌≡◌, refl, ◌⊎◌, Bool, true, false, ltb, List, [], ◌∷◌, ◌++◌, take, drop, arith,
  min, length, none,
}
use flex_bso.Bdev.{Iovec, ok, fail, enomem, einval, eio, nomem, read, write, BdevIo}
use flex_bso.Raid5f.{
  raid5f_stripe_data_chunks_num, Raid5fInfo, raid5f_stripe_parity_chunk_index, raid5f_chunk_submit,
}
use flex_bso.Raid5f.Alloc.{Heap, raid5f_max_stripes, raid5f_ioch_create}
use flex_bso.Raid5f.Channel.{IsCreated, raid5f_ioch_create-IsCreated}
use flex_bso.Raid5f.Cut.{bytes, size}
use flex_bso.Raid5f.Iovecs.{raid5f_stripe_request_map_iovecs}
use flex_bso.Raid5f.Mapped.{strip_bytes, IsCut, map_iovecs-IsCut}
use flex_bso.Raid5f.Tests.{configured, channel}
use flex_bso.Raid5f.Requests.{Surroundings, R5Run, raid5f_submit_rw_request}
use flex_bso.RaidBdev.{fresh_io, raid_bdev_readv_blocks_ext}
use flex_bso.Raid5f.Xor.{
  XorState, raid5f_xor_stripe_md_cb, raid5f_xor_stripe_cb, raid5f_xor_stripe,
  raid5f_xor_stripe_retry,
}
use flex_bso.Raid5f.XorBalance.{no_xor, IsSegment, pending}
use flex_bso.Raid5f.XorLife.{begun, data_ended, after_ends, XorLife-called}

-- Two buffers of 4096 bytes together, for a stripe of two chunks of 2048 bytes.
abbrev buffers : List Iovec
buffers =
    record { iov_base = 5000; iov_len = 1000 } ∷ record { iov_base = 20000; iov_len = 3096 } ∷ []

abbrev chunk_len : ℕ
chunk_len = strip_bytes configured

map_iovecs-IsCut_example :
    ((raid5f_stripe_data_chunks_num configured * chunk_len ≤ size buffers)
      × ((chunks : List (List Iovec)) × IsCut chunk_len
            (raid5f_stripe_data_chunks_num configured)
            (bytes buffers)
            chunks
          × (raid5f_stripe_request_map_iovecs configured true [] 9000 1 buffers ≡ (
            ok,
            take 1 chunks
                ++ ((record { iov_base = 9000; iov_len = chunk_len } ∷ []) ∷ drop 1 chunks),
          ))))
    ⊎ ((size buffers < raid5f_stripe_data_chunks_num configured * chunk_len)
        × ((raid5f_stripe_request_map_iovecs configured true [] 9000 1 buffers).0 ≡ fail einval))
map_iovecs-IsCut_example =
    map_iovecs-IsCut configured [] 9000 1 buffers (omega arith) (omega arith) (omega arith)

-- The second chunk starts in the second buffer.
two_chunks : raid5f_stripe_request_map_iovecs configured true [] 9000 1 buffers ≡ (
  ok,
  (record { iov_base = 5000; iov_len = 1000 } ∷ record { iov_base = 20000; iov_len = 1048 } ∷ [])
      ∷ (record { iov_base = 9000; iov_len = 2048 } ∷ [])
      ∷ (record { iov_base = 21048; iov_len = 2048 } ∷ [])
      ∷ [],
)
unfolding raid5f_stripe_request_map_iovecs
two_chunks = refl

-- Memory for seven blocks, which is not enough for one request.
abbrev seven : ℕ → Bool
seven k = ltb k 7

abbrev fresh : Heap
fresh = record { live = 100; asked = 0; accel_refs = 2 }

raid5f_ioch_create-IsCreated_example :
    IsCreated seven true 3 2 false raid5f_max_stripes fresh
      (raid5f_ioch_create seven true 3 2 false fresh)
raid5f_ioch_create-IsCreated_example = raid5f_ioch_create-IsCreated seven true 3 2 false fresh

no_channel_created : raid5f_ioch_create seven true 3 2 false fresh ≡ (
  fail enomem,
  record {
    free_write = [];
    free_reconstruct = [];
    accel_ch = 0;
    chunk_xor_buffers = 0;
    chunk_xor_iovs = 0;
    chunk_xor_iovcnt = 0;
  },
  record { live = 100; asked = 8; accel_refs = 2 },
)
unfolding raid5f_ioch_create
no_channel_created = refl

abbrev segment : ℕ → ℕ
segment n = min n 512

segment-IsSegment : IsSegment segment
segment-IsSegment n h = omega arith

-- The second segment waits on the retry queue.
abbrev second_waits : XorState
second_waits =
    raid5f_xor_stripe_cb segment (fail enomem) ok
      (raid5f_xor_stripe segment 1000 false 0 ok ok no_xor)

XorLife-called_example :
    (pending second_waits ≡ 1)
    × ((second_waits.queued ≡ true)
        ⊎ (length (after_ends segment 1000 1000 (λ k. ok) second_waits).cb_calls ≡ 1))
unfolding raid5f_xor_stripe_cb raid5f_xor_stripe
XorLife-called_example =
    XorLife-called segment 1000 0 0 second_waits (λ k. ok) (omega arith) (omega arith)
      segment-IsSegment refl
      (data_ended (raid5f_xor_stripe segment 1000 false 0 ok ok no_xor) (begun ok ok) (omega arith)
        (fail enomem) ok)

-- A job of 1000 bytes in two segments, of which the first fails: the callback gets the failure.
first_failed :
    (raid5f_xor_stripe_cb segment ok ok (
      raid5f_xor_stripe_cb segment ok
        (fail eio)
        (raid5f_xor_stripe segment 1000 false 0 ok ok no_xor))).cb_calls
    ≡ fail eio ∷ []
unfolding raid5f_xor_stripe_cb raid5f_xor_stripe
first_failed = refl

-- The job of the metadata was refused in the stripe request's last XOR. The next XOR, of a request with no metadata,
-- ends its only job, waits for nothing, and has not called its callback.
never_called :
    (raid5f_xor_stripe_cb segment ok ok (
      raid5f_xor_stripe segment 512 false 0 ok ok
        (record (raid5f_xor_stripe segment 512 true 8 (fail eio) ok no_xor) { cb_calls = [] })))
    ≡ record no_xor { len = 512; remaining_md = 8 }
unfolding raid5f_xor_stripe_cb raid5f_xor_stripe
never_called = refl

-- The job of the metadata is accepted and the first segment is not; the retry submits the metadata again, and
-- each of its two jobs finds that nothing is left.
called_twice :
    (raid5f_xor_stripe_md_cb ok (
      raid5f_xor_stripe_md_cb ok (
        raid5f_xor_stripe_cb segment ok ok (
          raid5f_xor_stripe_retry segment 512 true 8 ok ok
            (raid5f_xor_stripe segment 512 true 8 ok (fail enomem) no_xor))))).cb_calls
    ≡ ok ∷ ok ∷ []
unfolding raid5f_xor_stripe_cb raid5f_xor_stripe raid5f_xor_stripe_retry raid5f_xor_stripe_md_cb
called_twice = refl

abbrev surroundings : Surroundings
surroundings = record {
  answer = λ c. ok;
  xor_answer = ok;
  segment = segment;
  reallocated = true;
  dice = λ i. false;
  parity_buf = 9000;
  chunk_buffers = 7000 ∷ 8000 ∷ [];
  maxes = [];
}

abbrev info : Raid5fInfo
info = record { stripe_blocks = 8; total_stripes = 5; buf_alignment = 0 }

abbrev idle : R5Run
idle = record { free_write = 1; free_reconstruct = 2; io = fresh_io; stripe = none; xor = no_xor }

-- A read of the second stripe's second chunk, whose base bdev is the third one.
abbrev second_chunk : BdevIo
second_chunk = record { io_type = read; offset_blocks = 13; num_blocks = 2; iovs = buffers }

-- It is sent to block 5 of that base bdev's data, which begins at block 16.
second_chunk_sent :
    (raid5f_submit_rw_request configured channel second_chunk surroundings info idle).io.sent
    ≡ record { kind = read; idx = 2; lba = 21; blocks = 2; iovs = buffers } ∷ []
unfolding raid5f_submit_rw_request raid5f_stripe_parity_chunk_index raid_bdev_readv_blocks_ext
second_chunk_sent = refl

-- With no channel to its base bdev, the read takes a stripe request and reads the two other chunks.
two_read :
    (raid5f_submit_rw_request configured
      (record channel { base_channel = true ∷ true ∷ false ∷ [] })
      second_chunk
      surroundings
      info
      idle).io.sent
    ≡ record {
      kind = read;
      idx = 1;
      lba = 21;
      blocks = 2;
      iovs = record { iov_base = 8000; iov_len = 1024 } ∷ [];
    }
      ∷ record {
        kind = read;
        idx = 0;
        lba = 21;
        blocks = 2;
        iovs = record { iov_base = 7000; iov_len = 1024 } ∷ [];
      }
      ∷ []
unfolding raid5f_submit_rw_request raid5f_stripe_parity_chunk_index raid5f_chunk_submit
    raid_bdev_readv_blocks_ext
two_read = refl

-- A write with no free stripe request is completed for lack of memory.
no_stripe :
    raid5f_submit_rw_request configured channel
      (record { io_type = write; offset_blocks = 8; num_blocks = 8; iovs = buffers })
      surroundings
      info
      (record idle { free_write = 0 })
    ≡ record idle { free_write = 0; io = record fresh_io { completions = nomem ∷ [] } }
unfolding raid5f_submit_rw_request
no_stripe = refl

-- A write whose parity chunk has a channel waits for its XOR.
xor_begun :
    (raid5f_submit_rw_request configured
      (record channel { base_channel = true ∷ true ∷ true ∷ [] })
      (record { io_type = write; offset_blocks = 8; num_blocks = 8; iovs = buffers })
      surroundings
      info
      idle).xor
    ≡ record no_xor { len = 512; remaining = 2048; data_jobs = 1 }
unfolding raid5f_submit_rw_request raid5f_stripe_parity_chunk_index
xor_begun = refl
