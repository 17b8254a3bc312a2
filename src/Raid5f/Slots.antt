-- ===== src/Raid5f/Slots.antt =====
-- The submission of a stripe write's chunks in raid/raid5f.c is the loop over slots.
use flex_bso.Common.{
  ℕ, zero, suc, ◌+◌, ◌<◌, ◌≡◌, ◌∙◌, refl, sym, ap, Bool, true, false, ◌&&◌, not, if◌then◌else◌,
  List, ◌∷◌, arith, get_or, u8, shl64, sub64,
}
use flex_bso.Bdev.{Rc, ok, fail, Errno, enomem, success, failed, BdevIo, Child}
use flex_bso.RaidBdev.{
  RaidBdev, RaidBdevIo, RaidBdevIoChannel, base_info, raid_bdev_writev_blocks_ext,
  raid_bdev_io_complete_part, raid_bdev_queue_io_wait,
}
use flex_bso.Fanout.Life.{part-submitted}
use flex_bso.Fanout.{Slot, missing, child, submit_slots, on_slot, on_answer, count_slot}
use flex_bso.Raid5f.{
  StripeRequest, stripe_req_write, StripeIo, iovs_of, chunk_child, raid5f_chunk_submit,
  submit_chunks_from, complete_and_release, chunk_answered,
}

module _ (r : RaidBdev) (ch : RaidBdevIoChannel) (b : BdevIo) where
  -- Chunk `i` of a stripe write: all its blocks, where the stripe stands.
  abbrev pub write_slot : StripeRequest → ℕ → Slot
  write_slot q i =
      if get_or ch.base_channel i false
      then child (
          raid_bdev_writev_blocks_ext (base_info r i) i (iovs_of q i)
            (shl64 q.stripe_index r.strip_size_shift) r.strip_size)
      else missing

  abbrev pub write_give_up : RaidBdevIo → RaidBdevIo
  write_give_up io =
      (raid_bdev_io_complete_part io (sub64 r.num_base_bdevs io.base_bdev_io_submitted) failed).1

  module _ (answer : Child → Rc) (dice : ℕ → Bool) where
    -- A stripe write at work.
    abbrev pub at_work : StripeRequest → RaidBdevIo → ℕ → List ℕ → StripeIo
    at_work q io n fl = record {
      io = io;
      req = record q { request_type = stripe_req_write };
      releases = n;
      flips = fl;
    }

    abbrev pub poisoned_if : Bool → ℕ → StripeIo → StripeIo
    poisoned_if d i s =
        if d
        then record s {
          req = record s.req { poisoned = true };
          flips =
              (get_or (iovs_of s.req i) 0 (record { iov_base = 0; iov_len = 0 })).iov_base
              ∷ s.flips;
        }
        else s

    -- `raid5f_chunk_submit` with its three tests as arguments: the channel, the poison, the answer.
    abbrev pub step_by : Bool → Bool → Rc → ℕ → StripeIo → Rc × StripeIo
    step_by on d a i s =
        if not on
        then (ok, record s { io = (raid_bdev_io_complete_part (count_slot s.io) 1 success).1 })
        else chunk_answered r ch b i (poisoned_if d i (record s { io = count_slot s.io }))
            (chunk_child r ch b s.req i) a

    abbrev pub then_on : ℕ → ℕ → Rc × StripeIo → StripeIo
    then_on left i p = elim p.0 [
      | ok ↦ submit_chunks_from r ch b answer dice left (suc i) p.1
      | fail e ↦ p.1
    ]

    abbrev slot_by : Bool → StripeRequest → ℕ → Slot
    slot_by on q i =
        if on
        then child (
            raid_bdev_writev_blocks_ext (base_info r i) i (iovs_of q i)
              (shl64 q.stripe_index r.strip_size_shift) r.strip_size)
        else missing

    abbrev pub slots : StripeRequest → ℕ → RaidBdevIo → RaidBdevIo
    slots q = submit_slots (write_slot q) answer write_give_up

    abbrev Runs : ℕ → Type 0
    Runs left =
        (i : ℕ) (q : StripeRequest) (io : RaidBdevIo) (n : ℕ) (fl : List ℕ)
        → i ≡ io.base_bdev_io_submitted
        → io.base_bdev_io_submitted + left < 256
        → (submit_chunks_from r ch b answer dice left i (at_work q io n fl)).io ≡ slots q left io

    -- The count that a failed submission takes back.
    taken_back :
        (io : RaidBdevIo)
        → io.base_bdev_io_submitted < 255
        → record io { base_bdev_io_submitted = u8 (u8 (io.base_bdev_io_submitted + 1) + 255) } ≡ io
    taken_back io h = λ k. record io { base_bdev_io_submitted = back k }
      where
        back : u8 (u8 (io.base_bdev_io_submitted + 1) + 255) ≡ io.base_bdev_io_submitted
        back = omega arith

    failed_runs :
        (e : Errno) (i : ℕ) (q : StripeRequest) (io : RaidBdevIo) (n : ℕ) (fl : List ℕ) (c : Child)
        (next : RaidBdevIo → RaidBdevIo)
        → c.idx ≡ i
        → io.base_bdev_io_submitted < 255
        → (chunk_answered r ch b i (at_work q (count_slot io) n fl) c (fail e)).1.io
          ≡ on_answer write_give_up next io c (fail e)
    unfolding complete_and_release
    failed_runs enomem i q io n fl c next ci h =
        ap (λ x. raid_bdev_queue_io_wait x i) (taken_back io h)
        ∙ ap (λ (m : ℕ). raid_bdev_queue_io_wait io m) (sym ci)
    failed_runs e i q io n fl c next ci h = ap write_give_up (taken_back io h)

    after_missing :
        (io : RaidBdevIo)
        → io.base_bdev_io_submitted < 255
        → (raid_bdev_io_complete_part (count_slot io) 1 success).1.base_bdev_io_submitted
          ≡ suc io.base_bdev_io_submitted
    after_missing io h = part-submitted (count_slot io) 1 success ∙ counted
      where
        counted : u8 (io.base_bdev_io_submitted + 1) ≡ suc io.base_bdev_io_submitted
        counted = omega arith

    abbrev pub write_child : StripeRequest → ℕ → Child
    write_child q i =
        raid_bdev_writev_blocks_ext (base_info r i) i (iovs_of q i)
          (shl64 q.stripe_index r.strip_size_shift) r.strip_size

    child-Runs :
        (d : Bool) (a : Rc) (left i : ℕ) (q : StripeRequest) (io : RaidBdevIo) (n : ℕ) (fl : List ℕ)
        → Runs left
        → i ≡ io.base_bdev_io_submitted
        → io.base_bdev_io_submitted + suc left < 256
        → (then_on left i (step_by true d a i (at_work q io n fl))).io
          ≡ on_answer write_give_up (slots q left) io (write_child q i) a
    unfolding complete_and_release raid_bdev_writev_blocks_ext
    child-Runs true ok left i q io n fl ih h k =
        ih (suc i) (record q { poisoned = true }) _ n _ (omega arith) (omega arith)
    child-Runs false ok left i q io n fl ih h k = ih (suc i) q _ n fl (omega arith) (omega arith)
    child-Runs true (fail e) left i q io n fl ih h k =
        failed_runs e i (record q { poisoned = true }) io n _ (write_child q i) (slots q left) refl
          (omega arith)
    child-Runs false (fail e) left i q io n fl ih h k =
        failed_runs e i q io n fl (write_child q i) (slots q left) refl (omega arith)

    step-Runs :
        (on d : Bool) (left i : ℕ) (q : StripeRequest) (io : RaidBdevIo) (n : ℕ) (fl : List ℕ)
        → Runs left
        → i ≡ io.base_bdev_io_submitted
        → io.base_bdev_io_submitted + suc left < 256
        → (then_on left i (step_by on d (answer (write_child q i)) i (at_work q io n fl))).io
          ≡ on_slot (write_slot q) answer write_give_up (slots q left) io (slot_by on q i)
    step-Runs false d left i q io n fl ih h k =
        ih (suc i) q (raid_bdev_io_complete_part (count_slot io) 1 success).1 n fl
          (omega (arith, after_missing io (omega arith)))
          (omega (arith, after_missing io (omega arith)))
    step-Runs true d left i q io n fl ih h k =
        child-Runs d (answer (write_child q i)) left i q io n fl ih h k

    -- The loop over the chunks is the loop over the slots.
    pub chunks-slots : (left : ℕ) → Runs left
    unfolding submit_chunks_from submit_slots raid5f_chunk_submit
    chunks-slots zero i q io n fl h k = refl
    chunks-slots (suc left) i q io n fl h k =
        step-Runs (get_or ch.base_channel i false) (not q.poisoned && dice i) left i q io n fl
          (chunks-slots left) h k
        ∙ ap
            (λ (m : ℕ).
              on_slot (write_slot q) answer write_give_up (slots q left) io (write_slot q m))
            h
