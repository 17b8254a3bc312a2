-- ===== src/Raid5f/Write.antt =====
-- A full-stripe write of raid/raid5f.c over its whole life: how it ends.
use flex_bso.Common.{
  sub64, ℕ, ◌+◌, ◌-◌, ◌<◌, ◌≡◌, ◌∙◌, refl, sym, subst, ap, Bool, false, ◌==◌, if◌then◌else◌, [],
  ◌∷◌, none, some, arith, length,
}
use flex_bso.Bdev.{Rc, success, failed, BdevIo, Child}
use flex_bso.RaidBdev.{RaidBdev, RaidBdevIo, RaidBdevIoChannel, complete_one}
use flex_bso.Fanout.{submit_slots}
use flex_bso.Fanout.Accounting.{Flight, IsWaiting, complete_rest-Settled}
use flex_bso.Fanout.Life.{
  Life, start, retry, end, Outcome, sent_below, IsInOrder, part-sent, part-submitted, Life-Settled,
  queued-IsWaiting,
}
use flex_bso.Fanout.Handler.{serve, Serves, serve-Settles, serve-Outcome, serve-success}
use flex_bso.Raid5f.{
  StripeRequest, StripeIo, complete_and_release, submit_chunks_from,
  raid5f_stripe_request_submit_chunks, raid5f_stripe_write_request_xor_done,
  raid5f_stripe_request_chunk_write_complete,
}
use flex_bso.Raid5f.Slots.{write_slot, write_give_up, chunks-slots}
use flex_bso.Raid5f.Flips.{
  StripeLife, computed, retried, ended, stripe_begun, Kept, StripeLife-Kept,
}

module _ (r : RaidBdev) (ch : RaidBdevIoChannel) (b : BdevIo) (positive : 0 < r.num_base_bdevs)
    (small : r.num_base_bdevs < 256) (q : StripeRequest) where
  abbrev n : ℕ
  n = r.num_base_bdevs

  abbrev write_begin : RaidBdevIo → RaidBdevIo
  write_begin io =
      if io.base_bdev_io_remaining == 0 then record io { base_bdev_io_remaining = n } else io

  keeps_order :
      (io : RaidBdevIo)
      → IsInOrder (write_slot r ch b q) io
      → IsInOrder (write_slot r ch b q) (write_give_up r ch b io)
  keeps_order io o =
      rw
        (
          part-sent io (sub64 n io.base_bdev_io_submitted) failed,
          part-submitted io (sub64 n io.base_bdev_io_submitted) failed,
        )
        o

  write-Serves : Serves n (write_slot r ch b q) (write_give_up r ch b) write_begin
  write-Serves = record {
    small = small;
    positive = positive;
    gives_up = complete_rest-Settled n small;
    keeps_order = keeps_order;
    begins = refl;
    resumes = λ f w. ground arith;
  }

  served : (Child → Rc) → RaidBdevIo → RaidBdevIo
  served = serve n (write_slot r ch b q) (write_give_up r ch b) write_begin

  abbrev flight : StripeIo → ℕ → Bool → Flight
  flight s done bad = record { io = s.io; done = done; bad = bad }

  -- The chunks that are left are submitted as slots, whatever mark the request has.
  run-slots :
      (answer : Child → Rc) (dice : ℕ → Bool) (left i : ℕ) (s : StripeIo)
      → Kept r ch b q s
      → i ≡ s.io.base_bdev_io_submitted
      → s.io.base_bdev_io_submitted + left < 256
      → (submit_chunks_from r ch b answer dice left i s).io
        ≡ submit_slots (write_slot r ch b q) answer (write_give_up r ch b) left s.io
  run-slots answer dice left i s k h l =
      subst
        (λ t.
          (submit_chunks_from r ch b answer dice left i (record s { req = t })).io
          ≡ submit_slots (write_slot r ch b q) answer (write_give_up r ch b) left s.io)
        (sym k.0)
        (chunks-slots r ch b answer dice left i (record q { poisoned = s.req.poisoned }) s.io
          s.releases s.flips h l)

  waiting : {f : Flight} (i : ℕ) → Life served f → f.io.waitq ≡ some i → IsWaiting n f
  unfolding served
  waiting i l e =
      queued-IsWaiting n served i (Life-Settled n served (serve-Settles n _ _ _ write-Serves) l) e

  retry_io :
      (s : StripeIo) {done : ℕ} {bad : Bool}
      → Kept r ch b q s
      → IsWaiting n (flight s done bad)
      → (answer : Child → Rc) (dice : ℕ → Bool)
      → served answer (record s.io { waitq = none })
        ≡ (raid5f_stripe_request_submit_chunks r ch b answer dice
            (record s { io = record s.io { waitq = none } })).io
  unfolding served raid5f_stripe_request_submit_chunks
  retry_io s {done} {bad} k w answer dice =
      ap
        (λ io.
          submit_slots (write_slot r ch b q) answer (write_give_up r ch b)
            (n - io.base_bdev_io_submitted) io)
        (write-Serves.resumes (flight s done bad) w)
      ∙ sym (
          run-slots answer dice (n - s.io.base_bdev_io_submitted) s.io.base_bdev_io_submitted
            (record s { io = record s.io { waitq = none } }) k refl (omega (arith, w.more, small)))

  -- A stripe write lives as a request over slots does.
  StripeLife-Life :
      {s : StripeIo} {done : ℕ} {bad : Bool}
      → StripeLife r ch b q s done bad
      → Life served (flight s done bad)
  unfolding served raid5f_stripe_write_request_xor_done raid5f_stripe_request_submit_chunks
      complete_and_release raid5f_stripe_request_chunk_write_complete complete_one
  StripeLife-Life (computed answer dice) =
      subst (λ io. Life served (record { io = io; done = 0; bad = false }))
        (sym (
          run-slots answer dice (n - 0) 0 (stripe_begun r ch b q) (refl, refl) refl
            (omega (arith, small))))
        (start answer)
  StripeLife-Life (retried {s} {done} {bad} l i e answer dice) =
      let life : Life served (flight s done bad) = StripeLife-Life l in
      subst (λ io. Life served (record { io = io; done = done; bad = bad }))
        (retry_io s (StripeLife-Kept r ch b q l) (waiting i life e) answer dice)
        (retry life i e answer)
  StripeLife-Life (ended l h good) = end (StripeLife-Life l) h good

  -- With 1 to 255 base bdevs, a full-stripe write whose parity is computed is never completed twice;
  -- once no retry is queued and every child has ended it has been completed, as a success exactly if
  -- every chunk was served and no child failed.
  pub raid5f_write-Outcome :
      {s : StripeIo} {done : ℕ} {bad : Bool}
      → StripeLife r ch b q s done bad
      → Outcome n (record { io = s.io; done = done; bad = bad })
  unfolding served
  raid5f_write-Outcome l = serve-Outcome n _ _ _ write-Serves (StripeLife-Life l)

  -- With 1 to 255 base bdevs, when a full-stripe write reports success, no child has failed and none
  -- is in flight, and the children sent are one write of a whole strip, with the chunk's iovecs and
  -- at the stripe's place, to each base bdev that has a channel, in chunk order.
  pub raid5f_write-success :
      {s : StripeIo} {done : ℕ} {bad : Bool}
      → StripeLife r ch b q s done bad
      → s.io.completions ≡ success ∷ []
      → (bad ≡ false) × (done ≡ length s.io.sent) × (s.io.sent ≡ sent_below (write_slot r ch b q) n)
  unfolding served
  raid5f_write-success l e = serve-success n _ _ _ write-Serves (StripeLife-Life l) e
