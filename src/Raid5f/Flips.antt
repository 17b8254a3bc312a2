-- ===== src/Raid5f/Flips.antt =====
-- The life of a full-stripe write of raid/raid5f.c, from the end of the parity computation on, and the
-- bit that it may flip in the buffer of a chunk: the caller's, or the stripe request's own for the parity.
use flex_bso.Common.{
  ℕ, ◌-◌, ◌⊎◌, inl, inr, ◌∷◌, zero, suc, ◌<◌, ◌≡◌, refl, sym, subst, ap, Bool, true, false, ◌&&◌,
  ◌||◌, not, List, [], none, some, arith, length, get_or,
}
use flex_bso.Bdev.{Rc, ok, fail, Errno, enomem, BdevIo, Child, status_of}
use flex_bso.RaidBdev.{RaidBdev, RaidBdevIo, RaidBdevIoChannel, fresh_io}
use flex_bso.Raid5f.{
  iovs_of, no_iovec, StripeRequest, stripe_req_write, StripeIo, chunk_answered,
  complete_and_release, submit_chunks_from, raid5f_chunk_submit,
  raid5f_stripe_request_submit_chunks, raid5f_stripe_write_request_xor_done,
  raid5f_stripe_request_chunk_write_complete,
}
use flex_bso.Raid5f.Slots.{at_work, step_by, then_on, write_child}

-- The first byte of the buffer of chunk `i`: of the parity chunk it is the parity buffer's.
abbrev pub first_byte : StripeRequest → ℕ → ℕ
first_byte q i = (get_or (iovs_of q i) 0 no_iovec).iov_base

-- What the mark says of the bytes changed, in a stripe of `n` chunks.
abbrev pub Marked : ℕ → StripeRequest → Bool → List ℕ → Type 0
Marked n q true flips = (i : ℕ) × (i < n) × (flips ≡ first_byte q i ∷ [])
Marked n q false flips = flips ≡ []

module _ (r : RaidBdev) (ch : RaidBdevIoChannel) (b : BdevIo) where
  abbrev n : ℕ
  n = r.num_base_bdevs

  -- A new stripe request whose parity is computed.
  abbrev pub stripe_begun : StripeRequest → StripeIo
  stripe_begun q = record {
    io = record fresh_io { base_bdev_io_remaining = n };
    req = record q { request_type = stripe_req_write; poisoned = false };
    releases = 0;
    flips = [];
  }

  -- The callbacks of a stripe write in any order: the parity is computed, queued retries run, and
  -- children end. `done` counts the children that have ended; `bad` says that one of them failed.
  pub data StripeLife (q : StripeRequest) : StripeIo → ℕ → Bool → Type 0 where
    computed :
        (answer : Child → Rc) (dice : ℕ → Bool)
        → StripeLife q
            (raid5f_stripe_write_request_xor_done r ch b ok answer dice (stripe_begun q))
            0
            false
    retried :
        {s : StripeIo} {done : ℕ} {bad : Bool}
        → StripeLife q s done bad
        → (i : ℕ) → s.io.waitq ≡ some i
        → (answer : Child → Rc) (dice : ℕ → Bool)
        → StripeLife q
            (raid5f_stripe_request_submit_chunks r ch b answer dice
              (record s { io = record s.io { waitq = none } }))
            done
            bad
    ended :
        {s : StripeIo} {done : ℕ} {bad : Bool}
        → StripeLife q s done bad
        → done < length s.io.sent
        → (good : Bool)
        → StripeLife q
            (raid5f_stripe_request_chunk_write_complete s (status_of good))
            (suc done)
            (bad || not good)

  -- The request is the one it was, but for the mark, and the mark tells the bytes changed.
  abbrev pub Kept : StripeRequest → StripeIo → Type 0
  Kept q s =
      (s.req ≡ record q { request_type = stripe_req_write; poisoned = s.req.poisoned })
      × Marked n q s.req.poisoned s.flips

  module _ (q : StripeRequest) (answer : Child → Rc) (dice : ℕ → Bool) where
    abbrev KeptFrom : ℕ → Type 0
    KeptFrom left =
        (i : ℕ) (p : Bool) (io : RaidBdevIo) (m : ℕ) (fl : List ℕ)
        → left ≡ n - i
        → Marked n q p fl
        → Kept q (
            submit_chunks_from r ch b answer dice left i
              (at_work r ch b answer dice (record q { poisoned = p }) io m fl))

    Kept-failed :
        (e : Errno) (i : ℕ) (p : Bool) (io : RaidBdevIo) (m : ℕ) (fl : List ℕ) (c : Child)
        → Marked n q p fl
        → Kept q
            (chunk_answered r ch b i
              (at_work r ch b answer dice (record q { poisoned = p }) io m fl)
              c
              (fail e)).1
    unfolding complete_and_release
    Kept-failed enomem i p io m fl c h = (refl, h)
    Kept-failed e i p io m fl c h = (refl, h)

    Kept-step :
        (on p d : Bool) (a : Rc) (left i : ℕ) (io : RaidBdevIo) (m : ℕ) (fl : List ℕ)
        → KeptFrom left
        → suc left ≡ n - i
        → Marked n q p fl
        → Kept q (
            then_on r ch b answer dice left i (
              step_by r ch b answer dice on
                (not p && d)
                a
                i
                (at_work r ch b answer dice (record q { poisoned = p }) io m fl)))
    Kept-step false p d a left i io m fl ih e h = ih (suc i) p _ m fl (omega (arith, e)) h
    Kept-step true true d ok left i io m fl ih e h = ih (suc i) true _ m fl (omega (arith, e)) h
    Kept-step true true d (fail x) left i io m fl ih e h =
        Kept-failed x i true _ m fl (write_child r ch b answer dice q i) h
    Kept-step true false true ok left i io m fl ih e h =
        ih (suc i) true _ m _ (omega (arith, e))
          (i, omega (arith, e), ap (λ xs. first_byte q i ∷ xs) h)
    Kept-step true false true (fail x) left i io m fl ih e h =
        Kept-failed x i true _ m _ (write_child r ch b answer dice q i)
          (i, omega (arith, e), ap (λ xs. first_byte q i ∷ xs) h)
    Kept-step true false false ok left i io m fl ih e h =
        ih (suc i) false _ m fl (omega (arith, e)) h
    Kept-step true false false (fail x) left i io m fl ih e h =
        Kept-failed x i false _ m fl (write_child r ch b answer dice q i) h

    KeptFrom-all : (left : ℕ) → KeptFrom left
    unfolding submit_chunks_from raid5f_chunk_submit
    KeptFrom-all zero i p io m fl e h = (refl, h)
    KeptFrom-all (suc left) i p io m fl e h =
        Kept-step (get_or ch.base_channel i false) p (dice i)
          (answer (write_child r ch b answer dice q i)) left i io m fl (KeptFrom-all left) e h

  -- A stripe request in any state of its life.
  Kept-run :
      (q : StripeRequest) (answer : Child → Rc) (dice : ℕ → Bool) (left i : ℕ) (s : StripeIo)
      → left ≡ n - i
      → Kept q s
      → Kept q (submit_chunks_from r ch b answer dice left i s)
  Kept-run q answer dice left i s e k =
      subst (λ t. Kept q (submit_chunks_from r ch b answer dice left i (record s { req = t })))
        (sym k.0) (KeptFrom-all q answer dice left i s.req.poisoned s.io s.releases s.flips e k.1)

  pub StripeLife-Kept :
      (q : StripeRequest) {s : StripeIo} {done : ℕ} {bad : Bool}
      → StripeLife q s done bad
      → Kept q s
  unfolding raid5f_stripe_write_request_xor_done raid5f_stripe_request_submit_chunks
      complete_and_release raid5f_stripe_request_chunk_write_complete
  StripeLife-Kept q (computed answer dice) =
      Kept-run q answer dice _ _ (stripe_begun q) refl (refl, refl)
  StripeLife-Kept q (retried {s} l i e answer dice) =
      Kept-run q answer dice _ _ (record s { io = record s.io { waitq = none } }) refl
        (StripeLife-Kept q l)
  StripeLife-Kept q (ended l h good) = StripeLife-Kept q l

  -- Over a whole stripe write, retries included, the stripe request is not marked as poisoned and no bit was
  -- flipped; or it is marked, and a bit was flipped in one byte only: the first byte of the buffer of one of
  -- its chunks, which is the caller's buffer, or the stripe request's parity buffer if that chunk is the
  -- parity.
  pub raid5f_write-flips :
      (q : StripeRequest) {s : StripeIo} {done : ℕ} {bad : Bool}
      → StripeLife q s done bad
      → ((s.req.poisoned ≡ false) × (s.flips ≡ []))
        ⊎ ((s.req.poisoned ≡ true)
            × ((i : ℕ) × (i < r.num_base_bdevs) × (s.flips ≡ first_byte q i ∷ [])))
  raid5f_write-flips q {s} l = marked s.req.poisoned (StripeLife-Kept q l).1
    where
      marked :
          (p : Bool)
          → Marked n q p s.flips
          → ((p ≡ false) × (s.flips ≡ []))
            ⊎ ((p ≡ true) × ((i : ℕ) × (i < n) × (s.flips ≡ first_byte q i ∷ [])))
      marked true h = inr (refl, h)
      marked false h = inl (refl, h)
