-- ===== src/Concat/Slots.antt =====
-- The second loop of `concat_submit_null_payload_request` (raid/concat.c) as the loop over slots.
use flex_bso.Common.{
  sym, ap, subst, ℕ, zero, suc, ◌+◌, ◌-◌, ◌≤◌, ◌<◌, ◌≡◌, ◌∙◌, refl, List, Bool, false, arith,
  dec_lt, ltb, true,
}
use flex_bso.Bdev.{Rc, ok, fail, enomem, BdevIo, Child}
use flex_bso.RaidBdev.{RaidBdev, RaidBdevIo}
use flex_bso.Fanout.{Slot, child, submit_slots, on_answer, count_slot}
use flex_bso.RaidBdev.{accept}
use flex_bso.Concat.{
  ConcatBlockRange, Walk, walk_on, whole_range, null_child, null_answer, null_give_up, null_loop,
}
use flex_bso.Concat.Pieces.{walked}

module _ (r : RaidBdev) (rs : List ConcatBlockRange) (b : BdevIo) (s : ℕ) where
  -- The child request of slot `j`, counted from the first base bdev touched.
  abbrev pub null_slot : ℕ → Slot
  null_slot j = child (null_child r rs b b.io_type (s + j) (walked r rs b s j))

  module _ (answer : Child → Rc) (same_answer : null_answer r rs b b.io_type answer ≡ answer) where
    abbrev loop : ℕ → ℕ → RaidBdevIo → RaidBdevIo
    loop left j io = null_loop r rs b answer s left (s + j) (walked r rs b s j) io

    abbrev slots : ℕ → RaidBdevIo → RaidBdevIo
    slots = submit_slots null_slot answer (null_give_up r rs b)

    -- A base bdev that has got its child request is passed over.
    passes :
        (left j : ℕ) (io : RaidBdevIo)
        → j < io.base_bdev_io_submitted
        → loop (suc left) j io ≡ loop left (suc j) io
    unfolding null_loop
    passes left j io h = ground arith

    opened :
        (left i : ℕ) (w : Walk) (io : RaidBdevIo) (t : Bool)
        → t ≡ false
        → t ≡ ltb i (s + io.base_bdev_io_submitted)
        → null_loop r rs b answer s (suc left) i w io
          ≡ on_answer
              (null_give_up r rs b)
              (null_loop r rs b answer s left (suc i) (walk_on r rs i w))
              io
              (null_child r rs b b.io_type i w)
              (null_answer r rs b b.io_type answer (null_child r rs b b.io_type i w))
    unfolding null_loop
    opened left i w io false h e = rw (← e, null_loop) refl
    opened left i w io true h e = absurd (cc)

    not_below : (m : ℕ) → false ≡ ltb m m
    not_below m = ground arith

    abbrev child_of : ℕ → Child
    child_of j = null_child r rs b b.io_type (s + j) (walked r rs b s j)

    serves :
        (left : ℕ) (io : RaidBdevIo)
        → loop (suc left) io.base_bdev_io_submitted io
          ≡ on_answer
              (null_give_up r rs b)
              (loop left (suc io.base_bdev_io_submitted))
              io
              (child_of io.base_bdev_io_submitted)
              (answer (child_of io.base_bdev_io_submitted))
    unfolding null_loop
    serves left io =
        opened left (s + io.base_bdev_io_submitted) (walked r rs b s io.base_bdev_io_submitted) io
          false refl (not_below (s + io.base_bdev_io_submitted))
        ∙ (ap
              (λ next.
                on_answer (null_give_up r rs b) next io (child_of io.base_bdev_io_submitted)
                  (null_answer r rs b b.io_type answer (child_of io.base_bdev_io_submitted)))
              moved
            ∙ ap
                (λ a.
                  on_answer (null_give_up r rs b) (loop left (suc io.base_bdev_io_submitted)) io
                    (child_of io.base_bdev_io_submitted) (a (child_of io.base_bdev_io_submitted)))
                same_answer)
      where
        moved :
            null_loop r rs b answer s left
              (suc (s + io.base_bdev_io_submitted))
              (walked r rs b s (suc io.base_bdev_io_submitted))
            ≡ loop left (suc io.base_bdev_io_submitted)
        moved =
            ap
              (λ (i : ℕ).
                null_loop r rs b answer s left i (walked r rs b s (suc io.base_bdev_io_submitted)))
              (omega arith)

    answered :
        (left : ℕ) (io : RaidBdevIo) (c : Child) (a : Rc)
        → ((io' : RaidBdevIo)
            → suc io.base_bdev_io_submitted ≡ io'.base_bdev_io_submitted
            → io'.base_bdev_io_submitted + left < 256
            → loop left (suc io.base_bdev_io_submitted) io' ≡ slots left io')
        → io.base_bdev_io_submitted + suc left < 256
        → on_answer (null_give_up r rs b) (loop left (suc io.base_bdev_io_submitted)) io c a
          ≡ on_answer (null_give_up r rs b) (slots left) io c a
    answered left io c ok ih h = ih (count_slot (accept io c)) (omega arith) (omega arith)
    answered left io c (fail enomem) ih h = refl
    answered left io c (fail e) ih h = refl

    -- From the first slot that is not served on, the loop is the loop over the slots.
    runs :
        (left j : ℕ) (io : RaidBdevIo)
        → j ≡ io.base_bdev_io_submitted
        → io.base_bdev_io_submitted + left < 256
        → loop left j io ≡ slots left io
    unfolding null_loop submit_slots
    runs zero j io h small = refl
    runs (suc left) j io h small =
        subst (λ k. loop (suc left) k io ≡ slots (suc left) io) (sym h)
          (serves left io
            ∙ answered left io (child_of io.base_bdev_io_submitted)
                (answer (child_of io.base_bdev_io_submitted))
                (λ io' e k. runs left (suc io.base_bdev_io_submitted) io' e k) small)

    -- The whole loop: `k` slots are passed over first.
    loop-slots :
        (k left n j : ℕ) (io : RaidBdevIo)
        → n ≡ k + left
        → j + k ≡ io.base_bdev_io_submitted
        → io.base_bdev_io_submitted + left < 256
        → loop n j io ≡ slots left io
    loop-slots zero left n j io e h small =
        ap (λ (m : ℕ). loop m j io) (omega arith) ∙ runs left j io (omega arith) small
    loop-slots (suc k) left zero j io e h small = absurd (omega arith)
    loop-slots (suc k) left (suc n) j io e h small =
        passes n j io (omega arith)
        ∙ loop-slots k left n (suc j) io (omega arith) (omega arith) small

    all_passed : (n j : ℕ) (io : RaidBdevIo) → j + n ≤ io.base_bdev_io_submitted → loop n j io ≡ io
    unfolding null_loop
    all_passed zero j io h = refl
    all_passed (suc n) j io h = passes n j io (omega arith) ∙ all_passed n (suc j) io (omega arith)

    -- The loop of the code is the loop over the slots that are left.
    pub null_loop-slots :
        (n : ℕ) (io : RaidBdevIo)
        → n < 256
        → null_loop r rs b answer s n s (whole_range b) io
          ≡ submit_slots null_slot answer (null_give_up r rs b) (n - io.base_bdev_io_submitted) io
    unfolding submit_slots
    null_loop-slots n io small = at_start ∙ elim (dec_lt n io.base_bdev_io_submitted) [
      | yes h ↦ all_passed n 0 io (omega arith) ∙ ap (λ (k : ℕ). slots k io) (none_left h)
      | no h ↦
          loop-slots io.base_bdev_io_submitted (n - io.base_bdev_io_submitted) n 0 io (omega arith)
            (omega arith) (omega arith)
    ]
      where
        none_left : n < io.base_bdev_io_submitted → 0 ≡ n - io.base_bdev_io_submitted
        none_left h = omega arith

        at_start : null_loop r rs b answer s n s (whole_range b) io ≡ loop n 0 io
        at_start = ap (λ (i : ℕ). null_loop r rs b answer s n i (whole_range b) io) (omega arith)
