-- ===== src/Fanout/Accounting.antt =====
-- The bookkeeping of a split request over its whole life: submissions, waits for memory, retries and
-- completions in any order.
use flex_bso.Common.{
  ℕ, zero, suc, ◌+◌, ◌-◌, ◌≤◌, ◌<◌, ◌≡◌, refl, sym, ap, subst, dec_lt, sub64, ◌⊎◌, inl, inr, Bool,
  not, ◌&&◌, ◌||◌, ◌==◌, none, some, [], ◌∷◌, arith, length,
}
use flex_bso.Bdev.{Rc, ok, fail, enomem, success, failed, Child, status_of}
use flex_bso.RaidBdev.{
  RaidBdevIo, raid_bdev_io_complete, raid_bdev_io_complete_part, raid_bdev_queue_io_wait,
  complete_one, accept,
}
use flex_bso.RaidBdev.Parts.{less, closed, complete_part-more, complete_part-last}
use flex_bso.Fanout.{Slot, missing, child, submit_slots, on_slot, on_answer, count_slot}

-- A request in flight: how many of its children have ended, and whether one of them failed.
pub record Flight : Type 0 where
  pub io : RaidBdevIo
  pub done : ℕ
  pub bad : Bool

-- The counters, with `left` slots still to be served.
pub record Counted (n left : ℕ) (f : Flight) : Type 0 where
  pub balance : f.io.base_bdev_io_remaining + f.done ≡ length f.io.sent + left
  pub ended : f.done ≤ length f.io.sent
  pub sent_in : length f.io.sent ≤ f.io.base_bdev_io_submitted
  pub in_range : f.io.base_bdev_io_submitted + left ≤ n

-- Slots are left, and the retry is queued.
pub record IsWaiting (n : ℕ) (f : Flight) : Type 0 where
  pub counted : Counted n (n - f.io.base_bdev_io_submitted) f
  pub more : f.io.base_bdev_io_submitted < n
  pub queued : (i : ℕ) × (f.io.waitq ≡ some i)
  pub open_ : f.io.completions ≡ []
  pub status : f.io.base_bdev_io_status ≡ status_of (not f.bad)

-- Every slot is served or given up; children are in flight.
pub record IsDraining (n : ℕ) (f : Flight) : Type 0 where
  pub counted : Counted n 0 f
  pub more : f.done < length f.io.sent
  pub idle : f.io.waitq ≡ none
  pub open_ : f.io.completions ≡ []
  pub status : f.io.base_bdev_io_status ≡ status_of (not f.bad && f.io.base_bdev_io_submitted == n)

-- The request has been completed, once, and no child is in flight.
pub record IsFinished (n : ℕ) (f : Flight) : Type 0 where
  pub all_ended : f.done ≡ length f.io.sent
  pub idle : f.io.waitq ≡ none
  pub reported : f.io.completions ≡ status_of (not f.bad && f.io.base_bdev_io_submitted == n) ∷ []

-- The request was completed as failed when a submission failed, children may be in flight, and the
-- counter stays too high for a second completion.
pub record IsAborted (n : ℕ) (f : Flight) : Type 0 where
  pub counted : Counted n (n - f.io.base_bdev_io_submitted) f
  pub more : f.io.base_bdev_io_submitted < n
  pub idle : f.io.waitq ≡ none
  pub reported : f.io.completions ≡ failed ∷ []

abbrev pub Settled : ℕ → Flight → Type 0
Settled n f = IsWaiting n f ⊎ (IsDraining n f ⊎ (IsFinished n f ⊎ IsAborted n f))

-- Inside the loop: `left` slots are to be served, and none is queued.
pub record IsRunning (n left : ℕ) (f : Flight) : Type 0 where
  pub counted : Counted n left f
  pub whole : f.io.base_bdev_io_submitted + left ≡ n
  pub positive : 0 < f.io.base_bdev_io_remaining
  pub idle : f.io.waitq ≡ none
  pub open_ : f.io.completions ≡ []
  pub status : f.io.base_bdev_io_status ≡ status_of (not f.bad)

module _ (n : ℕ) (small : n < 256) (slot : ℕ → Slot) (answer : Child → Rc)
    (give_up : RaidBdevIo → RaidBdevIo)
    (gives_up : (left : ℕ) (f : Flight)
      → IsRunning n (suc left) f
      → Settled n (record f { io = give_up f.io })) where
  running_zero : (f : Flight) → IsRunning n 0 f → Settled n f
  running_zero f r = inr (inl (ground arith))

  -- A slot with no channel counts as a part that has succeeded.
  missing_last :
      (f : Flight)
      → IsRunning n 1 f
      → f.io.base_bdev_io_remaining ≡ 1
      → Settled n (record f { io = (raid_bdev_io_complete_part (count_slot f.io) 1 success).1 })
  missing_last f r e =
      rw (complete_part-last (count_slot f.io) 1 success (sym e) (omega arith))
        (inr (inr (inl (ground arith))))

  missing_more :
      (left : ℕ) (f : Flight)
      → IsRunning n (suc left) f
      → 1 < f.io.base_bdev_io_remaining
      → IsRunning n left
          (record f { io = (raid_bdev_io_complete_part (count_slot f.io) 1 success).1 })
  missing_more left f r e =
      rw (complete_part-more (count_slot f.io) 1 success e (omega arith)) (ground arith)

  accepted :
      (left : ℕ) (f : Flight) (c : Child)
      → IsRunning n (suc left) f
      → IsRunning n left (record f { io = count_slot (accept f.io c) })
  accepted left f c r = ground arith

  queued :
      (left : ℕ) (f : Flight) (i : ℕ)
      → IsRunning n (suc left) f
      → Settled n (record f { io = raid_bdev_queue_io_wait f.io i })
  unfolding raid_bdev_queue_io_wait
  queued left f i r = inl (record {
    counted = ground arith;
    more = omega arith;
    queued = (i, refl);
    open_ = r.open_;
    status = r.status;
  })

  abbrev loop : ℕ → RaidBdevIo → RaidBdevIo
  loop = submit_slots slot answer give_up

  loop_none : (left : ℕ) (io : RaidBdevIo) → left ≡ 0 → loop left io ≡ io
  unfolding submit_slots
  loop_none zero io e = refl
  loop_none (suc left) io e = absurd (omega arith)

  abbrev LoopSettles : ℕ → Type 0
  LoopSettles left =
      (g : Flight) → IsRunning n left g → Settled n (record g { io = loop left g.io })

  on_answer-Settled :
      (left : ℕ) (f : Flight) (c : Child) (a : Rc)
      → LoopSettles left
      → IsRunning n (suc left) f
      → Settled n (record f { io = on_answer give_up (loop left) f.io c a })
  on_answer-Settled left f c ok ih r =
      ih (record f { io = count_slot (accept f.io c) }) (accepted left f c r)
  on_answer-Settled left f c (fail enomem) ih r = queued left f c.idx r
  on_answer-Settled left f c (fail e) ih r = gives_up left f r

  on_missing-Settled :
      (left : ℕ) (f : Flight)
      → LoopSettles left
      → IsRunning n (suc left) f
      → Settled n (record f { io = on_slot slot answer give_up (loop left) f.io missing })
  on_missing-Settled left f ih r = elim (dec_lt 1 f.io.base_bdev_io_remaining) [
    | yes h ↦
        ih (record f { io = (raid_bdev_io_complete_part (count_slot f.io) 1 success).1 })
          (missing_more left f r h)
    | no h ↦ last (omega arith) (omega arith)
  ]
    where
      last :
          left ≡ 0
          → f.io.base_bdev_io_remaining ≡ 1
          → Settled n (record f { io = on_slot slot answer give_up (loop left) f.io missing })
      last e one =
          rw (loop_none left _ e) (missing_last f (subst (λ k. IsRunning n (suc k) f) e r) one)

  on_slot-Settled :
      (left : ℕ) (f : Flight) (s : Slot)
      → LoopSettles left
      → IsRunning n (suc left) f
      → Settled n (record f { io = on_slot slot answer give_up (loop left) f.io s })
  on_slot-Settled left f missing ih r = on_missing-Settled left f ih r
  on_slot-Settled left f (child c) ih r = on_answer-Settled left f c (answer c) ih r

  -- Wherever the loop stops, the request is in one of the four settled states.
  pub submit_slots-Settled : (left : ℕ) → LoopSettles left
  unfolding submit_slots
  submit_slots-Settled zero f r = running_zero f r
  submit_slots-Settled (suc left) f r =
      on_slot-Settled left f (slot f.io.base_bdev_io_submitted) (submit_slots-Settled left) r

-- The two ways to give up.
unfoldable pub complete_failed : RaidBdevIo → RaidBdevIo
unfolding raid_bdev_io_complete
complete_failed io = raid_bdev_io_complete io failed

module _ (n : ℕ) (small : n < 256) where
  -- The request is completed at once.
  pub complete_failed-Settled :
      (left : ℕ) (f : Flight)
      → IsRunning n (suc left) f
      → Settled n (record f { io = complete_failed f.io })
  unfolding complete_failed
  complete_failed-Settled left f r = inr (inr (inr (ground arith)))

  -- The slots that are left are accounted for as failed.
  pub complete_rest-Settled :
      (left : ℕ) (f : Flight)
      → IsRunning n (suc left) f
      → Settled n (record f {
        io = (raid_bdev_io_complete_part f.io (sub64 n f.io.base_bdev_io_submitted) failed).1;
      })
  complete_rest-Settled left f r = elim (dec_lt (suc left) f.io.base_bdev_io_remaining) [
    | yes h ↦
        rw (rest, complete_part-more f.io (suc left) failed h (omega arith))
          (inr (inl (ground arith)))
    | no h ↦
        rw (rest, complete_part-last f.io (suc left) failed (omega arith) (omega arith))
          (inr (inr (inl (ground arith))))
  ]
    where
      rest : sub64 n f.io.base_bdev_io_submitted ≡ suc left
      rest = omega arith

  ended_more :
      (left : ℕ) (f : Flight) (b : Bool)
      → Counted n left f
      → f.done < length f.io.sent
      → 1 < f.io.base_bdev_io_remaining
      → complete_one f.io b ≡ less f.io 1 (status_of b)
  unfolding complete_one
  ended_more left f b c h k =
      ap (λ p. p.1) (complete_part-more f.io 1 (status_of b) k (omega arith))

  ended_last :
      (left : ℕ) (f : Flight) (b : Bool)
      → Counted n left f
      → f.io.base_bdev_io_remaining ≡ 1
      → complete_one f.io b ≡ closed f.io (status_of b)
  unfolding complete_one
  ended_last left f b c e =
      ap (λ p. p.1) (complete_part-last f.io 1 (status_of b) (sym e) (omega arith))

  draining-Settled :
      (f : Flight) (b : Bool)
      → IsDraining n f
      → f.done < length f.io.sent
      → Settled n (record f { io = complete_one f.io b; done = suc f.done; bad = f.bad || not b })
  draining-Settled f b d h = elim (dec_lt 1 f.io.base_bdev_io_remaining) [
    | yes k ↦ rw (ended_more 0 f b d.counted h k) (inr (inl (ground arith)))
    | no k ↦ rw (ended_last 0 f b d.counted (omega arith)) (inr (inr (inl (ground arith))))
  ]

  -- A child that ends keeps the request settled.
  pub complete_one-Settled :
      (f : Flight) (b : Bool)
      → Settled n f
      → f.done < length f.io.sent
      → Settled n (record f { io = complete_one f.io b; done = suc f.done; bad = f.bad || not b })
  complete_one-Settled f b (inl w) h =
      rw (ended_more (n - f.io.base_bdev_io_submitted) f b w.counted h (omega arith)) (
        inl (record {
          counted = ground arith;
          more = w.more;
          queued = w.queued;
          open_ = w.open_;
          status = ground arith;
        }))
  complete_one-Settled f b (inr (inl d)) h = draining-Settled f b d h
  complete_one-Settled f b (inr (inr (inl e))) h = absurd (omega arith)
  complete_one-Settled f b (inr (inr (inr a))) h =
      rw (ended_more (n - f.io.base_bdev_io_submitted) f b a.counted h (omega arith))
        (inr (inr (inr (ground arith))))
