-- ===== src/Fanout/Life.antt =====
-- The life of a split request: a handler that submits it, its retries, and its children's ends.
use flex_bso.Common.{
  ℕ, zero, suc, ◌+◌, ◌≤◌, ◌<◌, ◌≡◌, refl, ap, inl, inr, Bool, false, not, ◌&&◌, ◌||◌, ◌==◌, none,
  some, List, [], ◌∷◌, arith, length, u8,
}
use flex_bso.Bdev.{Rc, ok, fail, enomem, IoStatus, success, Child, status_of}
use flex_bso.RaidBdev.{
  RaidBdevIo, fresh_io, raid_bdev_io_complete_part, raid_bdev_queue_io_wait, complete_one, accept,
}
use flex_bso.Fanout.{Slot, missing, child, submit_slots, on_slot, on_answer, count_slot}
use flex_bso.Fanout.Accounting.{Flight, Settled, IsWaiting, complete_one-Settled}

-- The handler runs at the start and again at each retry, with whatever answers the layer below
-- gives; any child in flight may end at any time, well or badly.
pub data Life (handler : (Child → Rc) → RaidBdevIo → RaidBdevIo) : Flight → Type 0 where
  start :
      (answer : Child → Rc)
      → Life handler (record { io = handler answer fresh_io; done = 0; bad = false })
  retry :
      {f : Flight}
      → Life handler f
      → (i : ℕ) → f.io.waitq ≡ some i
      → (answer : Child → Rc)
      → Life handler (record f { io = handler answer (record f.io { waitq = none }) })
  end :
      {f : Flight}
      → Life handler f
      → f.done < length f.io.sent
      → (b : Bool)
      → Life handler
          (record f { io = complete_one f.io b; done = suc f.done; bad = f.bad || not b })

module _ (n : ℕ) (handler : (Child → Rc) → RaidBdevIo → RaidBdevIo) where
  -- What a handler has to show.
  pub record Settles : Type 0 where
    pub small : n < 256
    pub starts :
        (answer : Child → Rc)
        → Settled n (record { io = handler answer fresh_io; done = 0; bad = false })
    pub retries :
        (answer : Child → Rc) (f : Flight)
        → IsWaiting n f
        → Settled n (record f { io = handler answer (record f.io { waitq = none }) })

  pub queued-IsWaiting : {f : Flight} (i : ℕ) → Settled n f → f.io.waitq ≡ some i → IsWaiting n f
  queued-IsWaiting i (inl w) e = w
  queued-IsWaiting i (inr (inl d)) e = absurd (cc d.idle)
  queued-IsWaiting i (inr (inr (inl d))) e = absurd (cc d.idle)
  queued-IsWaiting i (inr (inr (inr d))) e = absurd (cc d.idle)

  -- Every handler that settles keeps the request settled for its whole life.
  pub Life-Settled : Settles → {f : Flight} → Life handler f → Settled n f
  Life-Settled h (start answer) = h.starts answer
  Life-Settled h (retry {f} l i e answer) =
      h.retries answer f (queued-IsWaiting i (Life-Settled h l) e)
  Life-Settled h (end {f} l more b) = complete_one-Settled n h.small f b (Life-Settled h l) more

-- The request is never completed twice; and when no retry is queued and every child that was sent
-- has ended, it has been completed, as a success exactly if all slots were served and no child
-- failed.
pub record Outcome (n : ℕ) (f : Flight) : Type 0 where
  pub at_most_once : length f.io.completions ≤ 1
  pub reported :
      f.io.waitq ≡ none
      → f.done ≡ length f.io.sent
      → f.io.completions ≡ status_of (not f.bad && f.io.base_bdev_io_submitted == n) ∷ []

pub Settled-Outcome : (n : ℕ) (f : Flight) → Settled n f → Outcome n f
Settled-Outcome n f (inl w) = record {
  at_most_once = ground arith;
  reported = λ e _. absurd (cc (w.queued.1));
}
Settled-Outcome n f (inr (inl d)) = record {
  at_most_once = ground arith;
  reported = λ _ e. absurd (omega arith);
}
Settled-Outcome n f (inr (inr (inl e))) = record {
  at_most_once = ground arith;
  reported = λ _ _. e.reported;
}
Settled-Outcome n f (inr (inr (inr a))) = record {
  at_most_once = ground arith;
  reported = λ _ _. ground arith;
}

pub Settled-success :
    (n : ℕ) (f : Flight)
    → Settled n f
    → f.io.completions ≡ success ∷ []
    → (f.bad ≡ false) × (f.io.base_bdev_io_submitted ≡ n) × (f.done ≡ length f.io.sent)
Settled-success n f (inl w) e = ground arith
Settled-success n f (inr (inl d)) e = ground arith
Settled-success n f (inr (inr (inl d))) e = ground arith
Settled-success n f (inr (inr (inr a))) e = ground arith

pub part-sent :
    (io : RaidBdevIo) (completed : ℕ) (status : IoStatus)
    → (raid_bdev_io_complete_part io completed status).1.sent ≡ io.sent
unfolding raid_bdev_io_complete_part
part-sent io completed status = ground arith

pub part-submitted :
    (io : RaidBdevIo) (completed : ℕ) (status : IoStatus)
    → (raid_bdev_io_complete_part io completed status).1.base_bdev_io_submitted
      ≡ io.base_bdev_io_submitted
unfolding raid_bdev_io_complete_part
part-submitted io completed status = ground arith

-- What the loop sends: the children of the slots below `k`, newest first.
module _ (slot : ℕ → Slot) where
  abbrev pub sent_slot : Slot → List Child → List Child
  sent_slot missing cs = cs
  sent_slot (child c) cs = c ∷ cs

  abbrev pub sent_below : ℕ → List Child
  sent_below zero = []
  sent_below (suc k) = sent_slot (slot k) (sent_below k)

  abbrev pub IsInOrder : RaidBdevIo → Type 0
  IsInOrder io = io.sent ≡ sent_below io.base_bdev_io_submitted

  -- Counting a slot keeps the order if the slot's child, if any, has been sent.
  count_slot-IsInOrder :
      (io : RaidBdevIo) (s : Slot) (cs : List Child)
      → io.base_bdev_io_submitted < 255
      → slot io.base_bdev_io_submitted ≡ s
      → IsInOrder io
      → cs ≡ sent_slot s io.sent
      → cs ≡ sent_below (u8 (io.base_bdev_io_submitted + 1))
  count_slot-IsInOrder io s cs h e o p =
      rw (p, o, ← e) (ap sent_below (step io.base_bdev_io_submitted h))
    where
      step : (k : ℕ) → k < 255 → suc k ≡ u8 (k + 1)
      step k h = omega arith

  module _ (answer : Child → Rc) (give_up : RaidBdevIo → RaidBdevIo)
      (gives_up : (io : RaidBdevIo) → IsInOrder io → IsInOrder (give_up io)) where
    abbrev InOrderFrom : ℕ → Type 0
    InOrderFrom left =
        (io : RaidBdevIo)
        → io.base_bdev_io_submitted + left < 256
        → IsInOrder io
        → IsInOrder (submit_slots slot answer give_up left io)

    on_answer-IsInOrder :
        (left : ℕ) (io : RaidBdevIo) (c : Child) (a : Rc)
        → InOrderFrom left
        → io.base_bdev_io_submitted + suc left < 256
        → slot io.base_bdev_io_submitted ≡ child c
        → IsInOrder io
        → IsInOrder (on_answer give_up (submit_slots slot answer give_up left) io c a)
    unfolding raid_bdev_queue_io_wait
    on_answer-IsInOrder left io c ok ih h e o =
        ih (count_slot (accept io c)) (omega arith)
          (count_slot-IsInOrder io (child c) _ (omega arith) e o refl)
    on_answer-IsInOrder left io c (fail enomem) ih h e o = o
    on_answer-IsInOrder left io c (fail e') ih h e o = gives_up io o

    on_slot-IsInOrder :
        (left : ℕ) (io : RaidBdevIo) (s : Slot)
        → InOrderFrom left
        → io.base_bdev_io_submitted + suc left < 256
        → slot io.base_bdev_io_submitted ≡ s
        → IsInOrder io
        → IsInOrder (on_slot slot answer give_up (submit_slots slot answer give_up left) io s)
    on_slot-IsInOrder left io missing ih h e o =
        ih _ (rw (part-submitted (count_slot io) 1 success) (omega arith)) (
          rw (part-sent (count_slot io) 1 success, part-submitted (count_slot io) 1 success)
            (count_slot-IsInOrder io missing _ (omega arith) e o refl))
    on_slot-IsInOrder left io (child c) ih h e o = on_answer-IsInOrder left io c (answer c) ih h e o

    -- The loop sends the children of its slots in order, each once and none left out.
    pub submit_slots-IsInOrder : (left : ℕ) → InOrderFrom left
    unfolding submit_slots
    submit_slots-IsInOrder zero io h o = o
    submit_slots-IsInOrder (suc left) io h o =
        on_slot-IsInOrder left io (slot io.base_bdev_io_submitted) (submit_slots-IsInOrder left) h
          refl o

-- The order holds for a whole life, if the handler keeps it.
pub Life-IsInOrder :
    (n : ℕ) (handler : (Child → Rc) → RaidBdevIo → RaidBdevIo) (slot : ℕ → Slot)
    → Settles n handler
    → ((answer : Child → Rc) → IsInOrder slot (handler answer fresh_io))
    → ((answer : Child → Rc) (f : Flight)
        → IsWaiting n f
        → IsInOrder slot f.io
        → IsInOrder slot (handler answer (record f.io { waitq = none })))
    → {f : Flight} → Life handler f
    → IsInOrder slot f.io
unfolding complete_one
Life-IsInOrder n handler slot h starts retries (start answer) = starts answer
Life-IsInOrder n handler slot h starts retries (retry {f} l i e answer) =
    retries answer f (queued-IsWaiting n handler i (Life-Settled n handler h l) e)
      (Life-IsInOrder n handler slot h starts retries l)
Life-IsInOrder n handler slot h starts retries (end {f} l more b) =
    rw (part-sent f.io 1 (status_of b), part-submitted f.io 1 (status_of b), complete_one)
      (Life-IsInOrder n handler slot h starts retries l)
