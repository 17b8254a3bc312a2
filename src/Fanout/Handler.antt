-- ===== src/Fanout/Handler.antt =====
-- The handlers that consist of the loop alone: set the counter, then serve the slots from
-- `base_bdev_io_submitted` on. They settle, and they send their children in order.
use flex_bso.Common.{ℕ, suc, ◌+◌, ◌-◌, ◌<◌, ◌≡◌, refl, ap, ◌∙◌, [], ◌∷◌, length, arith, none, false}
use flex_bso.Bdev.{Rc, Child, success}
use flex_bso.RaidBdev.{RaidBdevIo, fresh_io}
use flex_bso.Fanout.{Slot, submit_slots}
use flex_bso.Fanout.Accounting.{Flight, Settled, IsWaiting, IsRunning, submit_slots-Settled}
use flex_bso.Fanout.Life.{
  Life, Settles, Life-Settled, Outcome, Settled-Outcome, Settled-success, sent_below, IsInOrder,
  submit_slots-IsInOrder, Life-IsInOrder,
}

-- `begin` sets `base_bdev_io_remaining`; `n` slots are to be served.
abbrev pub serve :
    (n : ℕ) (slot : ℕ → Slot) (give_up begin : RaidBdevIo → RaidBdevIo)
    → (Child → Rc)
    → RaidBdevIo
    → RaidBdevIo
serve n slot give_up begin answer io =
    submit_slots slot answer give_up (n - (begin io).base_bdev_io_submitted) (begin io)

module _ (n : ℕ) (slot : ℕ → Slot) (give_up begin : RaidBdevIo → RaidBdevIo) where
  -- What the two parameters of such a handler have to show.
  pub record Serves : Type 0 where
    pub small : n < 256
    pub positive : 0 < n
    pub gives_up :
        (left : ℕ) (f : Flight)
        → IsRunning n (suc left) f
        → Settled n (record f { io = give_up f.io })
    pub keeps_order : (io : RaidBdevIo) → IsInOrder slot io → IsInOrder slot (give_up io)
    pub begins : begin fresh_io ≡ record fresh_io { base_bdev_io_remaining = n }
    pub resumes :
        (f : Flight)
        → IsWaiting n f
        → begin (record f.io { waitq = none }) ≡ record f.io { waitq = none }

  abbrev handler : (Child → Rc) → RaidBdevIo → RaidBdevIo
  handler = serve n slot give_up begin

  serve-starts :
      Serves
      → (answer : Child → Rc)
      → Settled n (record { io = handler answer fresh_io; done = 0; bad = false })
  serve-starts s answer = rw s.begins (
      submit_slots-Settled n s.small slot answer give_up s.gives_up (n - 0)
        (record { io = record fresh_io { base_bdev_io_remaining = n }; done = 0; bad = false })
        (ground (arith, s.positive)))

  serve-retries :
      Serves
      → (answer : Child → Rc) (f : Flight) → IsWaiting n f
      → Settled n (record f { io = handler answer (record f.io { waitq = none }) })
  serve-retries s answer f w = rw (s.resumes f w) (
      submit_slots-Settled n s.small slot answer give_up s.gives_up
        (n - f.io.base_bdev_io_submitted) (record f { io = record f.io { waitq = none } })
        (ground (arith, s.positive)))

  pub serve-Settles : Serves → Settles n handler
  serve-Settles s = record { small = s.small; starts = serve-starts s; retries = serve-retries s }

  pub serve-Outcome : Serves → {f : Flight} → Life handler f → Outcome n f
  serve-Outcome s {f} l = Settled-Outcome n f (Life-Settled n handler (serve-Settles s) l)

  pub serve-IsInOrder : Serves → {f : Flight} → Life handler f → IsInOrder slot f.io
  serve-IsInOrder s =
      Life-IsInOrder n handler slot (serve-Settles s)
        (λ answer.
          rw s.begins
            (submit_slots-IsInOrder slot answer give_up s.keeps_order (n - 0) _ (bound s) refl))
        (λ answer f w o.
          rw (s.resumes f w)
            (submit_slots-IsInOrder slot answer give_up s.keeps_order _ _ (bound' s f w) o))
    where
      bound : Serves → 0 + (n - 0) < 256
      bound s = let h : n < 256 = s.small in omega arith

      bound' :
          Serves
          → (f : Flight) → IsWaiting n f
          → f.io.base_bdev_io_submitted + (n - f.io.base_bdev_io_submitted) < 256
      bound' s f w = let h : n < 256 = s.small in omega arith

  -- A success is reported only when every slot has been served, every child sent has ended, and none
  -- of them failed; the children sent are those of all `n` slots.
  pub serve-success :
      Serves
      → {f : Flight} → Life handler f
      → f.io.completions ≡ success ∷ []
      → (f.bad ≡ false) × (f.done ≡ length f.io.sent) × (f.io.sent ≡ sent_below slot n)
  serve-success s {f} l e = (p.0, p.2, serve-IsInOrder s l ∙ ap (sent_below slot) p.1)
    where
      p : (f.bad ≡ false) × (f.io.base_bdev_io_submitted ≡ n) × (f.done ≡ length f.io.sent)
      p = Settled-success n f (Life-Settled n handler (serve-Settles s) l) e
