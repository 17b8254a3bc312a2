-- ===== src/Passthru/Life.antt =====
-- vbdev_passthru.c: a request over its whole life: sent, queued for memory and submitted again, ended.
use flex_bso.Common.{
  ℕ, ◌+◌, ◌<◌, ◌≡◌, ◌≢◌, Bool, true, false, if◌then◌else◌, Option, none, some, List, length,
}
use flex_bso.Bdev.{Rc}
use flex_bso.Compression.{Doca}
use flex_bso.Compression.Zlib.{Zlib}
use flex_bso.Compression.Session.{Opening}
use flex_bso.Passthru.Request.{
  PtIo, PtChild, Engine, vbdev_passthru_submit_request, vbdev_passthru_resubmit_io, pt_complete_io,
  pt_complete_zcopy_io, io_zcopy,
}

-- What a request waits for or has been told: its requests below, a queued retry, and its completions.
abbrev pub outstanding : PtIo → ℕ
outstanding io = io.in_flight + (if io.waiting then 1 else 0) + length io.completions

-- Where a step returns, it leaves `n` of these, and no retry is queued before `submitted`.
abbrev Leaves : ℕ → Option (PtIo × Engine) → Type 0
Leaves n none = Unit
Leaves n (some p) = outstanding p.0 ≡ n

abbrev LeavesReady : ℕ → Option (PtIo × Engine) → Type 0
LeavesReady n none = Unit
LeavesReady n (some p) = (outstanding p.0 ≡ n) × (p.0.waiting ≡ false)

module _ (d : Doca) (z : Zlib) (o : Opening) (fuel unset : ℕ) where
  -- Where a step returns, it has changed nothing but the buffers.
  Keeps : PtIo → Option (PtIo × Engine) → Type 0
  Keeps io none = Unit
  Keeps io (some p) =
      (p.0.in_flight ≡ io.in_flight)
      × (p.0.waiting ≡ io.waiting)
      × (p.0.completions ≡ io.completions)

  -- The life of a request: submitted, submitted again when memory for its request below is free, and ended
  -- when that request has ended, which has filled the buffers of a read; a zero-copy request ends in a callback
  -- of its own. The engine may be in any state that other requests have left. A step that polls the engine
  -- for ever, or longer than `fuel` allows, does not return and leads to no further state.
  pub data PtLife (io : PtIo) : PtIo → Type 0 where
    begun :
        (answer : PtChild → Rc) (queued : Rc) (got_buf : Bool) (e e' : Engine) (now : PtIo)
        → vbdev_passthru_submit_request d z o fuel unset answer queued got_buf io e ≡ some (now, e')
        → PtLife io now
    resubmitted :
        (was : PtIo)
        → PtLife io was
        → was.waiting ≡ true
        → (answer : PtChild → Rc) (queued : Rc) (got_buf : Bool) (e e' : Engine) (now : PtIo)
        → vbdev_passthru_resubmit_io d z o fuel unset answer queued got_buf was e ≡ some (now, e')
        → PtLife io now
    ended :
        (was : PtIo)
        → PtLife io was
        → 0 < was.in_flight
        → was.io_type ≢ io_zcopy
        → (good : Bool) (iovs : List (List ℕ)) (e e' : Engine) (now : PtIo)
        → pt_complete_io d z o fuel unset good (record was { iovs = iovs }) e ≡ some (now, e')
        → PtLife io now
    zcopy_ended :
        (was : PtIo)
        → PtLife io was
        → 0 < was.in_flight
        → was.io_type ≡ io_zcopy
        → (good : Bool) (base_iovs : List (List ℕ))
        → PtLife io (pt_complete_zcopy_io good base_iovs was)
