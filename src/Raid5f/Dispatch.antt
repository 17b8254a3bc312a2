-- ===== src/Raid5f/Dispatch.antt =====
-- raid/raid5f.c: what the submission of a read or a write leads to.
use flex_bso.Common.{
  ℕ, suc, ◌+◌, ◌≡◌, ◌≢◌, refl, ◌⊎◌, inl, inr, true, false, some, ◌/◌, ◌%◌, get_or, arith,
}
use flex_bso.Bdev.{read, write, Rc, ok, fail, Errno, BdevIo}
use flex_bso.RaidBdev.{RaidBdev, RaidBdevIoChannel, accept}
use flex_bso.Raid5f.{Raid5fInfo, ReadPlace, read_place, StripeIo}
use flex_bso.Raid5f.Requests.{Surroundings, R5Run, chunk_read_child}

module _ (r : RaidBdev) (ch : RaidBdevIoChannel) (b : BdevIo) (w : Surroundings) where
  -- One of the channel's stripe requests for reconstructions was taken, and is back if it was released; nothing
  -- else of the channel has changed.
  abbrev TakesReconstruct : R5Run → R5Run → Type 0
  TakesReconstruct run after =
      (after.free_write ≡ run.free_write)
      × ((s : StripeIo) × (after.stripe ≡ some s)
          × (after.io ≡ s.io)
          × (run.free_reconstruct + s.releases ≡ suc after.free_reconstruct))

  abbrev TakesWrite : R5Run → R5Run → Type 0
  TakesWrite run after =
      (after.free_reconstruct ≡ run.free_reconstruct)
      × ((s : StripeIo) × (after.stripe ≡ some s)
          × (after.io ≡ s.io)
          × (run.free_write + s.releases ≡ suc after.free_write))

  -- A read of the chunk itself at `p`: sent, or queued until its base bdev has memory.
  abbrev ReadsAt : ReadPlace → R5Run → R5Run → Type 0
  ReadsAt p run after =
      (get_or ch.base_channel p.base false ≡ true)
      × ((after ≡ record run { io = accept run.io (chunk_read_child r ch b w p) })
          ⊎ (after ≡ record run { io = record run.io { waitq = some p.base } }))

  -- Where a request goes, if it is not refused.
  abbrev pub IsPlaced : Raid5fInfo → R5Run → R5Run → Type 0
  IsPlaced info run after =
      ((b.io_type ≡ read)
        × (ReadsAt
              (read_place r (b.offset_blocks / info.stripe_blocks)
                (b.offset_blocks % info.stripe_blocks))
              run after
            ⊎ ((get_or ch.base_channel
                    (read_place r (b.offset_blocks / info.stripe_blocks)
                      (b.offset_blocks % info.stripe_blocks)).base
                    false
                  ≡ false)
                × TakesReconstruct run after)))
      ⊎ ((b.io_type ≡ write) × TakesWrite run after)

  -- The result of a function that may refuse: nothing has changed then.
  abbrev Tries : R5Run → (R5Run → Type 0) → Rc × R5Run → Type 0
  Tries run P p = ((p.0 ≢ ok) × (p.1 ≡ run)) ⊎ ((p.0 ≡ ok) × P p.1)

  refused : (run : R5Run) (P : R5Run → Type 0) (e : Errno) → Tries run P (fail e, run)
  refused run P e = inl (ground arith, refl)

  module _ (info : Raid5fInfo) where
    abbrev stripe_index : ℕ
    stripe_index = b.offset_blocks / info.stripe_blocks

    abbrev stripe_offset : ℕ
    stripe_offset = b.offset_blocks % info.stripe_blocks

    abbrev place : ReadPlace
    place = read_place r stripe_index stripe_offset

    placed :
        (run : R5Run) (P : R5Run → Type 0) (x : Rc × R5Run)
        → Tries run P x
        → ((after : R5Run) → P after → IsPlaced info run after)
        → Tries run (IsPlaced info run) x
    placed run P x (inl h) f = inl h
    placed run P x (inr h) f = inr (h.0, f x.1 h.1)
