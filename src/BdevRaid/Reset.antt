-- ===== src/BdevRaid/Reset.antt =====
-- A reset of raid/bdev_raid.c over its whole life.
use flex_bso.Common.{ℕ, ◌<◌, ◌≡◌, refl, subst, false, ◌∷◌, [], arith, length, ◌∙◌, get_or}
use mathlib.Core.Path.{fun_ext}
use flex_bso.Bdev.{reset, Rc, Child, success}
use flex_bso.Fanout.Sent.{sent_where, sent_below-where}
use flex_bso.RaidBdev.{RaidBdev, RaidBdevIo, RaidBdevIoChannel, raid_bdev_io_complete}
use flex_bso.Fanout.Accounting.{Flight, complete_failed, complete_failed-Settled}
use flex_bso.Fanout.Life.{Life, Outcome}
use flex_bso.Fanout.Handler.{serve, Serves, serve-Outcome, serve-success}
use flex_bso.BdevRaid.{reset_slot, reset_begin, reset_give_up, raid_bdev_submit_reset_request}

module _ (r : RaidBdev) (ch : RaidBdevIoChannel) (positive : 0 < r.num_base_bdevs)
    (small : r.num_base_bdevs < 256) where
  abbrev n : ℕ
  n = r.num_base_bdevs

  reset-Serves : Serves n (reset_slot r ch) (reset_give_up r ch) (reset_begin r ch)
  unfolding complete_failed raid_bdev_io_complete
  reset-Serves = record {
    small = small;
    positive = positive;
    gives_up = complete_failed-Settled n small;
    keeps_order = λ io o. o;
    begins = refl;
    resumes = λ f w. ground arith;
  }

  served : (Child → Rc) → RaidBdevIo → RaidBdevIo
  served = serve n (reset_slot r ch) (reset_give_up r ch) (reset_begin r ch)

  handler-served : raid_bdev_submit_reset_request r ch ≡ served
  unfolding raid_bdev_submit_reset_request served
  handler-served = fun_ext λ answer. fun_ext λ io. refl

  -- With 1 to 255 base bdevs, a reset is never completed twice; once no retry is queued and every
  -- child has ended it has been completed, as a success exactly if every base bdev was served and no
  -- child failed.
  pub raid_bdev_reset-Outcome :
      {f : Flight} → Life (raid_bdev_submit_reset_request r ch) f → Outcome n f
  unfolding served
  raid_bdev_reset-Outcome {f} l =
      serve-Outcome n _ _ _ reset-Serves (subst (λ h. Life h f) handler-served l)

  abbrev pub base_reset : ℕ → Child
  base_reset i = record { kind = reset; idx = i; lba = 0; blocks = 0; iovs = [] }

  -- With 1 to 255 base bdevs, when a reset reports success, no child has failed, none is in flight,
  -- and the children sent are one reset of each base bdev that has a channel, in slot order.
  pub raid_bdev_reset-success :
      {f : Flight}
      → Life (raid_bdev_submit_reset_request r ch) f
      → f.io.completions ≡ success ∷ []
      → (f.bad ≡ false)
        × (f.done ≡ length f.io.sent)
        × (f.io.sent ≡ sent_where (λ i. get_or ch.base_channel i false) base_reset n)
  unfolding served
  raid_bdev_reset-success {f} l e =
      let s = serve-success n _ _ _ reset-Serves (subst (λ h. Life h f) handler-served l) e in
      (
        s.0,
        s.1,
        s.2
            ∙ sent_below-where (reset_slot r ch) (λ i. get_or ch.base_channel i false) base_reset n
                (λ i h. refl),
      )
