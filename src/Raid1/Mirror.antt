-- ===== src/Raid1/Mirror.antt =====
-- A mirrored write of raid/raid1.c over its whole life.
use flex_bso.Common.{
  ℕ, ◌<◌, ◌≡◌, refl, subst, false, ◌∷◌, [], arith, length, sub64, add64, ◌∙◌, get_or, if◌then◌else◌,
}
use mathlib.Core.Path.{fun_ext}
use flex_bso.Bdev.{IoType, write, failed, success, Rc, ok, Child, BdevIo}
use flex_bso.RaidBdev.{
  RaidBdev, RaidBdevIo, RaidBdevIoChannel, base_info, raid_bdev_writev_blocks_ext,
}
use flex_bso.Fanout.{missing, child}
use flex_bso.Fanout.Sent.{sent_where, sent_below-where}
use flex_bso.Fanout.Accounting.{Flight, complete_rest-Settled}
use flex_bso.Fanout.Life.{Life, Outcome, IsInOrder, part-sent, part-submitted}
use flex_bso.Fanout.Handler.{serve, Serves, serve-Outcome, serve-success}
use flex_bso.Raid1.{
  Raid1IoChannel, write_slot, write_begin, write_give_up, raid1_submit_write_request,
  raid1_submit_rw_request, finish_rw, rw_request,
}

module _ (r : RaidBdev) (ch : RaidBdevIoChannel) (b : BdevIo) (r1 : Raid1IoChannel)
    (positive : 0 < r.num_base_bdevs) (small : r.num_base_bdevs < 256) where
  abbrev n : ℕ
  n = r.num_base_bdevs

  keeps_order :
      (io : RaidBdevIo)
      → IsInOrder (write_slot r ch b) io
      → IsInOrder (write_slot r ch b) (write_give_up r ch b io)
  keeps_order io o =
      rw
        (
          part-sent io (sub64 n io.base_bdev_io_submitted) failed,
          part-submitted io (sub64 n io.base_bdev_io_submitted) failed,
        )
        o

  write-Serves : Serves n (write_slot r ch b) (write_give_up r ch b) (write_begin r ch b)
  write-Serves = record {
    small = small;
    positive = positive;
    gives_up = complete_rest-Settled n small;
    keeps_order = keeps_order;
    begins = refl;
    resumes = λ f w. ground arith;
  }

  -- The handler of one write, as the callbacks call it.
  abbrev pub write_handler : (Child → Rc) → RaidBdevIo → RaidBdevIo
  write_handler answer io = (raid1_submit_rw_request r ch b answer io r1).0

  served : (Child → Rc) → RaidBdevIo → RaidBdevIo
  served = serve n (write_slot r ch b) (write_give_up r ch b) (write_begin r ch b)

  -- With a base bdev in the array the code -ENODEV is never returned.
  write_returns_ok :
      (answer : Child → Rc) (io : RaidBdevIo)
      → raid1_submit_write_request r ch b answer io ≡ (ok, served answer io)
  unfolding raid1_submit_write_request served
  write_returns_ok answer io = ground (arith, positive)

  rw_request-served :
      (t : IoType)
      → t ≡ write
      → (answer : Child → Rc) (io : RaidBdevIo)
      → (finish_rw r ch b (rw_request r ch b t answer io r1)).0 ≡ served answer io
  rw_request-served write e answer io = rw (write_returns_ok answer io)
  rw_request-served t e answer io = cc

  write_handler-served : b.io_type ≡ write → write_handler ≡ served
  unfolding raid1_submit_rw_request
  write_handler-served e = fun_ext λ answer. fun_ext λ io. rw_request-served b.io_type e answer io

  -- With 1 to 255 base bdevs, a mirrored write is never completed twice; once no retry is queued and
  -- every child has ended it has been completed, as a success exactly if every slot was served and
  -- no child failed.
  pub raid1_write-Outcome : b.io_type ≡ write → {f : Flight} → Life write_handler f → Outcome n f
  unfolding served
  raid1_write-Outcome e {f} l =
      serve-Outcome n _ _ _ write-Serves (subst (λ h. Life h f) (write_handler-served e) l)

  -- The write that base bdev `i` gets: the caller's blocks and buffers, shifted by its data offset.
  abbrev pub mirrored_write : ℕ → Child
  mirrored_write i = record {
    kind = write;
    idx = i;
    lba = add64 (base_info r i).data_offset b.offset_blocks;
    blocks = b.num_blocks;
    iovs = b.iovs;
  }

  mirrored_slot :
      (i : ℕ)
      → write_slot r ch b i
        ≡ (if get_or ch.base_channel i false then child (mirrored_write i) else missing)
  unfolding raid_bdev_writev_blocks_ext
  mirrored_slot i = refl

  -- With 1 to 255 base bdevs, when a mirrored write reports success, no child has failed and none is
  -- in flight, and the children sent are one for each base bdev that has a channel, in slot order: a write
  -- of the caller's blocks from the caller's buffers, at the caller's offset behind the start of the base
  -- bdev's data.
  pub raid1_write-success :
      b.io_type ≡ write
      → {f : Flight} → Life write_handler f
      → f.io.completions ≡ success ∷ []
      → (f.bad ≡ false)
        × (f.done ≡ length f.io.sent)
        × (f.io.sent ≡ sent_where (λ i. get_or ch.base_channel i false) mirrored_write n)
  unfolding served
  raid1_write-success e {f} l done =
      let s =
        serve-success n _ _ _ write-Serves (subst (λ h. Life h f) (write_handler-served e) l)
          done in
      (
        s.0,
        s.1,
        s.2
            ∙ sent_below-where (write_slot r ch b) (λ i. get_or ch.base_channel i false)
                mirrored_write n (λ i h. mirrored_slot i),
      )
