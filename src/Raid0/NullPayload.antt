-- ===== src/Raid0/NullPayload.antt =====
-- Unmaps and flushes of raid/raid0.c over their whole life.
use flex_bso.Fanout.{child}
use flex_bso.Fanout.Sent.{sent_where, sent_below-where}
use native.Mathlib.Nat.{mod-add-mod}
use flex_bso.Common.{
  ◌+◌, ◌-◌, ◌/◌, ◌%◌, ◌∙◌, min, add64, true, ℕ, ap, ◌<◌, ◌≡◌, ◌⊎◌, inl, inr, refl, subst, false,
  ◌∷◌, [], arith, length,
}
use mathlib.Core.Path.{fun_ext}
use flex_bso.Bdev.{IoType, unmap, flush, Rc, Child, BdevIo, success}
use flex_bso.RaidBdev.{
  RaidBdev, RaidBdevIo, raid_bdev_io_complete, base_info, raid_bdev_unmap_blocks,
  raid_bdev_flush_blocks,
}
use flex_bso.Fanout.Accounting.{Flight, complete_failed, complete_failed-Settled}
use flex_bso.Fanout.Life.{Life, Outcome}
use flex_bso.Fanout.Handler.{serve, Serves, serve-Outcome, serve-success}
use flex_bso.Raid0.{
  io_range, DiskRange, slot_disk, null_child, raid0_split_io_range, null_slot, null_begin,
  null_give_up, null_answer, raid0_submit_null_payload_request,
}
use flex_bso.Raid0.Geometry.{IsRange}
use flex_bso.Raid0.Pieces.{get_io_range_value, plain}

module _ (r : RaidBdev) (b : BdevIo)
    (v : IsRange r.num_base_bdevs r.strip_size r.strip_size_shift b.offset_blocks
      b.num_blocks) where
  abbrev n : ℕ
  n = (io_range r b).n_disks_involved

  n_value :
      n
      ≡ (plain r.num_base_bdevs r.strip_size r.strip_size_shift b.offset_blocks b.num_blocks
          v).n_disks_involved
  n_value =
      ap (λ g. g.n_disks_involved)
        (get_io_range_value r.num_base_bdevs r.strip_size r.strip_size_shift b.offset_blocks
          b.num_blocks v)

  n-small : n < 256
  n-small = rw n_value (omega (arith, v.few_bdevs))

  n-positive : 0 < n
  n-positive = rw n_value (omega (arith, v.some_bdevs))

  null-Serves : Serves n (null_slot r b) (null_give_up r b) (null_begin r b)
  unfolding complete_failed raid_bdev_io_complete
  null-Serves = record {
    small = n-small;
    positive = n-positive;
    gives_up = complete_failed-Settled n n-small;
    keeps_order = λ io o. o;
    begins = refl;
    resumes = λ f w. ground arith;
  }

  -- The handler of one unmap or flush, as the callbacks call it.
  abbrev pub null_handler : (Child → Rc) → RaidBdevIo → RaidBdevIo
  null_handler = raid0_submit_null_payload_request r b

  served : (Child → Rc) → RaidBdevIo → RaidBdevIo
  served = serve n (null_slot r b) (null_give_up r b) (null_begin r b)

  same_answer :
      (t : IoType)
      → (t ≡ unmap) ⊎ (t ≡ flush)
      → (answer : Child → Rc) → null_answer r b t answer ≡ answer
  same_answer unmap h answer = refl
  same_answer flush h answer = refl
  same_answer t h answer = elim h [ inl e ↦ absurd (cc) | inr e ↦ absurd (cc) ]

  null_handler-served : (b.io_type ≡ unmap) ⊎ (b.io_type ≡ flush) → null_handler ≡ served
  unfolding raid0_submit_null_payload_request served
  null_handler-served h = fun_ext λ answer. fun_ext λ io.
      ap (λ a. serve n (null_slot r b) (null_give_up r b) (null_begin r b) a io)
        (same_answer b.io_type h answer)

  -- For an array with 1 to 255 base bdevs, a strip size below 2^32 that is 2 to the power of the
  -- shift, and a range that is not empty and ends below block 2^64: an unmap or a flush of the range
  -- is never completed twice; once no retry is queued and every child has ended it has been
  -- completed, as a success exactly if every base bdev involved was served and no child failed.
  pub raid0_null-Outcome :
      (b.io_type ≡ unmap) ⊎ (b.io_type ≡ flush) → {f : Flight} → Life null_handler f → Outcome n f
  unfolding served
  raid0_null-Outcome h {f} l =
      serve-Outcome n _ _ _ null-Serves (subst (λ g. Life g f) (null_handler-served h) l)

  -- The `k`-th base bdev from the one that holds the first strip on.
  abbrev pub kth_disk : ℕ → ℕ
  kth_disk k = (b.offset_blocks / r.strip_size + k) % r.num_base_bdevs

  -- As many base bdevs as the range has strips, or all.
  abbrev pub disks : ℕ
  disks =
      min ((b.offset_blocks + b.num_blocks - 1) / r.strip_size - b.offset_blocks / r.strip_size + 1)
        r.num_base_bdevs

  abbrev pub disk_child : ℕ → Child
  disk_child k = record {
    kind = b.io_type;
    idx = kth_disk k;
    lba =
        add64 (base_info r (kth_disk k)).data_offset
          (raid0_split_io_range (io_range r b) (kth_disk k)).offset_in_disk;
    blocks = (raid0_split_io_range (io_range r b) (kth_disk k)).nblocks_in_disk;
    iovs = [];
  }

  abbrev child_at : ℕ → Child
  child_at d = record {
    kind = b.io_type;
    idx = d;
    lba = add64 (base_info r d).data_offset (raid0_split_io_range (io_range r b) d).offset_in_disk;
    blocks = (raid0_split_io_range (io_range r b) d).nblocks_in_disk;
    iovs = [];
  }

  same_disk : (k : ℕ) → slot_disk r b k ≡ kth_disk k
  same_disk k =
      ap (λ g. (g.start_disk + k) % r.num_base_bdevs)
        (get_io_range_value r.num_base_bdevs r.strip_size r.strip_size_shift b.offset_blocks
          b.num_blocks v)
      ∙ mod-add-mod (b.offset_blocks / r.strip_size) r.num_base_bdevs k

  same_child :
      (t : IoType) (d : ℕ) (p : DiskRange)
      → (t ≡ unmap) ⊎ (t ≡ flush)
      → null_child r b t d p ≡ record {
        kind = t;
        idx = d;
        lba = add64 (base_info r d).data_offset p.offset_in_disk;
        blocks = p.nblocks_in_disk;
        iovs = [];
      }
  unfolding raid_bdev_unmap_blocks raid_bdev_flush_blocks
  same_child unmap d p h = refl
  same_child flush d p h = refl
  same_child t d p h = elim h [ inl e ↦ absurd (cc) | inr e ↦ absurd (cc) ]

  -- For an array with 1 to 255 base bdevs, a strip size below 2^32 that is 2 to the power of the
  -- shift, and a range that is not empty and ends below block 2^64: when an unmap or a flush of the
  -- range reports success, no child has failed, none is in flight, and the children sent are of its kind,
  -- one for each of the base bdevs from the one of the first strip on, as many as the range has strips but
  -- no more than all, each for the piece that `_raid0_split_io_range` gives, behind the start of the data.
  pub raid0_null-success :
      (b.io_type ≡ unmap) ⊎ (b.io_type ≡ flush)
      → {f : Flight} → Life null_handler f
      → f.io.completions ≡ success ∷ []
      → (f.bad ≡ false)
        × (f.done ≡ length f.io.sent)
        × (f.io.sent ≡ sent_where (λ k. true) disk_child disks)
  unfolding served
  raid0_null-success h {f} l e =
      let s =
        serve-success n _ _ _ null-Serves (subst (λ g. Life g f) (null_handler-served h) l) e in
      (
        s.0,
        s.1,
        s.2
            ∙ sent_below-where (null_slot r b) (λ k. true) disk_child n
                (λ k q.
                  ap child (same_child b.io_type (slot_disk r b k) _ h ∙ ap child_at (same_disk k)))
            ∙ ap (sent_where (λ k. true) disk_child) n_value,
      )
