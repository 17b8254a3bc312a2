-- ===== src/Concat/NullPayload.antt =====
-- Unmaps and flushes of raid/concat.c over their whole life.
use flex_bso.Common.{
  ap, subst, ℕ, ◌+◌, ◌-◌, ◌≤◌, ◌<◌, ◌≡◌, ◌⊎◌, ◌∙◌, inl, inr, refl, List, [], ◌∷◌, some, none, false,
  arith, u64_mod, length, add64, true,
}
use mathlib.Core.Path.{fun_ext}
use flex_bso.Bdev.{IoType, unmap, flush, success, Rc, BdevIo, Child}
use flex_bso.RaidBdev.{
  RaidBdev, RaidBdevIo, raid_bdev_io_complete, base_info, raid_bdev_unmap_blocks,
  raid_bdev_flush_blocks,
}
use flex_bso.Fanout.Accounting.{Flight, complete_failed, complete_failed-Settled}
use flex_bso.Fanout.Life.{Life, Outcome, sent_below}
use flex_bso.Fanout.Handler.{serve, Serves, serve-Outcome, serve-success}
use flex_bso.Concat.{
  ConcatBlockRange, Walk, pd_lba, pd_blocks, null_child, whole_range, find_bounds, null_answer,
  null_give_up, null_begin, between, concat_submit_null_payload_request,
}
use flex_bso.Concat.Layout.{IsConcat}
use flex_bso.Concat.Pieces.{walked}
use flex_bso.Fanout.{child}
use flex_bso.Fanout.Sent.{sent_where, sent_below-where}
use flex_bso.Concat.Extent.{Extends, left_from, find_bounds-Extends}
use flex_bso.Concat.Slots.{null_slot, null_loop-slots}

module _ (r : RaidBdev) (rs : List ConcatBlockRange) (b : BdevIo) (s t : ℕ)
    (n-small : t - s + 1 < 256) where
  abbrev n : ℕ
  n = t - s + 1

  null-Serves : Serves n (null_slot r rs b s) (null_give_up r rs b) (null_begin r rs b n)
  unfolding complete_failed raid_bdev_io_complete
  null-Serves = record {
    small = n-small;
    positive = omega arith;
    gives_up = complete_failed-Settled n n-small;
    keeps_order = λ io o. o;
    begins = refl;
    resumes = λ f w. ground arith;
  }

  served : (Child → Rc) → RaidBdevIo → RaidBdevIo
  served = serve n (null_slot r rs b s) (null_give_up r rs b) (null_begin r rs b n)

  same_answer :
      (t : IoType)
      → (t ≡ unmap) ⊎ (t ≡ flush)
      → (answer : Child → Rc) → null_answer r rs b t answer ≡ answer
  same_answer unmap h answer = refl
  same_answer flush h answer = refl
  same_answer t h answer = elim h [ inl e ↦ absurd (cc) | inr e ↦ absurd (cc) ]

  handler-served :
      (b.io_type ≡ unmap) ⊎ (b.io_type ≡ flush)
      → find_bounds r rs r.num_base_bdevs 0 (whole_range b) none
        ≡ record { start_idx = some s; stop_idx = some t }
      → concat_submit_null_payload_request r rs b ≡ served
  unfolding concat_submit_null_payload_request served
  handler-served h e = fun_ext λ answer. fun_ext λ io.
      ap (λ v. between r rs b v.start_idx v.stop_idx answer io) e
      ∙ null_loop-slots r rs b s answer (same_answer b.io_type h answer) n (null_begin r rs b n io)
          n-small

module _ (r : RaidBdev) (rs : List ConcatBlockRange) (c : IsConcat r rs) (b : BdevIo)
    (some_blocks : 0 < b.num_blocks) (in_array : b.offset_blocks + b.num_blocks ≤ r.bdev_blockcnt)
    (kind : (b.io_type ≡ unmap) ⊎ (b.io_type ≡ flush)) where
  -- Base bdevs `s` to `t` are the ones that the first loop finds.
  abbrev pub AreBounds : ℕ → ℕ → Type 0
  AreBounds s t =
      find_bounds r rs r.num_base_bdevs 0 (whole_range b) none
      ≡ record { start_idx = some s; stop_idx = some t }

  found : (s : ℕ) × (t : ℕ) × AreBounds s t × (t < r.num_base_bdevs)
  found = (
    all.0,
    all.1,
    ap (λ v. find_bounds r rs r.num_base_bdevs 0 v none) same_walk ∙ all.2,
    all.3.in_range,
  )
    where
      last_in_word : b.offset_blocks + b.num_blocks < u64_mod
      last_in_word = omega (
        arith,
        in_array,
        c.count,
        c.some_bdevs,
        c.in_word (r.num_base_bdevs - 1) (omega (arith, c.some_bdevs)),
      )

      same_walk : whole_range b ≡ left_from r rs c b.offset_blocks (b.offset_blocks + b.num_blocks)
      same_walk =
          ap (λ (k : ℕ). record { offset_blocks = b.offset_blocks; num_blocks = k }) (omega arith)

      all :
          (s : ℕ) × (t : ℕ) × (find_bounds r rs r.num_base_bdevs 0
              (left_from r rs c b.offset_blocks (b.offset_blocks + b.num_blocks))
              none
            ≡ record { start_idx = some s; stop_idx = some t })
          × Extends r rs c b.offset_blocks (b.offset_blocks + b.num_blocks) s t
      all =
          find_bounds-Extends r rs c b.offset_blocks (b.offset_blocks + b.num_blocks) (omega arith)
            in_array last_in_word

  few : found.1 - found.0 + 1 < 256
  few = omega (arith, found.3, c.few_bdevs)

  Life-served :
      {f : Flight}
      → Life (concat_submit_null_payload_request r rs b) f
      → Life (served r rs b found.0 found.1 few) f
  Life-served {f} l =
      subst (λ h. Life h f) (handler-served r rs b found.0 found.1 few kind found.2) l

  -- In an array that is laid out as `concat_start` leaves it, an unmap or a flush of at least one
  -- block that lies in the array is never completed twice; once no retry is queued and every child
  -- has ended it has been completed, as a success exactly if every base bdev from the first to the
  -- last one found was served and no child failed.
  pub concat_null-Outcome :
      {f : Flight}
      → Life (concat_submit_null_payload_request r rs b) f
      → (s : ℕ) × (t : ℕ) × AreBounds s t × Outcome (t - s + 1) f
  unfolding served
  concat_null-Outcome l = (
    found.0,
    found.1,
    found.2,
    serve-Outcome _ _ _ _ (null-Serves r rs b found.0 found.1 few) (Life-served l),
  )

  -- The child of base bdev `s + j`: its piece of the request, behind the start of its data.
  abbrev pub piece_child : ℕ → ℕ → Child
  piece_child s j = record {
    kind = b.io_type;
    idx = s + j;
    lba = add64 (base_info r (s + j)).data_offset (pd_lba r rs (s + j) (walked r rs b s j));
    blocks = pd_blocks r rs (s + j) (walked r rs b s j);
    iovs = [];
  }

  same_child :
      (t : IoType) (i : ℕ) (w : Walk)
      → (t ≡ unmap) ⊎ (t ≡ flush)
      → null_child r rs b t i w ≡ record {
        kind = t;
        idx = i;
        lba = add64 (base_info r i).data_offset (pd_lba r rs i w);
        blocks = pd_blocks r rs i w;
        iovs = [];
      }
  unfolding raid_bdev_unmap_blocks raid_bdev_flush_blocks
  same_child unmap i w h = refl
  same_child flush i w h = refl
  same_child t i w h = elim h [ inl e ↦ absurd (cc) | inr e ↦ absurd (cc) ]

  -- In an array that is laid out as `concat_start` leaves it, when an unmap or a flush of at least
  -- one block that lies in the array reports success, no child has failed, none is in flight, and
  -- the children sent are of its kind, one for each base bdev from the first to the last one found, each for
  -- the piece of the request that the second loop computes, behind the start of the base bdev's data.
  pub concat_null-success :
      {f : Flight}
      → Life (concat_submit_null_payload_request r rs b) f
      → f.io.completions ≡ success ∷ []
      → (s : ℕ) × (t : ℕ) × AreBounds s t
        × (f.bad ≡ false)
        × (f.done ≡ length f.io.sent)
        × (f.io.sent ≡ sent_where (λ j. true) (piece_child s) (t - s + 1))
  unfolding served
  concat_null-success {f} l e = (
    found.0,
    found.1,
    found.2,
    served_all.0,
    served_all.1,
    served_all.2
        ∙ sent_below-where (null_slot r rs b found.0) (λ j. true) (piece_child found.0)
            (found.1 - found.0 + 1)
            (λ j q. ap child (same_child b.io_type (found.0 + j) (walked r rs b found.0 j) kind)),
  )
    where
      served_all :
          (f.bad ≡ false)
          × (f.done ≡ length f.io.sent)
          × (f.io.sent ≡ sent_below (null_slot r rs b found.0) (found.1 - found.0 + 1))
      served_all = serve-success _ _ _ _ (null-Serves r rs b found.0 found.1 few) (Life-served l) e
