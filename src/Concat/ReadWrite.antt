-- ===== src/Concat/ReadWrite.antt =====
-- Reads and writes of raid/concat.c: which base bdev gets the request, and where.
use flex_bso.Common.{
  ℕ, zero, suc, ◌+◌, ◌-◌, ◌*◌, ◌/◌, ◌≤◌, ◌<◌, ◌≡◌, ◌⊎◌, refl, ap, ◌∙◌, List, Option, none, some,
  arith, inl, inr, dec_lt, sub64, add64,
}
use native.Mathlib.Nat.{div-add-mod', mod-lt, div-lt_iff_lt-mul}
use flex_bso.Common.Lex.{mul_step}
use flex_bso.Common.Bits.{pow-pos}
use flex_bso.Bdev.{IoType, read, write, Rc, Child, BdevIo}
use flex_bso.RaidBdev.{
  RaidBdev, RaidBdevIo, base_info, rw_answered, raid_bdev_readv_blocks_ext,
  raid_bdev_writev_blocks_ext,
}
use flex_bso.Concat.{ConcatBlockRange, find_pd_idx, rw_child, at_pd_idx, concat_submit_rw_request}
use flex_bso.Concat.Layout.{IsConcat, first, behind, same}

-- A request that lies within the array and within a strip, as the block layer splits requests.
pub record IsServable (r : RaidBdev) (b : BdevIo) : Type 0 where
  pub some_blocks : 0 < b.num_blocks
  pub in_array : b.offset_blocks + b.num_blocks ≤ r.bdev_blockcnt
  pub one_strip :
      b.offset_blocks / r.strip_size ≡ (b.offset_blocks + b.num_blocks - 1) / r.strip_size

-- The child request `c` is the request `b` on the base bdev whose range holds its blocks: shifted by
-- the start of the range, and inside the data region.
pub record IsExact (r : RaidBdev) (rs : List ConcatBlockRange) (b : BdevIo) (c : Child)
    : Type 0 where
  pub same_blocks : c.blocks ≡ b.num_blocks
  pub same_iovs : c.iovs ≡ b.iovs
  pub idx_in_range : c.idx < r.num_base_bdevs
  pub first_in_range : first r rs c.idx ≤ b.offset_blocks
  pub last_in_range : b.offset_blocks + b.num_blocks ≤ behind r rs c.idx
  pub place : c.lba + first r rs c.idx ≡ (base_info r c.idx).data_offset + b.offset_blocks
  pub to_end : c.lba + c.blocks ≤ (base_info r c.idx).data_offset + (base_info r c.idx).data_size

module _ (r : RaidBdev) (rs : List ConcatBlockRange) (c : IsConcat r rs) where
  -- The range that holds block `x`.
  pub record Holds (x i : ℕ) : Type 0 where
    pub in_range : i < r.num_base_bdevs
    pub from : first r rs i ≤ x
    pub to : x < behind r rs i

  abbrev Found : ℕ → Option ℕ → Type 0
  Found x o = (i : ℕ) × (o ≡ some i) × Holds x i

  find_stops :
      (left i x : ℕ) (o : Option ℕ) → x < first r rs i → find_pd_idx r rs (suc left) i x o ≡ o
  unfolding find_pd_idx
  find_stops left i x o h = ground arith

  find_goes_on :
      (left i x : ℕ) (o : Option ℕ)
      → first r rs i ≤ x
      → find_pd_idx r rs (suc left) i x o ≡ find_pd_idx r rs left (suc i) x (some i)
  unfolding find_pd_idx
  find_goes_on left i x o h = ground arith

  find_from :
      (left p x : ℕ)
      → suc p + left ≡ r.num_base_bdevs
      → first r rs p ≤ x
      → x < r.bdev_blockcnt
      → Found x (find_pd_idx r rs left (suc p) x (some p))
  unfolding find_pd_idx
  find_from zero p x e le h = (p, refl, record { in_range = omega arith; from = le; to = at_end })
    where
      at_end : x < behind r rs p
      at_end = omega (arith, c.count, same (behind r rs) (r.num_base_bdevs - 1) p (omega arith))
  find_from (suc left) p x e le h = elim (dec_lt x (first r rs (suc p))) [
    | yes k ↦ rw (find_stops left (suc p) x (some p) k) (
      p,
      refl,
      record { in_range = omega arith; from = le; to = omega (arith, c.next p (omega arith)) },
    )
    | no k ↦
        rw (find_goes_on left (suc p) x (some p) (omega arith))
          (find_from left (suc p) x (omega arith) (omega arith) h)
  ]

  -- The loop ends at the range that holds the block.
  pub find_pd_idx-Holds :
      (x : ℕ) → x < r.bdev_blockcnt → Found x (find_pd_idx r rs r.num_base_bdevs 0 x none)
  find_pd_idx-Holds x h =
      rw
        (
          ap (λ (k : ℕ). find_pd_idx r rs k 0 x none) count_suc,
          find_goes_on (r.num_base_bdevs - 1) 0 x none (omega (arith, c.at_zero)),
        )
        (find_from (r.num_base_bdevs - 1) 0 x (omega (arith, c.some_bdevs))
          (omega (arith, c.at_zero)) h)
    where
      count_suc : r.num_base_bdevs ≡ suc (r.num_base_bdevs - 1)
      count_suc = omega (arith, c.some_bdevs)

  module _ (b : BdevIo) (fits : IsServable r b) where
    abbrev x : ℕ
    x = b.offset_blocks

    -- A strip does not cross the end of a range.
    whole : (i : ℕ) → Holds x i → x + b.num_blocks ≤ behind r rs i
    whole i h =
        let k : ℕ = behind r rs i / r.strip_size in
        let q : ℕ = x / r.strip_size in
        omega (
          arith,
          h.to,
          fits.some_blocks,
          fits.one_strip,
          positive,
          c.aligned i h.in_range,
          div-add-mod' x r.strip_size,
          mod-lt x positive,
          div-add-mod' (x + b.num_blocks - 1) r.strip_size,
          mod-lt (x + b.num_blocks - 1) positive,
          ap (λ (t : ℕ). t * r.strip_size) fits.one_strip,
          mul_step q k r.strip_size (lower i h),
        )
      where
        positive : 0 < r.strip_size
        positive = rw c.power (pow-pos r.strip_size_shift)

        lower : (i : ℕ) → Holds x i → x / r.strip_size < behind r rs i / r.strip_size
        lower i h =
            (div-lt_iff_lt-mul {k = r.strip_size} {x = x} {y = behind r rs i / r.strip_size}
                positive).1
              (omega (arith, h.to, c.aligned i h.in_range))

    module _ (i : ℕ) (h : Holds x i) where
      abbrev lba : ℕ
      lba = add64 (base_info r i).data_offset (sub64 x (first r rs i))

      abbrev placed : IoType → Child
      placed kind = record { kind = kind; idx = i; lba = lba; blocks = b.num_blocks; iovs = b.iovs }

      lba_lem : lba + first r rs i ≡ (base_info r i).data_offset + x
      lba_lem =
          omega
            (arith, h.from, h.to, c.sizes i h.in_range, c.room i h.in_range, c.in_word i h.in_range)

      placed-IsExact : (kind : IoType) → IsExact r rs b (placed kind)
      placed-IsExact kind = record {
        same_blocks = refl;
        same_iovs = refl;
        idx_in_range = h.in_range;
        first_in_range = h.from;
        last_in_range = whole i h;
        place = lba_lem;
        to_end = omega (arith, lba_lem, whole i h, c.sizes i h.in_range);
      }

      served :
          (t : IoType)
          → (t ≡ read) ⊎ (t ≡ write)
          → (answer : Child → Rc) (io : RaidBdevIo)
          → rw_child r rs b t i answer io ≡ rw_answered io (placed t) (answer (placed t))
      unfolding raid_bdev_readv_blocks_ext raid_bdev_writev_blocks_ext
      served read e answer io = refl
      served write e answer io = refl
      served t e answer io = elim e [ inl p ↦ absurd (cc) | inr p ↦ absurd (cc) ]

    -- In an array that is laid out as `concat_start` leaves it, a read or a write of at least one
    -- block that lies in the array and in one strip becomes one child request: the loop over the
    -- block ranges ends at the base bdev that holds all its blocks, the child is shifted by the
    -- start of that range and lies inside the data region; the answer to it decides whether the
    -- request is sent, waits or fails.
    pub concat_rw-IsExact :
        (b.io_type ≡ read) ⊎ (b.io_type ≡ write)
        → (answer : Child → Rc) (io : RaidBdevIo)
        → (d : Child) × (concat_submit_rw_request r rs b answer io ≡ rw_answered io d (answer d))
          × (d.kind ≡ b.io_type)
          × IsExact r rs b d
    unfolding concat_submit_rw_request
    concat_rw-IsExact e answer io =
        go (find_pd_idx-Holds x (omega (arith, fits.some_blocks, fits.in_array)))
      where
        go :
            Found x (find_pd_idx r rs r.num_base_bdevs 0 x none)
            → (d : Child) × (concat_submit_rw_request r rs b answer io
                ≡ rw_answered io d (answer d))
              × (d.kind ≡ b.io_type)
              × IsExact r rs b d
        go (i, p, h) = (
          placed i h b.io_type,
          ap (λ o. at_pd_idx r rs b o answer io) p ∙ served i h b.io_type e answer io,
          refl,
          placed-IsExact i h b.io_type,
        )
