-- ===== src/Raid0/Start.antt =====
-- `raid0_start` and `raid0_resize` of raid/raid0.c: the sizes they give to the array.
use flex_bso.Common.{ℕ, ◌+◌, ◌*◌, ◌/◌, ◌≤◌, ◌<◌, ◌≡◌, ◌∙◌, arith, u64_mod, inl, inr, mul64}
use native.Mathlib.Nat.{div-add-mod', mod-lt, mul-le-mul_right}
use flex_bso.Common.Bits.{pow-pos}
use flex_bso.RaidBdev.{RaidBdev, base_info, min_data_size, u64_max}
use flex_bso.Raid0.{raid0_start, whole_strips}
use flex_bso.Raid0.Geometry.{IsLaidOut}
use flex_bso.RaidBdev.Sizes.{
  min_data_size-le_start, min_data_size-le, min_data_size-attained, set_data_size-size,
  set_data_size-offset, IsConfigured,
}

module _ (r : RaidBdev) (c : IsConfigured r) where
  abbrev least : ℕ
  least = min_data_size u64_max r.base_bdev_info

  abbrev strips : ℕ
  strips = least / r.strip_size

  strips-le : strips * r.strip_size ≤ least
  strips-le = omega (arith, div-add-mod' least r.strip_size)

  least-le : (d : ℕ) → d < r.num_base_bdevs → least ≤ (base_info r d).data_size
  least-le d h = min_data_size-le u64_max r.base_bdev_info d (omega (arith, c.slots))

  count-lt : strips * r.strip_size * r.num_base_bdevs < u64_mod
  count-lt = omega (
    arith,
    c.count_fits 0 c.some_bdevs,
    mul-le-mul_right {m = strips * r.strip_size} {n = (base_info r 0).data_size} r.num_base_bdevs
        (omega (arith, strips-le, least-le 0 c.some_bdevs)),
  )

  size_lem : whole_strips least r.strip_size_shift ≡ strips * r.strip_size
  size_lem =
      rw (← c.power) (omega (arith, strips-le, min_data_size-le_start u64_max r.base_bdev_info))

  size_at :
      (d : ℕ)
      → d < r.num_base_bdevs
      → (base_info (raid0_start r) d).data_size ≡ strips * r.strip_size
  unfolding raid0_start
  size_at d h = set_data_size-size _ r.base_bdev_info d (omega (arith, c.slots)) ∙ size_lem

  offset_at : (d : ℕ) → (base_info (raid0_start r) d).data_offset ≡ (base_info r d).data_offset
  unfolding raid0_start
  offset_at d = set_data_size-offset _ r.base_bdev_info d

  not_larger :
      (d : ℕ)
      → d < r.num_base_bdevs
      → (base_info (raid0_start r) d).data_size ≤ (base_info r d).data_size
  not_larger d h = omega (arith, size_at d h, strips-le, least-le d h)

  some_near :
      (d : ℕ) × (d < r.num_base_bdevs)
      × ((base_info r d).data_size < (base_info (raid0_start r) d).data_size + r.strip_size)
  some_near = elim (min_data_size-attained u64_max r.base_bdev_info) [
    | inl e ↦ (0, c.some_bdevs, near 0 c.some_bdevs (omega (arith, e, c.room 0 c.some_bdevs)))
    | inr (d, h, e) ↦
        (d, omega (arith, h, c.slots), near d (omega (arith, h, c.slots)) (omega (arith, e)))
  ]
    where
      near :
          (d : ℕ)
          → d < r.num_base_bdevs
          → (base_info r d).data_size ≤ least
          → (base_info r d).data_size < (base_info (raid0_start r) d).data_size + r.strip_size
      near d h e =
          omega (arith, size_at d h, div-add-mod' least r.strip_size, mod-lt least positive)
        where
          positive : 0 < r.strip_size
          positive = rw c.power (pow-pos r.strip_size_shift)

  laid_out : IsLaidOut (raid0_start r) strips
  unfolding raid0_start
  laid_out = record {
    some_bdevs = c.some_bdevs;
    few_bdevs = c.few_bdevs;
    power = c.power;
    word = c.word;
    count = count_lem;
    count_fits = rw count_lem count-lt;
    sizes = size_at;
    room = λ d h. omega (arith, offset_at d, not_larger d h, c.room d h);
  }
    where
      count_lem :
          mul64 (whole_strips least r.strip_size_shift) r.num_base_bdevs
          ≡ strips * r.strip_size * r.num_base_bdevs
      count_lem = rw size_lem (omega (arith, count-lt))

  -- With all slots filled, 1 to 255 base bdevs, a strip size below 2^32 that is 2 to the power of
  -- the shift, and data regions that end below block 2^64, all together too: the module starts with
  -- the layout that requests rely on. Each base bdev gets the greatest whole number of strips that
  -- fits on the smallest one, none grows, one of them loses less than a strip, and the array has as
  -- many blocks as they have together.
  pub raid0_start-layout :
      (m : ℕ) × IsLaidOut (raid0_start r) m
      × ((d : ℕ)
          → d < r.num_base_bdevs
          → (base_info (raid0_start r) d).data_size ≤ (base_info r d).data_size)
      × ((d : ℕ) × (d < r.num_base_bdevs)
          × ((base_info r d).data_size < (base_info (raid0_start r) d).data_size + r.strip_size))
  raid0_start-layout = (strips, laid_out, not_larger, some_near)
