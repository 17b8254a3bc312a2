-- ===== src/RaidBdev/Sizes.antt =====
-- The loops over the base bdevs by which the modules of raid/ find and set their sizes.
use flex_bso.Common.{
  ℕ, zero, suc, ◌+◌, ◌*◌, ◌^◌, ◌≤◌, ◌<◌, ◌≡◌, refl, arith, min, List, [], ◌∷◌, length, get_or,
  u64_mod, dec_lt, inl, inr, ◌⊎◌,
}
use flex_bso.RaidBdev.{RaidBdev, BaseInfo, no_info, base_info, min_data_size, set_data_size}

-- The least data size, and that some base bdev has it.
pub min_data_size-le_start : (m : ℕ) (is : List BaseInfo) → min_data_size m is ≤ m
unfolding min_data_size
min_data_size-le_start m [] = omega arith
min_data_size-le_start m (i ∷ is) = omega (arith, min_data_size-le_start (min m i.data_size) is)

pub min_data_size-le :
    (m : ℕ) (is : List BaseInfo) (d : ℕ)
    → d < length is
    → min_data_size m is ≤ (get_or is d no_info).data_size
unfolding min_data_size
min_data_size-le m [] d h = absurd (omega arith)
min_data_size-le m (i ∷ is) zero h = omega (arith, min_data_size-le_start (min m i.data_size) is)
min_data_size-le m (i ∷ is) (suc d) h = min_data_size-le (min m i.data_size) is d (omega arith)

pub min_data_size-attained :
    (m : ℕ) (is : List BaseInfo)
    → (min_data_size m is ≡ m)
      ⊎ ((d : ℕ) × (d < length is) × (min_data_size m is ≡ (get_or is d no_info).data_size))
unfolding min_data_size
min_data_size-attained m [] = inl refl
min_data_size-attained m (i ∷ is) = elim (min_data_size-attained (min m i.data_size) is) [
  | inl e ↦ elim (dec_lt i.data_size m) [
    | yes h ↦ inr (0, omega arith, omega arith)
    | no h ↦ inl (omega arith)
  ]
  | inr (d, h, e) ↦ inr (suc d, omega arith, e)
]

pub set_data_size-size :
    (size : ℕ) (is : List BaseInfo) (d : ℕ)
    → d < length is
    → (get_or (set_data_size size is) d no_info).data_size ≡ size
unfolding set_data_size
set_data_size-size size [] d h = absurd (omega arith)
set_data_size-size size (i ∷ is) zero h = refl
set_data_size-size size (i ∷ is) (suc d) h = set_data_size-size size is d (omega arith)

pub set_data_size-offset :
    (size : ℕ) (is : List BaseInfo) (d : ℕ)
    → (get_or (set_data_size size is) d no_info).data_offset ≡ (get_or is d no_info).data_offset
unfolding set_data_size
set_data_size-offset size [] d = refl
set_data_size-offset size (i ∷ is) zero = refl
set_data_size-offset size (i ∷ is) (suc d) = set_data_size-offset size is d

-- An array whose base bdevs are all configured, before the module starts it.
pub record IsConfigured (r : RaidBdev) : Type 0 where
  pub slots : length r.base_bdev_info ≡ r.num_base_bdevs
  pub some_bdevs : 0 < r.num_base_bdevs
  pub few_bdevs : r.num_base_bdevs < 256
  pub power : r.strip_size ≡ 2 ^ r.strip_size_shift
  pub word : r.strip_size < 2 ^ 32
  pub room :
      (d : ℕ)
      → d < r.num_base_bdevs
      → (base_info r d).data_offset + (base_info r d).data_size < u64_mod
  pub count_fits :
      (d : ℕ) → d < r.num_base_bdevs → (base_info r d).data_size * r.num_base_bdevs < u64_mod
