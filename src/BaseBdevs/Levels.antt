-- ===== src/BaseBdevs/Levels.antt =====
-- What `raid_bdev_create` of raid/bdev_raid.c asks of a request, level by level.
use flex_bso.Common.{
  ℕ, zero, suc, ◌-◌, ◌≤◌, ◌<◌, ◌≡◌, ◌≢◌, ◌⊎◌, inl, inr, refl, sym, ap, Bool, true, false, ltb, some,
  arith, replicate, get_or-replicate, length-replicate, u8, ◌+◌,
}
use flex_bso.Bdev.{fail, einval}
use flex_bso.RaidBdev.{
  RaidLevel, invalid_raid_level, raid0, raid1, raid5f, concat, configuring, RaidBdev, no_info,
}
use flex_bso.BaseBdevs.{
  refused, new_raid_bdev, bad_strip_size, create_with_min, create_with_module,
  raid_bdev_module_find, g_raid_modules,
}
use flex_bso.BaseBdevs.Counted.{IsCounted, open_descs}

-- How many base bdevs a level needs at least, and how many of `num` keep it operational: a mirror lives on one, a
-- RAID5F bdev on all but one, the others need all.
abbrev pub least_base_bdevs : RaidLevel → ℕ
least_base_bdevs raid0 = 1
least_base_bdevs raid1 = 2
least_base_bdevs raid5f = 3
least_base_bdevs concat = 1
least_base_bdevs invalid_raid_level = 0

abbrev pub least_operational : RaidLevel → ℕ → ℕ
least_operational raid1 num = 1
least_operational raid5f num = num - 1
least_operational level num = num

-- A mirror has no strips; the other levels have strips of a power of two.
abbrev pub IsStripSize : (ℕ → Bool) → ℕ → RaidLevel → Type 0
IsStripSize is_pow2 strip_size raid0 = is_pow2 strip_size ≡ true
IsStripSize is_pow2 strip_size raid1 = strip_size ≡ 0
IsStripSize is_pow2 strip_size raid5f = is_pow2 strip_size ≡ true
IsStripSize is_pow2 strip_size concat = is_pow2 strip_size ≡ true
IsStripSize is_pow2 strip_size invalid_raid_level = is_pow2 strip_size ≡ true

abbrev pub IsAllowed : (ℕ → Bool) → ℕ → ℕ → RaidLevel → Type 0
IsAllowed is_pow2 strip_size num level =
    (level ≢ invalid_raid_level)
    × (least_base_bdevs level ≤ num)
    × IsStripSize is_pow2 strip_size level

-- What a RAID bdev is like when it is created.
pub record IsNew (strip_size num : ℕ) (level : RaidLevel) (superblock : Bool) (r : RaidBdev)
    : Type 0 where
  pub counted : IsCounted r
  pub slots : r.num_base_bdevs ≡ num
  pub none_found : r.num_base_bdevs_discovered ≡ 0
  pub waits : r.state ≡ configuring
  pub operational : r.min_base_bdevs_operational ≡ least_operational level num
  pub some_operational : 0 < r.min_base_bdevs_operational
  pub of_level : r.level ≡ level
  pub strips : r.strip_size_kb ≡ strip_size
  pub with_superblock : r.superblock_enabled ≡ superblock

no_descs : (n : ℕ) → open_descs (replicate n no_info) ≡ 0
no_descs zero = refl
no_descs (suc n) = omega (arith, no_descs n)

pub new_raid_bdev-IsCounted :
    (strip_size num : ℕ) (level : RaidLevel) (superblock : Bool) (m : ℕ)
    → num < 256
    → IsCounted (new_raid_bdev strip_size num level superblock m)
new_raid_bdev-IsCounted strip_size num level superblock m few = record {
  slots = length-replicate num no_info;
  few = few;
  count = sym (no_descs num);
  named = λ i e. ap (λ b. b.desc) (get_or-replicate num i no_info);
}

pub least_operational-bounds :
    (level : RaidLevel) (num : ℕ)
    → level ≢ invalid_raid_level
    → least_base_bdevs level ≤ num
    → (0 < least_operational level num) × (least_operational level num ≤ num)
least_operational-bounds raid0 num v h = (h, omega arith)
least_operational-bounds raid1 num v h = (omega arith, omega (arith, h))
least_operational-bounds raid5f num v h = (omega (arith, h), omega (arith, h))
least_operational-bounds concat num v h = (h, omega arith)
least_operational-bounds invalid_raid_level num v h = absurd (v refl)

module _ (is_pow2 : ℕ → Bool) (strip_size num : ℕ) where
  pub bad_strip_size-true :
      (level : RaidLevel) (superblock allocated : Bool)
      → ¬ IsStripSize is_pow2 strip_size level
      → bad_strip_size is_pow2 strip_size num level superblock allocated ≡ true
  bad_strip_size-true raid0 superblock allocated h = ground (arith, h)
  bad_strip_size-true raid1 superblock allocated h = ground (arith, h)
  bad_strip_size-true raid5f superblock allocated h = ground (arith, h)
  bad_strip_size-true concat superblock allocated h = ground (arith, h)
  bad_strip_size-true invalid_raid_level superblock allocated h = ground (arith, h)

  pub bad_strip_size-false :
      (level : RaidLevel) (superblock allocated : Bool)
      → IsStripSize is_pow2 strip_size level
      → bad_strip_size is_pow2 strip_size num level superblock allocated ≡ false
  bad_strip_size-false raid0 superblock allocated h = ground (arith, h)
  bad_strip_size-false raid1 superblock allocated h = ground (arith, h)
  bad_strip_size-false raid5f superblock allocated h = ground (arith, h)
  bad_strip_size-false concat superblock allocated h = ground (arith, h)
  bad_strip_size-false invalid_raid_level superblock allocated h = ground (arith, h)

  pub module-refused :
      (level : RaidLevel) (superblock allocated : Bool)
      → (level ≡ invalid_raid_level) ⊎ (num < least_base_bdevs level)
      → create_with_module is_pow2 strip_size num level superblock allocated
          (raid_bdev_module_find level g_raid_modules)
        ≡ refused (fail einval)
  unfolding raid_bdev_module_find
  module-refused raid0 superblock allocated (inl e) = absurd (cc)
  module-refused raid1 superblock allocated (inl e) = absurd (cc)
  module-refused raid5f superblock allocated (inl e) = absurd (cc)
  module-refused concat superblock allocated (inl e) = absurd (cc)
  module-refused raid0 superblock allocated (inr h) = ground (arith, h)
  module-refused raid1 superblock allocated (inr h) = ground (arith, h)
  module-refused raid5f superblock allocated (inr h) = ground (arith, h)
  module-refused concat superblock allocated (inr h) = ground (arith, h)
  module-refused invalid_raid_level superblock allocated h = refl

  pub module-min :
      (level : RaidLevel) (superblock allocated : Bool)
      → num < 256
      → level ≢ invalid_raid_level
      → least_base_bdevs level ≤ num
      → create_with_module is_pow2 strip_size num level superblock allocated
          (raid_bdev_module_find level g_raid_modules)
        ≡ create_with_min is_pow2 strip_size num level superblock allocated
            (some (least_operational level num))
  unfolding raid_bdev_module_find
  module-min raid0 superblock allocated few v h = ground (arith, h)
  module-min raid1 superblock allocated few v h = ground (arith, h)
  module-min raid5f superblock allocated few v h = rw (not_few h, one_less few h) refl
    where
      not_few : 3 ≤ num → ltb num 3 ≡ false
      not_few h = ground (arith, h)

      one_less : num < 256 → 3 ≤ num → u8 (num + 256 - 1) ≡ num - 1
      one_less few h = omega (arith, few, h)
  module-min concat superblock allocated few v h = ground (arith, h)
  module-min invalid_raid_level superblock allocated few v h = absurd (v refl)
