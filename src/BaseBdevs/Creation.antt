-- ===== src/BaseBdevs/Creation.antt =====
-- What `raid_bdev_create` of raid/bdev_raid.c accepts, and what it makes.
use flex_bso.Common.{
  ℕ, ◌≤◌, ◌<◌, ◌≡◌, ◌≢◌, ◌⊎◌, inl, inr, refl, Bool, true, false, ◌||◌, ◌==◌, ltb, if◌then◌else◌,
  some, arith, dec_le, ℕ_discrete,
}
use flex_bso.Bdev.{fail, einval, eexist, enomem}
use flex_bso.RaidBdev.{RaidLevel, invalid_raid_level, raid0, raid1, raid5f, concat, RaidBdev}
use flex_bso.BaseBdevs.{
  Created, refused, created, new_raid_bdev, bad_strip_size, create_with_min, create_with_module,
  raid_bdev_create, raid_bdev_module_find, g_raid_modules,
}
use flex_bso.BaseBdevs.Levels.{
  least_base_bdevs, least_operational, IsStripSize, IsAllowed, IsNew, new_raid_bdev-IsCounted,
  least_operational-bounds, bad_strip_size-true, bad_strip_size-false, module-refused, module-min,
}

module _ (is_pow2 : ℕ → Bool) (strip_size num : ℕ) where
  min-Allocated :
      (level : RaidLevel) (superblock : Bool) (m : ℕ)
      → 0 < m
      → m ≤ num
      → (create_with_min is_pow2 strip_size num level superblock true (some m)
          ≡ created (new_raid_bdev strip_size num level superblock m))
        × (create_with_min is_pow2 strip_size num level superblock false (some m)
            ≡ refused (fail enomem))
  min-Allocated level superblock m p q = (rw (fine p q) refl, rw (fine p q) refl)
    where
      fine : 0 < m → m ≤ num → ((m == 0) || ltb num m) ≡ false
      fine p q = ground arith

  is_true : (b : Bool) → Dec (b ≡ true)
  is_true true = yes refl
  is_true false = no (λ e. absurd (cc))

  dec_strip_size : (level : RaidLevel) → Dec (IsStripSize is_pow2 strip_size level)
  dec_strip_size raid0 = is_true (is_pow2 strip_size)
  dec_strip_size raid1 = ℕ_discrete strip_size 0
  dec_strip_size raid5f = is_true (is_pow2 strip_size)
  dec_strip_size concat = is_true (is_pow2 strip_size)
  dec_strip_size invalid_raid_level = is_true (is_pow2 strip_size)

  dec_valid : (level : RaidLevel) → (level ≡ invalid_raid_level) ⊎ (level ≢ invalid_raid_level)
  dec_valid raid0 = inr (λ e. absurd (cc))
  dec_valid raid1 = inr (λ e. absurd (cc))
  dec_valid raid5f = inr (λ e. absurd (cc))
  dec_valid concat = inr (λ e. absurd (cc))
  dec_valid invalid_raid_level = inl refl

  -- The result `x` of the creation, by what it was asked and whether there was memory.
  abbrev pub IsDecided : RaidLevel → Bool → Bool → Bool → Created → Type 0
  IsDecided level superblock allocated exists x =
      ((exists ≡ true) × (x ≡ refused (fail eexist)))
      ⊎ ((exists ≡ false)
          × (¬ IsAllowed is_pow2 strip_size num level)
          × (x ≡ refused (fail einval)))
      ⊎ ((exists ≡ false)
          × IsAllowed is_pow2 strip_size num level
          × (allocated ≡ false)
          × (x ≡ refused (fail enomem)))
      ⊎ ((exists ≡ false)
          × IsAllowed is_pow2 strip_size num level
          × (allocated ≡ true)
          × ((r : RaidBdev) × (x ≡ created r) × IsNew strip_size num level superblock r))

  -- The name is free: what the rest of the creation gives.
  asked : RaidLevel → Bool → Bool → Created
  asked level superblock allocated =
      if bad_strip_size is_pow2 strip_size num level superblock allocated
      then refused (fail einval)
      else create_with_module is_pow2 strip_size num level superblock allocated
          (raid_bdev_module_find level g_raid_modules)

  asked-refused :
      (level : RaidLevel) (superblock allocated : Bool)
      → ¬ IsAllowed is_pow2 strip_size num level
      → asked level superblock allocated ≡ refused (fail einval)
  unfolding asked
  asked-refused level superblock allocated h = elim (dec_strip_size level) [
    | no p ↦ rw (bad_strip_size-true is_pow2 strip_size num level superblock allocated p) refl
    | yes p ↦ rw (bad_strip_size-false is_pow2 strip_size num level superblock allocated p) (
        module-refused is_pow2 strip_size num level superblock allocated
          (reason p (dec_valid level)))
  ]
    where
      reason :
          IsStripSize is_pow2 strip_size level
          → (level ≡ invalid_raid_level) ⊎ (level ≢ invalid_raid_level)
          → (level ≡ invalid_raid_level) ⊎ (num < least_base_bdevs level)
      reason p (inl e) = inl e
      reason p (inr v) = elim (dec_le (least_base_bdevs level) num) [
        | yes q ↦ absurd (h (v, q, p))
        | no q ↦ inr (omega (arith, q))
      ]

  asked-min :
      (level : RaidLevel) (superblock allocated : Bool)
      → num < 256
      → IsAllowed is_pow2 strip_size num level
      → asked level superblock allocated
        ≡ create_with_min is_pow2 strip_size num level superblock allocated
            (some (least_operational level num))
  unfolding asked
  asked-min level superblock allocated few (v, q, p) =
      rw (bad_strip_size-false is_pow2 strip_size num level superblock allocated p)
        (module-min is_pow2 strip_size num level superblock allocated few v q)

  asked-IsDecided :
      (level : RaidLevel) (superblock allocated : Bool)
      → num < 256
      → IsAllowed is_pow2 strip_size num level
      → IsDecided level superblock allocated false (asked level superblock allocated)
  asked-IsDecided level superblock allocated few h =
      by_memory allocated (asked-min level superblock allocated few h)
    where
      bounds : (0 < least_operational level num) × (least_operational level num ≤ num)
      bounds = least_operational-bounds level num h.0 h.1

      by_memory :
          (t : Bool) {x : Created}
          → x
            ≡ create_with_min is_pow2 strip_size num level superblock t
                (some (least_operational level num))
          → IsDecided level superblock t false x
      by_memory false e = inr (
          inr (
            inl (
              refl,
              h,
              refl,
              rw e
                  (min-Allocated level superblock (least_operational level num) bounds.0
                    bounds.1).1,
            )))
      by_memory true e = inr (
          inr (
            inr (
              refl,
              h,
              refl,
              (
                new_raid_bdev strip_size num level superblock (least_operational level num),
                rw e
                    (min-Allocated level superblock (least_operational level num) bounds.0
                      bounds.1).0,
                record {
                  counted = new_raid_bdev-IsCounted strip_size num level superblock _ few;
                  slots = refl;
                  none_found = refl;
                  waits = refl;
                  operational = refl;
                  some_operational = bounds.0;
                  of_level = refl;
                  strips = refl;
                  with_superblock = refl;
                },
              ),
            )))

  -- With fewer than 256 base bdevs, the creation is decided by the request alone: a taken name is refused with
  -- EEXIST; a free one with EINVAL if the level is not one of the four, asks for more base bdevs than there
  -- are (1 for RAID0 and concat, 2 for RAID1, 3 for RAID5F), or takes no such strip size (0 for RAID1, a
  -- power of two for the others); with ENOMEM if there is no memory. Else a RAID bdev of the level, the strip
  -- size and the superblock flag asked for is created; it waits for its base bdevs, counts none as discovered
  -- and none as open, and stays operational with one base bdev (RAID1), with all but one (RAID5F), or with
  -- all (RAID0 and concat).
  pub raid_bdev_create-IsDecided :
      (level : RaidLevel) (superblock allocated exists : Bool)
      → num < 256
      → IsDecided level superblock allocated exists
          (raid_bdev_create is_pow2 strip_size num level superblock allocated exists)
  unfolding raid_bdev_create asked
  raid_bdev_create-IsDecided level superblock allocated true few = inl (refl, refl)
  raid_bdev_create-IsDecided level superblock allocated false few =
      by_request (dec_strip_size level) (dec_valid level) (dec_le (least_base_bdevs level) num)
    where
      not_allowed :
          ¬ IsAllowed is_pow2 strip_size num level
          → IsDecided level superblock allocated false (asked level superblock allocated)
      not_allowed h = inr (inl (refl, h, asked-refused level superblock allocated h))

      by_request :
          Dec (IsStripSize is_pow2 strip_size level)
          → (level ≡ invalid_raid_level) ⊎ (level ≢ invalid_raid_level)
          → Dec (least_base_bdevs level ≤ num)
          → IsDecided level superblock allocated false (asked level superblock allocated)
      by_request (no p) v q = not_allowed (λ h. p h.2)
      by_request (yes p) (inl v) q = not_allowed (λ h. h.0 v)
      by_request (yes p) (inr v) (no q) = not_allowed (λ h. q h.1)
      by_request (yes p) (inr v) (yes q) = asked-IsDecided level superblock allocated few (v, q, p)
