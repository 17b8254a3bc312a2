-- ===== src/Raid0/Split.antt =====
-- `_raid0_get_io_range` and `_raid0_split_io_range` of raid/raid0.c: the pieces of a range of the array
-- on the base bdevs are exactly the blocks of the range.
use flex_bso.Common.{
  ℕ, ◌+◌, ◌-◌, ◌/◌, ◌%◌, ◌≤◌, ◌<◌, ◌≡◌, ◌⊎◌, ◌↔◌, sym, subst, ◌∙◌, inl, inr, arith, min, dec_lt,
}
use native.Mathlib.Nat.{mod-lt, mod-eq_of_lt, mod-eq-sub-mod}
use flex_bso.Raid0.{IoRange, DiskRange, raid0_get_io_range, raid0_split_io_range}
use flex_bso.Raid0.Geometry.{disk_of, block_at, IsRange}
use flex_bso.Raid0.Pieces.{
  get_io_range_value, split_value, slot-exact, slot_of, slot_nonempty, plain, z,
}

-- Within one turn round the base bdevs no two slots meet.
turned :
    (n a i : ℕ) → a < n → i < n → ((a + i) % n ≡ a + i) ⊎ ((n ≤ a + i) × ((a + i) % n ≡ a + i - n))
turned n a i ha hi = elim (dec_lt (a + i) n) [
  | yes p ↦ inl (mod-eq_of_lt p)
  | no p ↦
      inr
        (omega arith, mod-eq-sub-mod {n = a + i} {m = n} (omega arith) ∙ mod-eq_of_lt (omega arith))
]

turn_injective : (n a i j : ℕ) → a < n → i < n → j < n → (a + i) % n ≡ (a + j) % n → i ≡ j
turn_injective n a i j ha hi hj e = omega (arith, turned n a i ha hi, turned n a j ha hj)

-- The base bdev of slot `j`, and its piece.
abbrev pub disk_at : IoRange → ℕ → ℕ → ℕ
disk_at g n j = (g.start_disk + j) % n

abbrev pub piece : IoRange → ℕ → ℕ → DiskRange
piece g n j = raid0_split_io_range g (disk_at g n j)

-- Block `l` of base bdev `d` lies in a piece.
abbrev pub IsIn : ℕ → DiskRange → Type 0
IsIn l p = (p.offset_in_disk ≤ l) × (l < p.offset_in_disk + p.nblocks_in_disk)

module _ (n s k off num : ℕ) (v : IsRange n s k off num) where
  abbrev g : IoRange
  g = raid0_get_io_range n s k off num

  value : g ≡ plain n s k off num v
  value = get_io_range_value n s k off num v

  -- For an array with 1 to 255 base bdevs, a strip size below 2^32 that is 2 to the power of the
  -- shift, and a range that is not empty and ends below block 2^64: the piece that is computed for
  -- each slot holds exactly the blocks of its base bdev that belong to the range.
  pub raid0_split-exact :
      (j : ℕ)
      → j < g.n_disks_involved
      → (l : ℕ)
      → IsIn l (piece g n j)
        ↔ ((off ≤ block_at n s (disk_at g n j) l) × (block_at n s (disk_at g n j) l < off + num))
  raid0_split-exact = subst Exact (sym value) exact
    where
      slot_disk : ℕ → ℕ
      slot_disk j = (off / s % n + j) % n

      Exact : IoRange → Type 0
      Exact g' =
          (j : ℕ)
          → j < g'.n_disks_involved
          → (l : ℕ)
          → IsIn l (piece g' n j) ↔ (
              (off ≤ block_at n s (disk_at g' n j) l)
              × (block_at n s (disk_at g' n j) l < off + num))

      exact : Exact (plain n s k off num v)
      exact j h l =
          subst
            (λ p.
              IsIn l p
              ↔ ((off ≤ block_at n s (slot_disk j) l) × (block_at n s (slot_disk j) l < off + num)))
            (sym (
              split_value n s k off num v (slot_disk j) (mod-lt _ v.some_bdevs)
                (slot_nonempty n s k off num v j h)))
            (slot-exact n s k off num v j h l)

  -- For an array with 1 to 255 base bdevs, a strip size below 2^32 that is 2 to the power of the
  -- shift, and a range that is not empty and ends below block 2^64: each block of the range stands
  -- on the base bdev of exactly one slot.
  pub raid0_split_complete :
      (x : ℕ)
      → off ≤ x
      → x < off + num
      → (j : ℕ) × (j < g.n_disks_involved)
        × (disk_at g n j ≡ disk_of n s x)
        × ((i : ℕ) → i < g.n_disks_involved → disk_at g n i ≡ disk_of n s x → i ≡ j)
  raid0_split_complete x lo hi = subst Complete (sym value) complete
    where
      Complete : IoRange → Type 0
      Complete g' =
          (j : ℕ) × (j < g'.n_disks_involved)
          × (disk_at g' n j ≡ disk_of n s x)
          × ((i : ℕ) → i < g'.n_disks_involved → disk_at g' n i ≡ disk_of n s x → i ≡ j)

      found :
          (j : ℕ) × (j < min (z n s k off num v / s - off / s + 1) n)
          × ((off / s % n + j) % n ≡ x / s % n)
      found = slot_of n s k off num v x lo (omega arith)

      complete : Complete (plain n s k off num v)
      complete = (
        found.0,
        found.1,
        found.2,
        λ i h e.
            turn_injective n (off / s % n) i found.0 (mod-lt (off / s) v.some_bdevs) (omega arith)
              (omega (arith, found.1)) (e ∙ sym found.2),
      )
