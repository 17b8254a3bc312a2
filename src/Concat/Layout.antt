-- ===== src/Concat/Layout.antt =====
-- The layout that raid/concat.c implements: ranges of blocks, one behind the other.
use flex_bso.Common.{
  ap, ℕ, zero, suc, ◌+◌, ◌-◌, ◌*◌, ◌/◌, ◌^◌, ◌≤◌, ◌<◌, ◌≡◌, List, arith, u64_mod, dec_lt,
}
use flex_bso.RaidBdev.{RaidBdev, base_info}
use flex_bso.Concat.{ConcatBlockRange, range_at}

-- An argument replaced in arithmetic.
pub same : (f : ℕ → ℕ) (i j : ℕ) → i ≡ j → f i ≡ f j
same f i j e = ap f e

module _ (r : RaidBdev) (rs : List ConcatBlockRange) where
  -- The first block of base bdev `i`, and the block behind its last one.
  abbrev pub first : ℕ → ℕ
  first i = (range_at r rs i).range_start

  abbrev pub behind : ℕ → ℕ
  behind i = first i + (range_at r rs i).range_length

  -- What `concat_start` leaves behind.
  pub record IsConcat : Type 0 where
    pub some_bdevs : 0 < r.num_base_bdevs
    pub few_bdevs : r.num_base_bdevs < 256
    pub power : r.strip_size ≡ 2 ^ r.strip_size_shift
    pub at_zero : first 0 ≡ 0
    pub next : (i : ℕ) → suc i < r.num_base_bdevs → first (suc i) ≡ behind i
    pub aligned : (i : ℕ) → i < r.num_base_bdevs → behind i ≡ behind i / r.strip_size * r.strip_size
    pub sizes :
        (i : ℕ) → i < r.num_base_bdevs → (base_info r i).data_size ≡ (range_at r rs i).range_length
    pub count : r.bdev_blockcnt ≡ behind (r.num_base_bdevs - 1)
    pub in_word : (i : ℕ) → i < r.num_base_bdevs → behind i < u64_mod
    pub room :
        (i : ℕ)
        → i < r.num_base_bdevs
        → (base_info r i).data_offset + (base_info r i).data_size < u64_mod

  -- The ranges grow with the base bdev.
  pub first-le : IsConcat → (i j : ℕ) → i ≤ j → j < r.num_base_bdevs → first i ≤ first j
  first-le c i zero le h = omega (arith, same first i zero (omega arith))
  first-le c i (suc j) le h = elim (dec_lt i (suc j)) [
    | yes p ↦ omega (arith, first-le c i j (omega arith) (omega arith), c.next j h)
    | no p ↦ omega (arith, same first i (suc j) (omega arith))
  ]

  pub behind-le : IsConcat → (i j : ℕ) → i ≤ j → j < r.num_base_bdevs → behind i ≤ behind j
  behind-le c i j le h = elim (dec_lt i j) [
    | yes p ↦ omega (arith, c.next i (omega arith), first-le c (suc i) j p h)
    | no p ↦ omega (arith, same behind i j (omega arith))
  ]

  -- No range ends behind the array.
  pub behind-count : IsConcat → (i : ℕ) → i < r.num_base_bdevs → behind i ≤ r.bdev_blockcnt
  behind-count c i h = omega (
    arith,
    behind-le c i (r.num_base_bdevs - 1) (omega arith) (omega (arith, c.some_bdevs)),
    c.count,
  )
