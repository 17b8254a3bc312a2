-- ===== src/Raid0/Geometry.antt =====
-- The layout that raid/raid0.c implements, as plain arithmetic: `n` base bdevs, strips of `s` blocks.
use flex_bso.Common.{ℕ, ◌+◌, ◌*◌, ◌/◌, ◌%◌, ◌^◌, ◌≤◌, ◌<◌, ◌≡◌, ap, ap₂, ◌∙◌, arith, u64_mod}
use native.Mathlib.Nat.{div-add-mod', mod-lt, div-le_self, mul-le-mul_right, div-lt_iff_lt-mul}
use flex_bso.Common.Lex.{div_unique, mod_unique, mul_step}
use flex_bso.RaidBdev.{RaidBdev, base_info}

-- Block `x` of the array stands on this base bdev, at this block.
abbrev pub disk_of : ℕ → ℕ → ℕ → ℕ
disk_of n s x = x / s % n

abbrev pub lba_of : ℕ → ℕ → ℕ → ℕ
lba_of n s x = x / s / n * s + x % s

-- The block of the array that stands at block `l` of base bdev `d`.
abbrev pub block_at : ℕ → ℕ → ℕ → ℕ → ℕ
block_at n s d l = (l / s * n + d) * s + l % s

module _ (n s : ℕ) (hn : 0 < n) (hs : 0 < s) where
  pub block_at-place : (x : ℕ) → block_at n s (disk_of n s x) (lba_of n s x) ≡ x
  block_at-place x =
      ap₂ (λ q m. (q * n + x / s % n) * s + m) (div_unique s (x / s / n) (x % s) (mod-lt x hs))
        (mod_unique s (x / s / n) (x % s) (mod-lt x hs))
      ∙ ap (λ (t : ℕ). t * s + x % s) (div-add-mod' (x / s) n)
      ∙ div-add-mod' x s

  strip_at : (d l : ℕ) → block_at n s d l / s ≡ l / s * n + d
  strip_at d l = div_unique s (l / s * n + d) (l % s) (mod-lt l hs)

  pub disk_of-block_at : (d l : ℕ) → d < n → disk_of n s (block_at n s d l) ≡ d
  disk_of-block_at d l h = ap (λ (t : ℕ). t % n) (strip_at d l) ∙ mod_unique n (l / s) d h

  pub lba_of-block_at : (d l : ℕ) → d < n → lba_of n s (block_at n s d l) ≡ l
  lba_of-block_at d l h =
      ap₂ (λ q m. q * s + m) (ap (λ (t : ℕ). t / n) (strip_at d l) ∙ div_unique n (l / s) d h)
        (mod_unique s (l / s * n + d) (l % s) (mod-lt l hs))
      ∙ div-add-mod' l s

  pub lba_of-le : (x : ℕ) → lba_of n s x ≤ x
  lba_of-le x = omega (
    arith,
    div-add-mod' x s,
    mul-le-mul_right {m = x / s / n} {n = x / s} s (div-le_self (x / s) n),
  )

  -- A block of an array of `m` strips to a base bdev stands inside that base bdev.
  pub lba_of-lt : (m x : ℕ) → x < m * s * n → lba_of n s x < m * s
  lba_of-lt m x h =
      let p : x / s < m * n = (div-lt_iff_lt-mul {k = s} {x = x} {y = m * n} hs).1 (omega arith) in
      let q : x / s / n < m = (div-lt_iff_lt-mul {k = n} {x = x / s} {y = m} hn).1 p in
      omega (arith, mod-lt x hs, mul_step (x / s / n) m s q)

-- What `raid0_start` leaves behind: each of the `n` base bdevs has `m` strips.
pub record IsLaidOut (r : RaidBdev) (m : ℕ) : Type 0 where
  pub some_bdevs : 0 < r.num_base_bdevs
  pub few_bdevs : r.num_base_bdevs < 256
  pub power : r.strip_size ≡ 2 ^ r.strip_size_shift
  pub word : r.strip_size < 2 ^ 32
  pub count : r.bdev_blockcnt ≡ m * r.strip_size * r.num_base_bdevs
  pub count_fits : r.bdev_blockcnt < u64_mod
  pub sizes : (d : ℕ) → d < r.num_base_bdevs → (base_info r d).data_size ≡ m * r.strip_size
  pub room :
      (d : ℕ)
      → d < r.num_base_bdevs
      → (base_info r d).data_offset + (base_info r d).data_size < u64_mod

-- A range of blocks as `_raid0_get_io_range` gets it: `num` blocks from block `off` on.
pub record IsRange (n s k off num : ℕ) : Type 0 where
  pub some_bdevs : 0 < n
  pub few_bdevs : n < 256
  pub power : s ≡ 2 ^ k
  pub word : s < 2 ^ 32
  pub some_blocks : 0 < num
  pub in_word : off + num < u64_mod
