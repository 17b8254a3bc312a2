-- ===== src/Concat/Start.antt =====
-- `concat_start` of raid/concat.c: the block ranges it computes.
use flex_bso.Common.{
  subst, ap, sym, ℕ, zero, suc, ◌+◌, ◌-◌, ◌*◌, ◌/◌, ◌^◌, ◌≤◌, ◌<◌, ◌≡◌, ◌∙◌, refl, List, [], ◌∷◌,
  arith, u64_mod, length, get_or, add64, true,
}
use native.Mathlib.Nat.{div-add-mod', mod-lt, add-mul}
use flex_bso.Common.Lex.{div_unique}
use flex_bso.Common.Bits.{pow-pos}
use flex_bso.Bdev.{ok}
use flex_bso.RaidBdev.{RaidBdev, BaseInfo, no_info, base_info}
use flex_bso.Concat.{ConcatBlockRange, no_range, pd_block_cnt, lay_out, concat_start, range_at}
use flex_bso.Concat.Layout.{IsConcat, first, behind}

-- The data blocks of all base bdevs.
abbrev pub total_size : List BaseInfo → ℕ
total_size [] = 0
total_size (i ∷ is) = i.data_size + total_size is

-- The greatest multiple of the strip size that fits.
abbrev pub trimmed : ℕ → ℕ → ℕ
trimmed s x = x / s * s

-- Where range `i` starts, if the first one starts at `total`.
abbrev pub start_of : ℕ → ℕ → List BaseInfo → ℕ → ℕ
start_of s total [] i = total
start_of s total (b ∷ bs) zero = total
start_of s total (b ∷ bs) (suc i) = start_of s (total + trimmed s b.data_size) bs i

module _ (k : ℕ) where
  abbrev s : ℕ
  s = 2 ^ k

  trimmed-le : (x : ℕ) → trimmed s x ≤ x
  trimmed-le x = omega (arith, div-add-mod' x s)

  count_lem : (i : BaseInfo) → i.data_size < u64_mod → pd_block_cnt k i ≡ trimmed s i.data_size
  count_lem i h = omega (arith, trimmed-le i.data_size)

  -- What the loop does for base bdev `i`, from `total` on.
  record LaidAt (total : ℕ) (is : List BaseInfo) (i : ℕ) : Type 0 where
    start : (get_or (lay_out k total is).ranges i no_range).range_start ≡ start_of s total is i
    range :
        (get_or (lay_out k total is).ranges i no_range).range_length
        ≡ trimmed s (get_or is i no_info).data_size
    size :
        (get_or (lay_out k total is).infos i no_info).data_size
        ≡ trimmed s (get_or is i no_info).data_size
    offset :
        (get_or (lay_out k total is).infos i no_info).data_offset
        ≡ (get_or is i no_info).data_offset

  next_total :
      (total : ℕ) (b : BaseInfo) (bs : List BaseInfo)
      → total + total_size (b ∷ bs) < u64_mod
      → add64 total (pd_block_cnt k b) ≡ total + trimmed s b.data_size
  next_total total b bs w = omega (arith, count_lem b (omega arith), trimmed-le b.data_size)

  laid_next :
      (total : ℕ) (b : BaseInfo) (bs : List BaseInfo) (i : ℕ)
      → total + total_size (b ∷ bs) < u64_mod
      → LaidAt (total + trimmed s b.data_size) bs i
      → LaidAt total (b ∷ bs) (suc i)
  unfolding lay_out
  laid_next total b bs i w rest = record {
    start = rw (next_total total b bs w) rest.start;
    range = rw (next_total total b bs w) rest.range;
    size = rw (next_total total b bs w) rest.size;
    offset = rw (next_total total b bs w) rest.offset;
  }

  laid_at :
      (total : ℕ) (is : List BaseInfo) (i : ℕ)
      → i < length is
      → total + total_size is < u64_mod
      → LaidAt total is i
  unfolding lay_out
  laid_at total [] i h w = absurd (omega arith)
  laid_at total (b ∷ bs) zero h w = record {
    start = refl;
    range = count_lem b (omega arith);
    size = count_lem b (omega arith);
    offset = refl;
  }
  laid_at total (b ∷ bs) (suc i) h w = laid_next total b bs i w (
      laid_at (total + trimmed s b.data_size) bs i (omega arith)
        (omega (arith, trimmed-le b.data_size)))

  total_lem :
      (total : ℕ) (is : List BaseInfo)
      → total + total_size is < u64_mod
      → (lay_out k total is).total_blockcnt ≡ start_of s total is (length is)
  unfolding lay_out
  total_lem total [] w = refl
  total_lem total (b ∷ bs) w =
      rw (next_total total b bs w)
        (total_lem (total + trimmed s b.data_size) bs (omega (arith, trimmed-le b.data_size)))

  start_next :
      (total : ℕ) (is : List BaseInfo) (i : ℕ)
      → i < length is
      → start_of s total is (suc i)
        ≡ start_of s total is i + trimmed s (get_or is i no_info).data_size
  start_next total [] i h = absurd (omega arith)
  start_next total (b ∷ []) zero h = refl
  start_next total (b ∷ (b' ∷ bs)) zero h = refl
  start_next total (b ∷ bs) (suc i) h =
      start_next (total + trimmed s b.data_size) bs i (omega arith)

  start_bound :
      (total : ℕ) (is : List BaseInfo) (i : ℕ) → start_of s total is i ≤ total + total_size is
  start_bound total [] i = omega arith
  start_bound total (b ∷ bs) zero = omega arith
  start_bound total (b ∷ bs) (suc i) =
      omega (arith, start_bound (total + trimmed s b.data_size) bs i, trimmed-le b.data_size)

  start_aligned : (q : ℕ) (is : List BaseInfo) (i : ℕ) → (m : ℕ) × (start_of s (q * s) is i ≡ m * s)
  start_aligned q [] i = (q, refl)
  start_aligned q (b ∷ bs) zero = (q, refl)
  start_aligned q (b ∷ bs) (suc i) =
      rw (← add-mul q (b.data_size / s) s) (start_aligned (q + b.data_size / s) bs i)

  start_multiple : (is : List BaseInfo) (i : ℕ) → (m : ℕ) × (start_of s 0 is i ≡ m * s)
  start_multiple is i =
      subst (λ t. (m : ℕ) × (start_of s t is i ≡ m * s)) no_strips (start_aligned 0 is i)
    where
      no_strips : 0 * s ≡ 0
      no_strips = omega arith

  trimmed-near : (x : ℕ) → x < trimmed s x + s
  trimmed-near x = omega (arith, div-add-mod' x s, mod-lt x (pow-pos k))

-- A multiple of `s` is what division by `s` says.
multiple : (s m v : ℕ) → 0 < s → v ≡ m * s → v ≡ v / s * s
multiple s m v h e =
    e ∙ ap (λ (q : ℕ). q * s) (sym (div_unique s m 0 h) ∙ ap (λ (t : ℕ). t / s) whole)
  where
    whole : m * s + 0 ≡ v
    whole = omega (arith, e)

-- An array whose base bdevs are all configured, before the module starts it.
pub record CanStart (r : RaidBdev) : Type 0 where
  pub slots : length r.base_bdev_info ≡ r.num_base_bdevs
  pub some_bdevs : 0 < r.num_base_bdevs
  pub few_bdevs : r.num_base_bdevs < 256
  pub power : r.strip_size ≡ 2 ^ r.strip_size_shift
  pub total_fits : total_size r.base_bdev_info < u64_mod
  pub room :
      (i : ℕ)
      → i < r.num_base_bdevs
      → (base_info r i).data_offset + (base_info r i).data_size < u64_mod

module _ (r : RaidBdev) (c : CanStart r) where
  abbrev is : List BaseInfo
  is = r.base_bdev_info

  abbrev k : ℕ
  k = r.strip_size_shift

  abbrev started : RaidBdev
  started = (concat_start true r).1

  abbrev rs : List ConcatBlockRange
  rs = (concat_start true r).2

  at_ : (i : ℕ) → i < r.num_base_bdevs → LaidAt k 0 is i
  at_ i h = laid_at k 0 is i (omega (arith, c.slots)) (omega (arith, c.total_fits))

  first_value : (i : ℕ) → i < r.num_base_bdevs → first started rs i ≡ start_of (2 ^ k) 0 is i
  unfolding concat_start
  first_value i h = (at_ i h).start

  behind_value :
      (i : ℕ) → i < r.num_base_bdevs → behind started rs i ≡ start_of (2 ^ k) 0 is (suc i)
  unfolding concat_start
  behind_value i h =
      omega (arith, (at_ i h).start, (at_ i h).range, start_next k 0 is i (omega (arith, c.slots)))

  laid_out : IsConcat started rs
  unfolding concat_start
  laid_out = record {
    some_bdevs = c.some_bdevs;
    few_bdevs = c.few_bdevs;
    power = c.power;
    at_zero = first_value 0 c.some_bdevs ∙ at_start is;
    next = λ i h. first_value (suc i) h ∙ sym (behind_value i (omega arith));
    aligned = aligned_at;
    sizes = λ i h. (at_ i h).size ∙ sym ((at_ i h).range);
    count =
        total_lem k 0 is (omega (arith, c.total_fits))
        ∙ ap (start_of (2 ^ k) 0 is) all_slots
        ∙ sym (behind_value (r.num_base_bdevs - 1) (omega (arith, c.some_bdevs)));
    in_word = λ i h. omega (arith, behind_value i h, start_bound k 0 is (suc i), c.total_fits);
    room = λ i h. omega (
      arith,
      (at_ i h).offset,
      (at_ i h).size,
      trimmed-le k (base_info r i).data_size,
      c.room i h,
    );
  }
    where
      at_start : (is : List BaseInfo) → start_of (2 ^ k) 0 is 0 ≡ 0
      at_start [] = refl
      at_start (b ∷ bs) = refl

      aligned_at :
          (i : ℕ)
          → i < r.num_base_bdevs
          → behind started rs i ≡ behind started rs i / r.strip_size * r.strip_size
      aligned_at i h =
          multiple r.strip_size (start_multiple k is (suc i)).0 (behind started rs i)
            (rw c.power (pow-pos k))
            (behind_value i h
              ∙ (start_multiple k is (suc i)).1
              ∙ ap (λ (t : ℕ). (start_multiple k is (suc i)).0 * t) (sym c.power))

      all_slots : length is ≡ suc (r.num_base_bdevs - 1)
      all_slots = omega (arith, c.slots, c.some_bdevs)

  -- With all slots filled, 1 to 255 base bdevs, a strip size that is 2 to the power of the shift,
  -- and data regions that end below block 2^64, all together too: when `calloc` succeeds, the module
  -- starts, and the layout is the one that requests rely on. The ranges stand one behind the other
  -- from block 0 on, the array is as long as they are together, and each is the greatest whole
  -- number of strips that fits on its base bdev.
  pub concat_start-layout :
      ((concat_start true r).0 ≡ ok)
      × IsConcat (concat_start true r).1 (concat_start true r).2
      × ((i : ℕ)
          → i < r.num_base_bdevs
          → ((range_at r (concat_start true r).2 i).range_length ≤ (base_info r i).data_size)
            × ((base_info r i).data_size
                < (range_at r (concat_start true r).2 i).range_length + r.strip_size))
  unfolding concat_start
  concat_start-layout = (
    refl,
    laid_out,
    λ i h. (
      omega (arith, (at_ i h).range, trimmed-le k (base_info r i).data_size),
      omega (arith, (at_ i h).range, trimmed-near k (base_info r i).data_size, c.power),
    ),
  )
