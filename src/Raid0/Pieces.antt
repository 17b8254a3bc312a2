-- ===== src/Raid0/Pieces.antt =====
-- The values that `_raid0_get_io_range` and `_raid0_split_io_range` of raid/raid0.c compute, without the
-- wrap-around of `uint64_t`, and what the pieces of the involved base bdevs hold.
use flex_bso.Common.{
  ℕ, suc, ◌+◌, ◌-◌, ◌*◌, ◌/◌, ◌%◌, ◌^◌, ◌≤◌, ◌<◌, ◌≡◌, ◌↔◌, sym, subst, ap, ap₂, ◌∙◌, arith,
  u64_mod, dec_lt, ℕ_discrete, min, ltb, ◌==◌, if◌then◌else◌, add64, sub64, mul64,
}
use native.Mathlib.Nat.{
  div-add-mod', mod-lt, mul-sub, mul_comm, suc-mul, mul-le-mul_right, le-mul_of_pos_right,
  div-le_self, le-div_iff_mul-le, mod-add-mod, add-mod, mod-le,
}
use flex_bso.Common.Lex.{div_unique, mul_step}
use Prim.Native.Nat.{max}
use flex_bso.Common.Bits.{pow-pos}
use flex_bso.Raid0.{IoRange, raid0_get_io_range, raid0_split_io_range}
use flex_bso.Raid0.Geometry.{lba_of, block_at, IsRange, block_at-place, lba_of-block_at, lba_of-le}
use flex_bso.Raid0.Strips.{
  first_strip, strips_to, first_block, end_block, first_block-le, le-first_block, end_block-lt,
  lt-end_block, strips_to-lt, at_most,
}

-- The machine arithmetic of one piece, from strip `st` at `so` to strip `en` at `eo`.
offset_value : (st so s : ℕ) → st * s + so < u64_mod → add64 so (mul64 st s) ≡ st * s + so
offset_value st so s h = omega arith

strip_count : (st en : ℕ) → st ≤ en → en < u64_mod → sub64 (add64 (sub64 en st) 1) 1 ≡ en - st
strip_count st en h k = omega arith

nblocks_value :
    (st en so eo s : ℕ)
    → 0 < s
    → st ≤ en
    → en * s + eo + 1 < u64_mod
    → st * s + so ≤ en * s + eo
    → add64 (sub64 (add64 (mul64 (sub64 (add64 (sub64 en st) 1) 1) s) eo) so) 1
      ≡ en * s + eo + 1 - (st * s + so)
nblocks_value st en so eo s hs h k le =
    rw (strip_count st en h (omega (arith, le-mul_of_pos_right en hs)))
      (omega (arith, product, mul-le-mul_right s h))
  where
    product : (en - st) * s ≡ en * s - st * s
    product =
        mul_comm (en - st) s ∙ mul-sub s en st ∙ ap₂ (λ a b. a - b) (mul_comm s en) (mul_comm s st)

module _ (n s k off num : ℕ) (v : IsRange n s k off num) where
  hn : 0 < n
  hn = v.some_bdevs

  e : s ≡ 2 ^ k
  e = v.power

  abbrev pub z : ℕ
  z = off + num - 1

  hs : 0 < s
  hs = rw e (pow-pos k)

  abbrev pub plain : IoRange
  plain = record {
    range_strip_size = s;
    start_strip_in_disk = off / s / n;
    end_strip_in_disk = z / s / n;
    start_offset_in_strip = off % s;
    end_offset_in_strip = z % s;
    start_disk = off / s % n;
    end_disk = z / s % n;
    n_disks_involved = min (z / s - off / s + 1) n;
  }

  total : sub64 (add64 off num) (if ltb 0 num then 1 else 0) ≡ z
  total = ground arith

  strips_le : off / s ≤ z / s
  strips_le =
      (le-div_iff_mul-le {k = s} {x = off / s} {y = z} hs).1 (omega (arith, div-add-mod' off s))

  pub get_io_range_value : raid0_get_io_range n s k off num ≡ plain
  unfolding raid0_get_io_range
  get_io_range_value =
      rw (total, ← e)
        (ground (arith, mod-lt (off / s) hn, mod-lt (z / s) hn, strips_le, div-le_self z s))

  module _ (d : ℕ) (hd : d < n) (h : first_block n s off d < end_block n s z d) where
    abbrev F : ℕ
    F = first_strip n (off / s) d

    abbrev L : ℕ
    L = strips_to n (z / s) d

    abbrev so : ℕ
    so = if d == off / s % n then off % s else 0

    abbrev eo : ℕ
    eo = if d == z / s % n then z % s else sub64 s 1

    so-lt : so < s
    so-lt = ground (arith, mod-lt off hs)

    -- The first block is a block of the range, so its strip is not behind the last one.
    F-lt : F < L
    F-lt = strips_to-lt n hn (z / s) d F hd (
        subst (λ t. t * n + d ≤ z / s) (div_unique s F so so-lt)
          (at_most n s hn hs z d (first_block n s off d) hd
            (lt-end_block n s hn hs z d (first_block n s off d) hd h)))

    end_split : end_block n s z d ≡ (L - 1) * s + eo + 1
    end_split = elim (ℕ_discrete d (z / s % n)) [
      | yes q ↦ ground (arith, v.word, ap (λ (t : ℕ). t * s) (on_last q))
      | no q ↦ ground (arith, v.word, last_step)
    ]
      where
        on_last : d ≡ z / s % n → L - 1 ≡ z / s / n
        on_last q = ground arith

        last_step : L * s ≡ (L - 1) * s + s
        last_step = ap (λ (t : ℕ). t * s) whole ∙ suc-mul (L - 1) s
          where
            whole : L ≡ suc (L - 1)
            whole = omega (arith, F-lt)

    start_strip_value : (if ltb d (off / s % n) then add64 (off / s / n) 1 else off / s / n) ≡ F
    start_strip_value = ground (arith, div-le_self (off / s) n, div-le_self off s)

    end_strip_value : (if ltb (z / s % n) d then sub64 (z / s / n) 1 else z / s / n) ≡ L - 1
    end_strip_value = ground (arith, div-le_self (z / s) n, div-le_self z s, F-lt)

    end-le : end_block n s z d ≤ z + 1
    end-le = omega (
      arith,
      h,
      lt-end_block n s hn hs z d (end_block n s z d - 1) hd (omega (arith, h)),
      lba_of-block_at n s hn hs d (end_block n s z d - 1) hd,
      lba_of-le n s hn hs (block_at n s d (end_block n s z d - 1)),
    )

    pub split_value : raid0_split_io_range plain d ≡ record {
      offset_in_disk = first_block n s off d;
      nblocks_in_disk = end_block n s z d - first_block n s off d;
    }
    unfolding raid0_split_io_range
    split_value =
        rw (start_strip_value, end_strip_value)
          (λ i. record {
            offset_in_disk = offset_value F so s (omega (arith, h, end-le)) i;
            nblocks_in_disk =
                (nblocks_value F (L - 1) so eo s hs (omega (arith, F-lt))
                      (omega (arith, end-le, end_split)) (omega (arith, h, end_split))
                    ∙ ap (λ t. t - first_block n s off d) (sym end_split))
                  i;
          })

  -- Slot `j` has a strip of the range.
  module _ (j : ℕ) (hj : j < min (z / s - off / s + 1) n) where
    abbrev t : ℕ
    t = off / s + j

    abbrev pub slot : ℕ
    slot = (off / s % n + j) % n

    pub slot-lt : slot < n
    slot-lt = mod-lt (off / s % n + j) hn

    slot_strip : slot ≡ t % n
    slot_strip = mod-add-mod (off / s) n j

    t-le : t ≤ z / s
    t-le = omega (arith, strips_le)

    -- A block of the range in strip `t`.
    abbrev block : ℕ
    block = max off (t * s)

    block-strip : block / s ≡ t
    block-strip = elim (dec_lt 0 j) [
      | yes p ↦ ap (λ (u : ℕ). u / s) (starts p) ∙ div_unique s t 0 hs
      | no p ↦ ap (λ (u : ℕ). u / s) (first p) ∙ omega arith
    ]
      where
        starts : 0 < j → block ≡ t * s + 0
        starts p =
            omega (arith, mul_step (off / s) t s (omega arith), div-add-mod' off s, mod-lt off hs)

        first : ¬ (0 < j) → block ≡ off
        first p = omega (arith, div-add-mod' off s, ap (λ (u : ℕ). u * s) (zero_slot p))
          where
            zero_slot : ¬ (0 < j) → t ≡ off / s
            zero_slot p = omega arith

    block-le : block ≤ z
    block-le = omega (arith, mul-le-mul_right s t-le, div-add-mod' z s)

    abbrev l0 : ℕ
    l0 = lba_of n s block

    block_lem : block_at n s slot l0 ≡ block
    block_lem =
        ap (λ (d : ℕ). block_at n s d l0) (slot_strip ∙ ap (λ (u : ℕ). u % n) (sym block-strip))
        ∙ block_at-place n s hn hs block

    pub slot_nonempty : first_block n s off slot < end_block n s z slot
    slot_nonempty = omega (
      arith,
      first_block-le n s hn hs off slot l0 slot-lt (omega (arith, block_lem)),
      end_block-lt n s hn hs z slot l0 slot-lt (omega (arith, block_lem, block-le)),
    )

    pub slot-exact :
        (l : ℕ)
        → ((first_block n s off slot ≤ l)
            × (l < first_block n s off slot + (end_block n s z slot - first_block n s off slot)))
          ↔ ((off ≤ block_at n s slot l) × (block_at n s slot l < off + num))
    slot-exact l = (
      (λ p. (
        le-first_block n s hn hs off slot l slot-lt p.0,
        omega (
          arith,
          slot_nonempty,
          lt-end_block n s hn hs z slot l slot-lt (omega (arith, slot_nonempty, p.1)),
        ),
      )),
      (λ p. (
        first_block-le n s hn hs off slot l slot-lt p.0,
        omega (arith, slot_nonempty, end_block-lt n s hn hs z slot l slot-lt (omega (arith, p.1))),
      )),
    )

  -- The strip of a block of the range is that of some slot.
  pub slot_of :
      (x : ℕ)
      → off ≤ x
      → x ≤ z
      → (j : ℕ) × (j < min (z / s - off / s + 1) n) × ((off / s % n + j) % n ≡ x / s % n)
  slot_of x lo hi = (
    (x / s - off / s) % n,
    omega (
      arith,
      mod-lt (x / s - off / s) hn,
      mod-le (x / s - off / s) n,
      div_mono off x lo,
      div_mono x z hi,
    ),
    sym (add-mod (off / s) (x / s - off / s) n)
        ∙ ap (λ (u : ℕ). u % n) (omega (arith, div_mono off x lo)),
  )
    where
      div_mono : (a b : ℕ) → a ≤ b → a / s ≤ b / s
      div_mono a b h =
          (le-div_iff_mul-le {k = s} {x = a / s} {y = b} hs).1 (omega (arith, div-add-mod' a s))
