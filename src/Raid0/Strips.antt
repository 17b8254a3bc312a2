-- ===== src/Raid0/Strips.antt =====
-- The pieces of a range of a striped array (raid/raid0.c) on one base bdev, as plain arithmetic: the
-- blocks `first_block` to `end_block` of the base bdev are exactly those of the range.
use flex_bso.Common.{
  ℕ, ◌+◌, ◌*◌, ◌/◌, ◌%◌, ◌≤◌, ◌<◌, ◌≡◌, ◌≢◌, ◌⊎◌, sym, subst, ap, ◌∙◌, inl, inr, arith, dec_lt,
  ℕ_discrete, ltb, ◌==◌, if◌then◌else◌,
}
use native.Mathlib.Nat.{div-add-mod', mod-lt, mul-le-mul_right}
use flex_bso.Common.Lex.{lex_le, le_lex, div_unique, mod_unique, mul_step}
use flex_bso.Raid0.Geometry.{block_at}

-- The first strip of base bdev `d` that is not before strip `t` of the array, and the number of its
-- strips that are not behind strip `t`.
abbrev pub first_strip : ℕ → ℕ → ℕ → ℕ
first_strip n t d = if ltb d (t % n) then t / n + 1 else t / n

abbrev pub strips_to : ℕ → ℕ → ℕ → ℕ
strips_to n t d = if ltb (t % n) d then t / n else t / n + 1

module _ (n : ℕ) (hn : 0 < n) (t d q : ℕ) (hd : d < n) where
  first_strip-le : first_strip n t d ≤ q → t ≤ q * n + d
  first_strip-le h =
      subst (λ u. u ≤ q * n + d) (div-add-mod' t n)
        (le_lex n (t / n) (t % n) q d (mod-lt t hn) hd (ground arith))

  le-first_strip : t ≤ q * n + d → first_strip n t d ≤ q
  le-first_strip h =
      ground
        (arith, lex_le n (t / n) (t % n) q d (mod-lt t hn) hd (omega (arith, div-add-mod' t n)))

  lt-strips_to : q < strips_to n t d → q * n + d ≤ t
  lt-strips_to h =
      subst (λ u. q * n + d ≤ u) (div-add-mod' t n)
        (le_lex n q d (t / n) (t % n) hd (mod-lt t hn) (ground arith))

  pub strips_to-lt : q * n + d ≤ t → q < strips_to n t d
  strips_to-lt h =
      ground
        (arith, lex_le n q d (t / n) (t % n) hd (mod-lt t hn) (omega (arith, div-add-mod' t n)))

  same_strip : t / n ≡ q → t % n ≡ d → t ≡ q * n + d
  same_strip e f = omega (arith, div-add-mod' t n, ap (λ (u : ℕ). u * n) e)

  strip_parts : t ≡ q * n + d → (t / n ≡ q) × (t % n ≡ d)
  strip_parts e =
      (ap (λ (u : ℕ). u / n) e ∙ div_unique n q d hd, ap (λ (u : ℕ). u % n) e ∙ mod_unique n q d hd)

-- The first block of base bdev `d` that is not before block `a` of the array, and the first one that
-- is behind block `z`.
abbrev pub first_block : ℕ → ℕ → ℕ → ℕ → ℕ
first_block n s a d = first_strip n (a / s) d * s + (if d == a / s % n then a % s else 0)

abbrev pub end_block : ℕ → ℕ → ℕ → ℕ → ℕ
end_block n s z d = if d == z / s % n then z / s / n * s + z % s + 1 else strips_to n (z / s) d * s

module _ (n s : ℕ) (hn : 0 < n) (hs : 0 < s) (a d l : ℕ) (hd : d < n) where
  abbrev q : ℕ
  q = l / s

  abbrev o : ℕ
  o = l % s

  start_in_strip : ℕ
  start_in_strip = if d == a / s % n then a % s else 0

  start_in_strip-lt : start_in_strip < s
  unfolding start_in_strip
  start_in_strip-lt = ground (arith, mod-lt a hs)

  -- The place of a block in lexicographic form.
  block-le-lex : a ≤ block_at n s d l → (a / s < q * n + d) ⊎ ((a / s ≡ q * n + d) × (a % s ≤ o))
  block-le-lex h =
      lex_le s (a / s) (a % s) (q * n + d) o (mod-lt a hs) (mod-lt l hs)
        (omega (arith, div-add-mod' a s))

  lex-block-le : (a / s < q * n + d) ⊎ ((a / s ≡ q * n + d) × (a % s ≤ o)) → a ≤ block_at n s d l
  lex-block-le h =
      subst (λ u. u ≤ block_at n s d l) (div-add-mod' a s)
        (le_lex s (a / s) (a % s) (q * n + d) o (mod-lt a hs) (mod-lt l hs) h)

  first-le-lex :
      first_block n s a d ≤ l
      → (first_strip n (a / s) d < q) ⊎ ((first_strip n (a / s) d ≡ q) × (start_in_strip ≤ o))
  unfolding start_in_strip
  first-le-lex h =
      lex_le s (first_strip n (a / s) d) start_in_strip q o start_in_strip-lt (mod-lt l hs)
        (omega (arith, div-add-mod' l s))

  lex-first-le :
      (first_strip n (a / s) d < q) ⊎ ((first_strip n (a / s) d ≡ q) × (start_in_strip ≤ o))
      → first_block n s a d ≤ l
  unfolding start_in_strip
  lex-first-le h =
      subst (λ u. first_block n s a d ≤ u) (div-add-mod' l s)
        (le_lex s (first_strip n (a / s) d) start_in_strip q o start_in_strip-lt (mod-lt l hs) h)

  pub first_block-le : a ≤ block_at n s d l → first_block n s a d ≤ l
  unfolding start_in_strip
  first_block-le h = lex-first-le (
      ground
        (arith, block-le-lex h, le-first_strip n hn (a / s) d q hd, same_strip n hn (a / s) d q hd))

  pub le-first_block : first_block n s a d ≤ l → a ≤ block_at n s d l
  unfolding start_in_strip
  le-first_block h = lex-block-le (
      ground (
        arith,
        first-le-lex h,
        first_strip-le n hn (a / s) d q hd,
        strip_parts n hn (a / s) d q hd,
      ))

module _ (n s : ℕ) (hn : 0 < n) (hs : 0 < s) (z d l : ℕ) (hd : d < n) where
  abbrev strip_of : ℕ
  strip_of = l / s * n + d

  block-le-end : block_at n s d l ≤ z → (strip_of < z / s) ⊎ ((strip_of ≡ z / s) × (l % s ≤ z % s))
  block-le-end h =
      lex_le s (l / s * n + d) (l % s) (z / s) (z % s) (mod-lt l hs) (mod-lt z hs)
        (omega (arith, div-add-mod' z s))

  end-block-le : (strip_of < z / s) ⊎ ((strip_of ≡ z / s) × (l % s ≤ z % s)) → block_at n s d l ≤ z
  end-block-le h =
      subst (λ u. block_at n s d l ≤ u) (div-add-mod' z s)
        (le_lex s (l / s * n + d) (l % s) (z / s) (z % s) (mod-lt l hs) (mod-lt z hs) h)

  -- The last strip, where it is on this base bdev, and the whole strips before its end.
  in_last :
      (l ≤ z / s / n * s + z % s) → (l / s < z / s / n) ⊎ ((l / s ≡ z / s / n) × (l % s ≤ z % s))
  in_last h =
      lex_le s (l / s) (l % s) (z / s / n) (z % s) (mod-lt l hs) (mod-lt z hs)
        (omega (arith, div-add-mod' l s))

  last_in :
      (l / s < z / s / n) ⊎ ((l / s ≡ z / s / n) × (l % s ≤ z % s)) → l ≤ z / s / n * s + z % s
  last_in h =
      subst (λ u. u ≤ z / s / n * s + z % s) (div-add-mod' l s)
        (le_lex s (l / s) (l % s) (z / s / n) (z % s) (mod-lt l hs) (mod-lt z hs) h)

  whole_strip : (e : ℕ) → l < e * s → l / s < e
  whole_strip e h = elim (dec_lt (l / s) e) [
    | yes p ↦ p
    | no p ↦
        absurd
          (omega (arith, div-add-mod' l s, mul-le-mul_right {m = e} {n = l / s} s (omega arith)))
  ]

  strip_whole : (e : ℕ) → l / s < e → l < e * s
  strip_whole e h = omega (arith, div-add-mod' l s, mod-lt l hs, mul_step (l / s) e s h)

  -- The strip of block `l` against strip `z / s`, part by part.
  last_strip : strip_of ≤ z / s → (l / s < z / s / n) ⊎ ((l / s ≡ z / s / n) × (d ≤ z / s % n))
  last_strip h =
      lex_le n (l / s) d (z / s / n) (z / s % n) hd (mod-lt (z / s) hn)
        (omega (arith, div-add-mod' (z / s) n))

  same : l / s ≡ z / s / n → d ≡ z / s % n → strip_of ≡ z / s
  same e f = sym (same_strip n hn (z / s) d (l / s) hd (sym e) (sym f))

  parts : strip_of ≡ z / s → (z / s / n ≡ l / s) × (z / s % n ≡ d)
  parts e = strip_parts n hn (z / s) d (l / s) hd (sym e)

  on_end : d ≡ z / s % n → end_block n s z d ≡ z / s / n * s + z % s + 1
  on_end e = ground arith

  off_end : d ≢ z / s % n → end_block n s z d ≡ strips_to n (z / s) d * s
  off_end e = ground arith

  pub at_most : block_at n s d l ≤ z → strip_of ≤ z / s
  at_most h = ground (arith, block-le-end h)

  pub end_block-lt : block_at n s d l ≤ z → l < end_block n s z d
  end_block-lt h = elim (ℕ_discrete d (z / s % n)) [
    | yes e ↦
        omega
          (arith, on_end e, last_in (ground (arith, block-le-end h, last_strip (at_most h), same)))
    | no e ↦ omega (
      arith,
      off_end e,
      strip_whole (strips_to n (z / s) d) (strips_to-lt n hn (z / s) d (l / s) hd (at_most h)),
    )
  ]

  earlier : l / s < z / s / n → strip_of < z / s
  earlier h = omega (arith, mul_step (l / s) (z / s / n) n h, div-add-mod' (z / s) n)

  on_last : l < end_block n s z d → d ≡ z / s % n → block_at n s d l ≤ z
  on_last h e = elim (in_last (omega (arith, on_end e))) [
    | inl p ↦ end-block-le (inl (earlier p))
    | inr p ↦ end-block-le (inr (same p.0 e, p.1))
  ]

  off_last : l < end_block n s z d → d ≢ z / s % n → block_at n s d l ≤ z
  off_last h e =
      let before : strip_of ≤ z / s =
        lt-strips_to n hn (z / s) d (l / s) hd
          (whole_strip (strips_to n (z / s) d) (omega (arith, off_end e))) in
      elim (ℕ_discrete strip_of (z / s)) [
        | yes f ↦ absurd (e (sym (parts f).1))
        | no f ↦ end-block-le (inl (omega arith))
      ]

  pub lt-end_block : l < end_block n s z d → block_at n s d l ≤ z
  lt-end_block h = elim (ℕ_discrete d (z / s % n)) [ yes e ↦ on_last h e | no e ↦ off_last h e ]
