-- ===== src/Passthru/Trim.antt =====
-- vbdev_passthru.c: the padding that a read trims off is the padding that the write put there.
use flex_bso.Common.{
  ℕ, zero, suc, ◌+◌, ◌-◌, ◌≤◌, ◌<◌, ◌^◌, ◌≡◌, ◌∙◌, refl, sym, ap, ap₂, List, [], ◌∷◌, ◌++◌, length,
  get_or, take, drop, join, arith, length-append, get_or-append_left, get_or-append_right,
  length-replicate, take-append_length, drop-append_length, take-append, drop-append,
  take-replicate, drop-replicate, min,
}
use flex_bso.Passthru.Buffers.{zeros, zeros_below, trim}
use flex_bso.Passthru.Padding.{total}

-- A list of bytes that ends in no zero byte.
abbrev pub IsUnpadded : List ℕ → Type 0
IsUnpadded v = zeros_below v (length v) ≡ 0

-- The pieces in which the buffers `vs` hold the data `c` end in no zero byte.
unfoldable pub IsClean : List ℕ → List (List ℕ) → Type 0
IsClean c [] = Unit
IsClean c (v ∷ vs) = IsUnpadded (take (length v) c) × IsClean (drop (length v) c) vs

-- Bytes that only `w` has do not count below the length of `u`.
zeros_below-append :
    (u w : List ℕ) (i : ℕ) → i ≤ length u → zeros_below (u ++ w) i ≡ zeros_below u i
unfolding zeros_below
zeros_below-append u w zero h = refl
zeros_below-append u w (suc i) h =
    ap₂ (λ b n. elim b as (λ _. ℕ) [ zero ↦ suc n | suc _ ↦ 0 ])
      (get_or-append_left u w i 1 (omega arith)) (zeros_below-append u w i (omega arith))

zero-get : (n i : ℕ) → i < n → get_or (zeros n) i 1 ≡ 0
zero-get zero i h = absurd (omega arith)
zero-get (suc n) zero h = refl
zero-get (suc n) (suc i) h = zero-get n i (omega arith)

-- Every zero that follows counts.
zeros_below-zeros :
    (u : List ℕ) (p j : ℕ)
    → j ≤ p
    → zeros_below (u ++ zeros p) (length u + j) ≡ j + zeros_below u (length u)
unfolding zeros_below
zeros_below-zeros u p zero h =
    ap (zeros_below (u ++ zeros p)) (omega arith)
    ∙ zeros_below-append u (zeros p) (length u) (omega arith)
    ∙ omega arith
zeros_below-zeros u p (suc j) h =
    ap (zeros_below (u ++ zeros p)) (plus_suc (length u) j)
    ∙ ap
        (λ b. elim b as (λ _. ℕ) [
          | zero ↦ suc (zeros_below (u ++ zeros p) (length u + j))
          | suc _ ↦ 0
        ])
        (get_or-append_right u (zeros p) j 1 ∙ zero-get p j (omega arith))
    ∙ omega (arith, zeros_below-zeros u p j (omega arith))
  where
    plus_suc : (a b : ℕ) → a + suc b ≡ suc (a + b)
    plus_suc a b = omega arith

pub padded_zeros :
    (u : List ℕ) (p : ℕ) → IsUnpadded u → zeros_below (u ++ zeros p) (length (u ++ zeros p)) ≡ p
padded_zeros u p h =
    ap (zeros_below (u ++ zeros p))
      (length-append u (zeros p) ∙ ap (length u +◌) (length-replicate {A = ℕ} p 0))
    ∙ omega (arith, zeros_below-zeros u p p (omega arith))

padding : List (List ℕ) → ℕ
padding [] = 0
padding (v ∷ vs) = zeros_below v (length v) + padding vs

-- Of buffers that hold `c` and `p` zeros, with clean pieces, exactly the zeros are trimmed.
padding-eq :
    (vs : List (List ℕ)) (c : List ℕ) (p : ℕ)
    → join vs ≡ c ++ zeros p
    → IsClean c vs
    → padding vs ≡ p
unfolding IsClean padding
padding-eq [] c p h k =
    omega (arith, ap length h, length-append c (zeros p), length-replicate {A = ℕ} p 0)
padding-eq (v ∷ vs) c p h k =
    omega (arith, front, padding-eq vs (drop (length v) c) (p - over) back k.1)
  where
    over : ℕ
    over = length v - length c

    piece : v ≡ take (length v) c ++ zeros (min over p)
    piece =
        sym (take-append_length v (join vs))
        ∙ ap (take (length v)) h
        ∙ take-append (length v) c (zeros p)
        ∙ ap (take (length v) c ++◌) (take-replicate over p 0)

    back : join vs ≡ drop (length v) c ++ zeros (p - over)
    back =
        sym (drop-append_length v (join vs))
        ∙ ap (drop (length v)) h
        ∙ drop-append (length v) c (zeros p)
        ∙ ap (drop (length v) c ++◌) (drop-replicate over p 0)

    front : zeros_below v (length v) ≡ min over p
    front =
        ap (λ w. zeros_below w (length w)) piece ∙ padded_zeros (take (length v) c) (min over p) k.0

trim-padding :
    (vs : List (List ℕ)) (n : ℕ) → padding vs ≤ n → n < 2 ^ 64 → trim vs n + padding vs ≡ n
unfolding trim padding
trim-padding [] n h w = omega arith
trim-padding (v ∷ vs) n h w = omega (arith, trim-padding vs n (omega arith) w)

-- The length that a read finds by trimming is that of the data that was written.
pub trim-length :
    (vs : List (List ℕ)) (c : List ℕ) (p : ℕ)
    → join vs ≡ c ++ zeros p
    → IsClean c vs
    → total vs < 2 ^ 64
    → trim vs (total vs) ≡ length c
trim-length vs c p h k w = omega (
  arith,
  padding-eq vs c p h k,
  trim-padding vs (total vs) (omega (arith, padding-eq vs c p h k, size)) w,
  size,
)
  where
    size : total vs ≡ length c + p
    size = omega (arith, ap length h, length-append c (zeros p), length-replicate {A = ℕ} p 0)
