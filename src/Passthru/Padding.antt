-- ===== src/Passthru/Padding.antt =====
-- vbdev_passthru.c: what the buffers of a request hold after they were filled, and what trimming finds.
use flex_bso.Common.{
  ℕ, ◌+◌, ◌-◌, ◌<◌, ◌≡◌, ◌∙◌, refl, sym, ap, ap₂, Bool, true, false, ltb, List, [], ◌∷◌, ◌++◌,
  length, take, drop, join, memcpy, arith, dec_lt, append-nil, take-nil, drop-nil, take_all,
  drop_all, length-append, length-drop, memcpy-append, memcpy-nil, replicate-append,
  length-replicate,
}
use flex_bso.Passthru.Buffers.{
  gather, zeros, refill, fill_from, fill_compressed, spread_from, fill_decompressed,
}

-- The size of a request's buffers together.
abbrev pub total : List (List ℕ) → ℕ
total vs = length (join vs)

zeros-total :
    (v : List ℕ) (vs : List (List ℕ))
    → zeros (length v + total vs) ≡ zeros (length v) ++ zeros (total vs)
zeros-total v vs = replicate-append (length v) (total vs) 0

pub gather-join : (vs : List (List ℕ)) → gather vs ≡ join vs
unfolding gather
gather-join [] = refl
gather-join (v ∷ []) = sym (append-nil v)
gather-join (v ∷ w ∷ vs) = refl

split_copy :
    (v : List ℕ) (vs : List (List ℕ)) (file : List ℕ)
    → memcpy (zeros (total (v ∷ vs))) file
      ≡ refill v (take (length v) file) ++ memcpy (zeros (total vs)) (drop (length v) file)
split_copy v vs file =
    ap (λ n. memcpy (zeros n) file) (length-append v (join vs))
    ∙ ap (λ z. memcpy z file) (zeros-total v vs)
    ∙ memcpy-append (zeros (length v)) (zeros (total vs)) file
    ∙ ap (λ n. memcpy (zeros (length v)) (take n file) ++ memcpy (zeros (total vs)) (drop n file))
        (length-replicate (length v) 0)

spread-join :
    (vs : List (List ℕ)) (file : List ℕ)
    → join (spread_from vs file) ≡ memcpy (zeros (total vs)) file
unfolding spread_from
spread-join [] file = refl
spread-join (v ∷ vs) file =
    ap (refill v (take (length v) file) ++◌) (spread-join vs (drop (length v) file))
    ∙ sym (split_copy v vs file)

lt→ltb : {a b : ℕ} → a < b → ltb a b ≡ true
lt→ltb h = ground arith

not_lt→ltb : {a b : ℕ} → ¬ (a < b) → ltb a b ≡ false
not_lt→ltb h = ground arith

chosen_true {ℓ} :
    {A : Type ℓ} (t : Bool) (p q : A) → t ≡ true → elim t as (λ _. A) [ true ↦ p | false ↦ q ] ≡ p
chosen_true true p q h = refl
chosen_true false p q h = ground arith

chosen_false {ℓ} :
    {A : Type ℓ} (t : Bool) (p q : A) → t ≡ false → elim t as (λ _. A) [ true ↦ p | false ↦ q ] ≡ q
chosen_false false p q h = refl
chosen_false true p q h = ground arith

fill_longer :
    (v : List ℕ) (vs : List (List ℕ)) (file : List ℕ) (n : ℕ)
    → length v < n
    → fill_from (v ∷ vs) file n
      ≡ refill v (take (length v) file) ∷ fill_from vs (drop (length v) file) (n - length v)
unfolding fill_from
fill_longer v vs file n h = chosen_true (ltb (length v) n) _ _ (lt→ltb h)

fill_last :
    (v : List ℕ) (vs : List (List ℕ)) (file : List ℕ) (n : ℕ)
    → ¬ (length v < n)
    → fill_from (v ∷ vs) file n ≡ refill v (take n file) ∷ fill_from vs file 0
unfolding fill_from
fill_last v vs file n h = chosen_false (ltb (length v) n) _ _ (not_lt→ltb h)

-- Nothing left to copy: the rest is filled with zeros.
fill-nothing : (vs : List (List ℕ)) (file : List ℕ) → join (fill_from vs file 0) ≡ zeros (total vs)
unfolding fill_from
fill-nothing [] file = refl
fill-nothing (v ∷ vs) file =
    ap join (fill_last v vs file 0 (λ h. omega arith))
    ∙ ap₂ (λ x y. x ++ y) (memcpy-nil (zeros (length v))) (fill-nothing vs file)
    ∙ sym (ap zeros (length-append v (join vs)) ∙ zeros-total v vs)

fill-join :
    (vs : List (List ℕ)) (file : List ℕ)
    → join (fill_from vs file (length file)) ≡ memcpy (zeros (total vs)) file
unfolding fill_from
fill-join [] file = refl
fill-join (v ∷ vs) file = elim (dec_lt (length v) (length file)) [
  | yes h ↦
      ap join (fill_longer v vs file (length file) h)
      ∙ ap (refill v (take (length v) file) ++◌) (
          ap (λ n. join (fill_from vs (drop (length v) file) n)) (sym (length-drop (length v) file))
          ∙ fill-join vs (drop (length v) file))
      ∙ sym (split_copy v vs file)
  | no h ↦
      ap join (fill_last v vs file (length file) h)
      ∙ ap₂ (λ x y. refill v x ++ y)
          (take_all (length file) file (omega arith) ∙ sym (take_all (length v) file (omega arith)))
          (fill-nothing vs file
            ∙ sym (memcpy-nil (zeros (total vs)))
            ∙ ap (memcpy (zeros (total vs))) (sym (drop_all (length v) file (omega arith))))
      ∙ sym (split_copy v vs file)
]

one_buffer :
    (v file : List ℕ)
    → refill v (take (length file) file) ++ [] ≡ memcpy (zeros (total (v ∷ []))) file
one_buffer v file =
    append-nil (refill v (take (length file) file))
    ∙ ap (refill v) (take_all (length file) file (omega arith))
    ∙ ap (λ w. memcpy (zeros (length w)) file) (sym (append-nil v))

-- The buffers of a write hold the compressed data, cut off where they end, and zeros after it.
pub fill_compressed-join :
    (vs : List (List ℕ)) (file : List ℕ)
    → join (fill_compressed vs file (length file)) ≡ memcpy (zeros (total vs)) file
unfolding fill_compressed fill_from
fill_compressed-join [] file = refl
fill_compressed-join (v ∷ []) file = one_buffer v file
fill_compressed-join (v ∷ w ∷ vs) file = fill-join (v ∷ w ∷ vs) file

pub fill_decompressed-join :
    (vs : List (List ℕ)) (file : List ℕ)
    → join (fill_decompressed vs file (length file)) ≡ memcpy (zeros (total vs)) file
unfolding fill_decompressed spread_from
fill_decompressed-join [] file = refl
fill_decompressed-join (v ∷ []) file = one_buffer v file
fill_decompressed-join (v ∷ w ∷ vs) file = spread-join (v ∷ w ∷ vs) file

-- Buffers that are filled from an empty result hold zeros, however much was to be copied.
fill_from-nil : (vs : List (List ℕ)) (n : ℕ) → join (fill_from vs [] n) ≡ zeros (total vs)
unfolding fill_from
fill_from-nil [] n = refl
fill_from-nil (v ∷ vs) n = elim (dec_lt (length v) n) [
  | yes h ↦
      ap join (fill_longer v vs [] n h)
      ∙ ap₂ (λ x y. x ++ y) (ap (refill v) (take-nil (length v)) ∙ memcpy-nil (zeros (length v)))
          (ap (λ f. join (fill_from vs f (n - length v))) (drop-nil (length v))
            ∙ fill_from-nil vs (n - length v))
      ∙ sym (ap zeros (length-append v (join vs)) ∙ zeros-total v vs)
  | no h ↦
      ap join (fill_last v vs [] n h)
      ∙ ap₂ (λ x y. x ++ y) (ap (refill v) (take-nil n) ∙ memcpy-nil (zeros (length v)))
          (fill_from-nil vs 0)
      ∙ sym (ap zeros (length-append v (join vs)) ∙ zeros-total v vs)
]

pub fill_compressed-nil :
    (vs : List (List ℕ)) (n : ℕ) → join (fill_compressed vs [] n) ≡ zeros (total vs)
unfolding fill_compressed fill_from
fill_compressed-nil [] n = refl
fill_compressed-nil (v ∷ []) n =
    append-nil (refill v (take n []))
    ∙ ap (refill v) (take-nil n)
    ∙ memcpy-nil (zeros (length v))
    ∙ ap (λ w. zeros (length w)) (sym (append-nil v))
fill_compressed-nil (v ∷ w ∷ vs) n = fill_from-nil (v ∷ w ∷ vs) n
