-- ===== src/Common/Slices.antt =====
-- Slices of lists over the native numbers, and bytes copied over a buffer.
use Prim.Native.Nat.{ℕ, zero, suc, min, ◌+◌, ◌-◌, ◌≤◌, ◌<◌}
use mathlib.Core.Path.{◌≡◌, refl, sym, ap, ◌∙◌}
use mathlib.Core.List.{List, [], ◌∷◌, ◌++◌}
use native.Mathlib.Omega.{arith}
use flex_bso.Common.Lists.{length, get_or, replicate}

-- Laws of native numbers that do not hold by computation.
zero_plus : (a : ℕ) → 0 + a ≡ a
zero_plus a = omega arith

suc_plus : (a b : ℕ) → suc a + b ≡ suc (a + b)
suc_plus a b = omega arith

minus_zero : (a : ℕ) → a ≡ a - 0
minus_zero a = omega arith

zero_minus : (a : ℕ) → 0 ≡ 0 - suc a
zero_minus a = omega arith

suc_minus : (a b : ℕ) → a - b ≡ suc a - suc b
suc_minus a b = omega arith

zero_min : (a : ℕ) → 0 ≡ min 0 a
zero_min a = omega arith

min_zero : (a : ℕ) → 0 ≡ min (suc a) 0
min_zero a = omega arith

suc-min : (a b : ℕ) → suc (min a b) ≡ min (suc a) (suc b)
suc-min a b = omega arith

module _ {ℓ} {A : Type ℓ} where
  abbrev pub take : ℕ → List A → List A
  take zero xs = []
  take (suc n) [] = []
  take (suc n) (x ∷ xs) = x ∷ take n xs

  abbrev pub drop : ℕ → List A → List A
  drop zero xs = xs
  drop (suc n) [] = []
  drop (suc n) (x ∷ xs) = drop n xs

  abbrev pub join : List (List A) → List A
  join [] = []
  join (xs ∷ xss) = xs ++ join xss

  -- `memcpy` to the start of a buffer; what does not fit is dropped.
  abbrev pub memcpy : List A → List A → List A
  memcpy [] src = []
  memcpy (x ∷ dst) [] = x ∷ dst
  memcpy (x ∷ dst) (y ∷ src) = y ∷ memcpy dst src

  pub take-nil : (n : ℕ) → take n [] ≡ []
  take-nil zero = refl
  take-nil (suc n) = refl

  pub drop-nil : (n : ℕ) → drop n [] ≡ []
  drop-nil zero = refl
  drop-nil (suc n) = refl

  pub take-append_length : (xs ys : List A) → take (length xs) (xs ++ ys) ≡ xs
  take-append_length [] ys = refl
  take-append_length (x ∷ xs) ys = ap (x ∷◌) (take-append_length xs ys)

  pub drop-append_length : (xs ys : List A) → drop (length xs) (xs ++ ys) ≡ ys
  drop-append_length [] ys = refl
  drop-append_length (x ∷ xs) ys = drop-append_length xs ys

  pub take_all : (n : ℕ) (xs : List A) → length xs ≤ n → take n xs ≡ xs
  take_all zero [] h = refl
  take_all (suc n) [] h = refl
  take_all zero (x ∷ xs) h = absurd (omega arith)
  take_all (suc n) (x ∷ xs) h = ap (x ∷◌) (take_all n xs (omega arith))

  pub drop_all : (n : ℕ) (xs : List A) → length xs ≤ n → drop n xs ≡ []
  drop_all zero [] h = refl
  drop_all (suc n) [] h = refl
  drop_all zero (x ∷ xs) h = absurd (omega arith)
  drop_all (suc n) (x ∷ xs) h = drop_all n xs (omega arith)

  pub length-drop : (n : ℕ) (xs : List A) → length (drop n xs) ≡ length xs - n
  length-drop zero xs = omega arith
  length-drop (suc n) [] = omega arith
  length-drop (suc n) (x ∷ xs) = omega (arith, length-drop n xs)

  pub length-memcpy : (dst src : List A) → length (memcpy dst src) ≡ length dst
  length-memcpy [] src = refl
  length-memcpy (x ∷ dst) [] = refl
  length-memcpy (x ∷ dst) (y ∷ src) = ap suc (length-memcpy dst src)

  pub memcpy-nil : (dst : List A) → memcpy dst [] ≡ dst
  memcpy-nil [] = refl
  memcpy-nil (x ∷ dst) = refl

  -- A copy over two buffers is a copy of each part.
  pub memcpy-append :
      (d e src : List A)
      → memcpy (d ++ e) src ≡ memcpy d (take (length d) src) ++ memcpy e (drop (length d) src)
  memcpy-append [] e src = refl
  memcpy-append (x ∷ d) e [] = ap (λ y. x ∷ d ++ y) (sym (memcpy-nil e))
  memcpy-append (x ∷ d) e (y ∷ src) = ap (y ∷◌) (memcpy-append d e src)

  -- A copy that fits leaves the rest of the buffer.
  pub memcpy-fits :
      (dst src : List A) → length src ≤ length dst → memcpy dst src ≡ src ++ drop (length src) dst
  memcpy-fits [] [] h = refl
  memcpy-fits [] (y ∷ src) h = absurd (omega arith)
  memcpy-fits (x ∷ dst) [] h = refl
  memcpy-fits (x ∷ dst) (y ∷ src) h = ap (y ∷◌) (memcpy-fits dst src (omega arith))

  pub replicate-append : (m n : ℕ) (a : A) → replicate (m + n) a ≡ replicate m a ++ replicate n a
  replicate-append zero n a = ap (λ k. replicate k a) (zero_plus n)
  replicate-append (suc m) n a =
      ap (λ k. replicate k a) (suc_plus m n) ∙ ap (a ∷◌) (replicate-append m n a)

  pub drop-replicate : (k n : ℕ) (a : A) → drop k (replicate n a) ≡ replicate (n - k) a
  drop-replicate zero n a = ap (λ m. replicate m a) (minus_zero n)
  drop-replicate (suc k) zero a = ap (λ m. replicate m a) (zero_minus k)
  drop-replicate (suc k) (suc n) a = drop-replicate k n a ∙ ap (λ m. replicate m a) (suc_minus n k)

  pub get_or-append_left :
      (xs ys : List A) (i : ℕ) (d : A) → i < length xs → get_or (xs ++ ys) i d ≡ get_or xs i d
  get_or-append_left [] ys i d h = absurd (omega arith)
  get_or-append_left (x ∷ xs) ys zero d h = refl
  get_or-append_left (x ∷ xs) ys (suc i) d h = get_or-append_left xs ys i d (omega arith)

  pub get_or-append_right :
      (xs ys : List A) (i : ℕ) (d : A) → get_or (xs ++ ys) (length xs + i) d ≡ get_or ys i d
  get_or-append_right [] ys i d = ap (λ k. get_or ys k d) (zero_plus i)
  get_or-append_right (x ∷ xs) ys i d =
      ap (λ k. get_or (x ∷ xs ++ ys) k d) (suc_plus (length xs) i) ∙ get_or-append_right xs ys i d

  pub take-append :
      (n : ℕ) (xs ys : List A) → take n (xs ++ ys) ≡ take n xs ++ take (n - length xs) ys
  take-append n [] ys =
      ap (λ k. take k ys) (minus_zero n) ∙ ap (λ z. z ++ take (n - 0) ys) (sym (take-nil n))
  take-append zero (x ∷ xs) ys = ap (λ k. take k ys) (zero_minus (length xs))
  take-append (suc n) (x ∷ xs) ys =
      ap (x ∷◌) (take-append n xs ys ∙ ap (λ k. take n xs ++ take k ys) (suc_minus n (length xs)))

  pub drop-append :
      (n : ℕ) (xs ys : List A) → drop n (xs ++ ys) ≡ drop n xs ++ drop (n - length xs) ys
  drop-append n [] ys =
      ap (λ k. drop k ys) (minus_zero n) ∙ ap (λ z. z ++ drop (n - 0) ys) (sym (drop-nil n))
  drop-append zero (x ∷ xs) ys = ap (λ k. x ∷ xs ++ drop k ys) (zero_minus (length xs))
  drop-append (suc n) (x ∷ xs) ys =
      drop-append n xs ys ∙ ap (λ k. drop n xs ++ drop k ys) (suc_minus n (length xs))

  pub take-replicate : (k n : ℕ) (a : A) → take k (replicate n a) ≡ replicate (min k n) a
  take-replicate zero n a = ap (λ m. replicate m a) (zero_min n)
  take-replicate (suc k) zero a = ap (λ m. replicate m a) (min_zero k)
  take-replicate (suc k) (suc n) a =
      ap (a ∷◌) (take-replicate k n a) ∙ ap (λ m. replicate m a) (suc-min k n)
