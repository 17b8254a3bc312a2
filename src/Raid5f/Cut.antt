-- ===== src/Raid5f/Cut.antt =====
-- raid/raid5f.c: the chunks of a stripe write hold the bytes of the request, in order and without a gap.
use flex_bso.Common.{
  ℕ, zero, suc, ◌+◌, ◌-◌, ◌≤◌, ◌<◌, ◌^◌, ◌≡◌, ◌∙◌, refl, ap, ap₂, List, [], ◌∷◌, ◌++◌, length, drop,
  arith, length-append, drop-append, append_assoc,
}
use flex_bso.Bdev.{Iovec}
use flex_bso.Raid5f.Iovecs.{Cursor, Filled}

-- The addresses from `base` on.
abbrev pub addresses : ℕ → ℕ → List ℕ
addresses base zero = []
addresses base (suc n) = base ∷ addresses (suc base) n

-- The addresses of the bytes in a list of buffers.
abbrev pub bytes : List Iovec → List ℕ
bytes [] = []
bytes (v ∷ vs) = addresses v.iov_base v.iov_len ++ bytes vs

abbrev pub size : List Iovec → ℕ
size [] = 0
size (v ∷ vs) = v.iov_len + size vs

pub length-addresses : (base n : ℕ) → length (addresses base n) ≡ n
length-addresses base zero = refl
length-addresses base (suc n) = ap suc (length-addresses (suc base) n)

pub length-bytes : (vs : List Iovec) → length (bytes vs) ≡ size vs
length-bytes [] = refl
length-bytes (v ∷ vs) = omega (
  arith,
  length-append (addresses v.iov_base v.iov_len) (bytes vs),
  length-addresses v.iov_base v.iov_len,
  length-bytes vs,
)

pub split_addresses :
    (base m n : ℕ) → addresses base (m + n) ≡ addresses base m ++ addresses (base + m) n
split_addresses base zero n = ap₂ addresses (plus_zero base) (zero_plus n)
  where
    plus_zero : (a : ℕ) → a ≡ a + 0
    plus_zero a = omega arith

    zero_plus : (a : ℕ) → 0 + a ≡ a
    zero_plus a = omega arith
split_addresses base (suc m) n =
    ap (addresses base) (suc_plus m n)
    ∙ ap (base ∷◌) (
        split_addresses (suc base) m n
        ∙ ap (λ k. addresses (suc base) m ++ addresses k n) (plus_suc base m))
  where
    suc_plus : (a c : ℕ) → suc a + c ≡ suc (a + c)
    suc_plus a c = omega arith

    plus_suc : (a c : ℕ) → suc a + c ≡ a + suc c
    plus_suc a c = omega arith

drop-addresses : (k base n : ℕ) → drop k (addresses base n) ≡ addresses (base + k) (n - k)
drop-addresses zero base n = ap₂ addresses (plus_zero base) (minus_zero n)
  where
    plus_zero : (a : ℕ) → a ≡ a + 0
    plus_zero a = omega arith

    minus_zero : (a : ℕ) → a ≡ a - 0
    minus_zero a = omega arith
drop-addresses (suc k) base zero = ap (addresses (base + suc k)) (zero_minus k)
  where
    zero_minus : (a : ℕ) → 0 ≡ 0 - suc a
    zero_minus a = omega arith
drop-addresses (suc k) base (suc n) =
    drop-addresses k (suc base) n ∙ ap₂ addresses (plus_suc base k) (suc_minus n k)
  where
    plus_suc : (a c : ℕ) → suc a + c ≡ a + suc c
    plus_suc a c = omega arith

    suc_minus : (a c : ℕ) → a - c ≡ suc a - suc c
    suc_minus a c = omega arith

-- The bytes from `skipped` bytes into the first buffer on.
pub drop_head :
    (v : Iovec) (vs : List Iovec) (skipped : ℕ)
    → skipped ≤ v.iov_len
    → drop skipped (bytes (v ∷ vs))
      ≡ addresses (v.iov_base + skipped) (v.iov_len - skipped) ++ bytes vs
drop_head v vs skipped h =
    drop-append skipped (addresses v.iov_base v.iov_len) (bytes vs)
    ∙ ap₂ (λ x y. x ++ y) (drop-addresses skipped v.iov_base v.iov_len)
        (ap (λ k. drop k (bytes vs)) nothing)
  where
    nothing : skipped - length (addresses v.iov_base v.iov_len) ≡ 0
    nothing = omega (arith, length-addresses v.iov_base v.iov_len)

-- The bytes that the position has before it.
abbrev pub left : Cursor → List ℕ
left c = drop (c.offset - c.iov_offset) (bytes c.rest)

abbrev head_len : List Iovec → ℕ
head_len [] = 0
head_len (v ∷ vs) = v.iov_len

-- The position is in the first of the buffers that are left, and a chunk of `len` bytes from any position does
-- not overflow a `size_t`.
pub record IsAt (len : ℕ) (c : Cursor) : Type 0 where
  pub begun : c.iov_offset ≤ c.offset
  pub within : c.offset ≤ c.iov_offset + head_len c.rest
  pub small : c.iov_offset + size c.rest + len < 2 ^ 64

-- What filling a chunk of `len` bytes from the bytes `b` on leaves.
pub record IsFilled (whole len : ℕ) (b : List ℕ) (f : Filled) : Type 0 where
  pub cut : bytes f.iovs ++ left f.cursor ≡ b
  pub short : f.missing ≡ len - length b
  pub taken : length (bytes f.iovs) + f.missing ≡ len
  pub at : IsAt whole f.cursor

pub cons-IsFilled :
    (whole len n base : ℕ) (b : List ℕ) (f : Filled)
    → IsFilled whole len b f
    → IsFilled whole
        (n + len)
        (addresses base n ++ b)
        (record f { iovs = record { iov_base = base; iov_len = n } ∷ f.iovs })
cons-IsFilled whole len n base b f h = record {
  cut =
      append_assoc (addresses base n) (bytes f.iovs) (left f.cursor)
      ∙ ap (addresses base n ++◌) h.cut;
  short = omega (arith, h.short, length-append (addresses base n) b, length-addresses base n);
  taken =
      omega
        (arith, h.taken, length-append (addresses base n) (bytes f.iovs), length-addresses base n);
  at = record { begun = h.at.begun; within = h.at.within; small = h.at.small };
}
