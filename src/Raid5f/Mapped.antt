-- ===== src/Raid5f/Mapped.antt =====
-- raid/raid5f.c: `raid5f_stripe_request_map_iovecs`, the cut of a whole stripe write.
use flex_bso.Common.{
  ℕ, zero, suc, ◌+◌, ◌-◌, ◌*◌, ◌≤◌, ◌<◌, ◌^◌, ◌≡◌, ◌∙◌, refl, sym, ap, ap₂, subst, true, ltb, List,
  [], ◌∷◌, ◌++◌, length, get_or, take, drop, join, map, add64, shl32, arith, dec_le, length-append,
  take-append, take_all, ◌⊎◌, inl, inr,
}
use native.Mathlib.Nat.{suc-mul}
use flex_bso.Bdev.{Iovec, Rc, ok, fail, einval}
use flex_bso.RaidBdev.{RaidBdev}
use flex_bso.Raid5f.{raid5f_stripe_data_chunks_num}
use flex_bso.Raid5f.Iovecs.{
  Cursor, Filled, count_iovs, map_chunk, map_chunks, raid5f_chunk_set_iovcnt,
  raid5f_stripe_request_map_iovecs,
}
use flex_bso.Raid5f.Cut.{bytes, size, length-bytes, left, IsAt, IsFilled}
use flex_bso.Raid5f.Fill.{map_chunk-IsFilled}

-- Every chunk has `len` bytes.
abbrev pub AllHave : ℕ → List (List Iovec) → Type 0
AllHave len [] = Unit
AllHave len (c ∷ cs) = (length (bytes c) ≡ len) × AllHave len cs

-- `n` chunks of `len` bytes that are the first bytes of `b`, in order.
pub record IsCut (len n : ℕ) (b : List ℕ) (chunks : List (List Iovec)) : Type 0 where
  pub count : length chunks ≡ n
  pub each : AllHave len chunks
  pub whole : join (map bytes chunks) ≡ take (n * len) b

set_iovcnt-ok : (max n : ℕ) → (raid5f_chunk_set_iovcnt true max n).0 ≡ ok
unfolding raid5f_chunk_set_iovcnt
set_iovcnt-ok max n = ground arith

take_past : (xs ys : List ℕ) (m : ℕ) → take (length xs + m) (xs ++ ys) ≡ xs ++ take m ys
take_past xs ys m =
    take-append (length xs + m) xs ys
    ∙ ap₂ (λ x y. x ++ y) (take_all (length xs + m) xs (omega arith)) (ap (λ k. take k ys) rest)
  where
    rest : length xs + m - length xs ≡ m
    rest = omega arith

-- The loop: an error exactly when the bytes do not suffice, and otherwise the cut.
pub Mapped : ℕ → ℕ → List ℕ → Rc × List (List Iovec) → Type 0
Mapped len n b p =
    (n * len ≤ length b → (p.0 ≡ ok) × IsCut len n b p.1) × (length b < n * len → p.0 ≡ fail einval)

module _ (maxes : List ℕ) (n : ℕ) (c : Cursor) (len : ℕ) where
  abbrev filled : Filled
  filled = map_chunk c len

  abbrev others : Rc × List (List Iovec)
  others = map_chunks true (drop 1 maxes) n filled.cursor len

  map_enough :
      filled.missing ≡ 0 → map_chunks true maxes (suc n) c len ≡ (others.0, filled.iovs ∷ others.1)
  unfolding map_chunks
  map_enough h =
      rw (set_iovcnt-ok (get_or maxes 0 4) (count_iovs c.rest c.iov_offset (add64 c.offset len)), h)
        refl

  map_short :
      0 < filled.missing → map_chunks true maxes (suc n) c len ≡ (fail einval, filled.iovs ∷ [])
  unfolding map_chunks
  map_short h =
      rw
        (
          set_iovcnt-ok (get_or maxes 0 4) (count_iovs c.rest c.iov_offset (add64 c.offset len)),
          some_missing filled.missing h,
        )
        refl
    where
      some_missing : (m : ℕ) → 0 < m → ltb 0 m ≡ true
      some_missing m k = ground arith

  added-IsCut :
      (b : List ℕ) (cs : List (List Iovec))
      → IsFilled len len b filled
      → filled.missing ≡ 0
      → IsCut len n (left filled.cursor) cs
      → IsCut len (suc n) b (filled.iovs ∷ cs)
  added-IsCut b cs f none_missing k = record {
    count = ap suc k.count;
    each = (omega (arith, f.taken), k.each);
    whole =
        ap (bytes filled.iovs ++◌) k.whole
        ∙ sym (take_past (bytes filled.iovs) (left filled.cursor) (n * len))
        ∙ ap₂ take sizes f.cut;
  }
    where
      sizes : length (bytes filled.iovs) + n * len ≡ suc n * len
      sizes = omega (arith, f.taken, suc-mul n len)

  step-Mapped :
      0 < len
      → IsFilled len len (left c) filled
      → Mapped len n (left filled.cursor) others
      → Mapped len (suc n) (left c) (map_chunks true maxes (suc n) c len)
  unfolding Mapped
  step-Mapped positive f rest =
      elim (dec_le len (length (left c)))
        as (λ _. Mapped len (suc n) (left c) (map_chunks true maxes (suc n) c len)) [
          | yes h ↦ subst (Mapped len (suc n) (left c)) (sym (map_enough (enough h))) (
            λ k. (
              (rest.0 (remain k)).0,
              added-IsCut (left c) others.1 f (enough h) (rest.0 (remain k)).1,
            ),
            λ k. rest.1 (lack h k),
          )
          | no h ↦
              subst (Mapped len (suc n) (left c)) (sym (map_short (omega (arith, f.short))))
                (λ k. absurd (omega (arith, k, suc-mul n len)), λ k. refl)
        ]
    where
      enough : len ≤ length (left c) → filled.missing ≡ 0
      enough h = omega (arith, f.short)

      lengths : length (bytes filled.iovs) + length (left filled.cursor) ≡ length (left c)
      lengths =
          omega (arith, ap length f.cut, length-append (bytes filled.iovs) (left filled.cursor))

      remain : suc n * len ≤ length (left c) → n * len ≤ length (left filled.cursor)
      remain k = omega (arith, lengths, suc-mul n len, f.taken)

      lack :
          len ≤ length (left c)
          → length (left c) < suc n * len
          → length (left filled.cursor) < n * len
      lack h k = omega (arith, k, lengths, suc-mul n len, f.taken, enough h)

map_chunks-Mapped :
    (maxes : List ℕ) (n : ℕ) (c : Cursor) (len : ℕ)
    → IsAt len c
    → 0 < len
    → Mapped len n (left c) (map_chunks true maxes n c len)
unfolding Mapped map_chunks
map_chunks-Mapped maxes zero c len at positive = (
  λ h. (refl, record { count = refl; each = tt; whole = ap (λ k. take k (left c)) nothing }),
  λ h. absurd (omega arith),
)
  where
    nothing : 0 ≡ 0 * len
    nothing = omega arith
map_chunks-Mapped maxes (suc n) c len at positive =
    let f = map_chunk-IsFilled len len c.rest c.offset c.iov_offset at (omega arith) in
    step-Mapped maxes n c len positive f
      (map_chunks-Mapped (drop 1 maxes) n (map_chunk c len).cursor len f.at positive)

-- The bytes of a strip.
abbrev pub strip_bytes : RaidBdev → ℕ
strip_bytes r = r.strip_size * 2 ^ r.blocklen_shift

-- A write whose buffers hold enough bytes is cut into as many chunks as a stripe has for data, each of the size
-- of a strip; together they are the first bytes of the buffers, in their order; and the parity chunk, with
-- its own buffer, stands between them at its index. If the buffers hold less than that, the result
-- is -EINVAL. This supposes that memory for the iovecs can be allocated, that a strip has at least one byte and fewer than
-- 2 ^ 32, and that the buffers and one strip together have fewer than 2 ^ 64.
pub map_iovecs-IsCut :
    (r : RaidBdev) (maxes : List ℕ) (parity_buf parity_chunk : ℕ) (iovs : List Iovec)
    → 0 < strip_bytes r
    → strip_bytes r < 2 ^ 32
    → size iovs + strip_bytes r < 2 ^ 64
    → ((raid5f_stripe_data_chunks_num r * strip_bytes r ≤ size iovs)
        × ((chunks : List (List Iovec)) × IsCut
              (strip_bytes r)
              (raid5f_stripe_data_chunks_num r)
              (bytes iovs)
              chunks
            × (raid5f_stripe_request_map_iovecs r true maxes parity_buf parity_chunk iovs ≡ (
              ok,
              take parity_chunk chunks
                  ++ ((record { iov_base = parity_buf; iov_len = strip_bytes r } ∷ [])
                      ∷ drop parity_chunk chunks),
            ))))
      ⊎ ((size iovs < raid5f_stripe_data_chunks_num r * strip_bytes r)
          × ((raid5f_stripe_request_map_iovecs r true maxes parity_buf parity_chunk iovs).0
              ≡ fail einval))
unfolding raid5f_stripe_request_map_iovecs Mapped raid5f_stripe_data_chunks_num
map_iovecs-IsCut r maxes parity_buf parity_chunk iovs positive fits small =
    rw in_32 (elim (dec_le (r.min_base_bdevs_operational * len) (size iovs)) [
      | yes h ↦ let k = m.0 (omega (arith, length-bytes iovs)) in inl (h, (_, k.1, rw k.0 refl))
      | no h ↦ let k = m.1 (omega (arith, length-bytes iovs)) in inr (omega arith, rw k refl)
    ])
  where
    len : ℕ
    len = strip_bytes r

    in_32 : shl32 r.strip_size r.blocklen_shift ≡ strip_bytes r
    in_32 = omega (arith, fits)

    start : Cursor
    start = record { rest = iovs; offset = 0; iov_offset = 0 }

    m :
        Mapped len r.min_base_bdevs_operational
          (left start)
          (map_chunks true maxes r.min_base_bdevs_operational start len)
    m =
        map_chunks-Mapped maxes r.min_base_bdevs_operational start len
          (record { begun = omega arith; within = omega arith; small = omega arith }) positive
