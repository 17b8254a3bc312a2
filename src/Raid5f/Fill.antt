-- ===== src/Raid5f/Fill.antt =====
-- raid/raid5f.c: the two loops over the buffers of one chunk, together.
use flex_bso.Common.{
  ℕ, suc, ◌+◌, ◌-◌, ◌≤◌, ◌<◌, ◌^◌, ◌≡◌, ◌∙◌, refl, sym, ap, ap₂, subst, true, false, leb, List, [],
  ◌∷◌, ◌++◌, length, drop, min, add64, sub64, arith, dec_lt, length-append, drop-nil, append-nil,
  ◌%◌, append_assoc,
}
use flex_bso.Bdev.{Iovec}
use flex_bso.Raid5f.Iovecs.{Cursor, Filled, count_iovs, fill_chunk, map_chunk}
use flex_bso.Raid5f.Cut.{
  addresses, bytes, size, left, drop_head, IsAt, IsFilled, cons-IsFilled, split_addresses,
  length-addresses,
}

module _ (whole : ℕ) (v : Iovec) (vs : List Iovec) (o b len : ℕ) (begun : b ≤ o)
    (within : o ≤ b + v.iov_len) (small : b + (v.iov_len + size vs) + whole < 2 ^ 64)
    (fits : len ≤ whole) where
  abbrev here : Cursor
  here = record { rest = v ∷ vs; offset = o; iov_offset = b }

  abbrev next : Cursor
  next = record { rest = vs; offset = b + v.iov_len; iov_offset = b + v.iov_len }

  -- A round that takes the rest of the buffer.
  fill_all :
      (n : ℕ)
      → v.iov_len - (o - b) ≤ len
      → fill_chunk (suc n) here len ≡ (
          let f = fill_chunk n next (len - (v.iov_len - (o - b))) in
          record f {
            iovs =
                record { iov_base = v.iov_base + (o - b); iov_len = v.iov_len - (o - b) } ∷ f.iovs;
          })
  unfolding fill_chunk
  fill_all n all = rw (skipped, part, missing, ahead, end, passed) refl
    where
      skipped : sub64 o b ≡ o - b
      skipped = omega arith

      part : min len (sub64 v.iov_len (o - b)) ≡ v.iov_len - (o - b)
      part = omega arith

      missing : sub64 len (v.iov_len - (o - b)) ≡ len - (v.iov_len - (o - b))
      missing = omega arith

      ahead : add64 o (v.iov_len - (o - b)) ≡ b + v.iov_len
      ahead = omega arith

      end : add64 b v.iov_len ≡ b + v.iov_len
      end = omega arith

      passed : leb (b + v.iov_len) (b + v.iov_len) ≡ true
      passed = ground arith

  -- A round that takes the whole chunk and stays in the buffer.
  fill_some :
      len < v.iov_len - (o - b)
      → fill_chunk 1 here len ≡ record {
        iovs = record { iov_base = v.iov_base + (o - b); iov_len = len } ∷ [];
        cursor = record { rest = v ∷ vs; offset = o + len; iov_offset = b };
        missing = 0;
      }
  unfolding fill_chunk
  fill_some some_left = rw (skipped, part, missing, ahead, end, passed) refl
    where
      skipped : sub64 o b ≡ o - b
      skipped = omega arith

      part : min len (sub64 v.iov_len (o - b)) ≡ len
      part = omega arith

      missing : sub64 len len ≡ 0
      missing = omega arith

      ahead : add64 o len ≡ o + len
      ahead = omega arith

      end : add64 b v.iov_len ≡ b + v.iov_len
      end = omega arith

      passed : leb (b + v.iov_len) (o + len) ≡ false
      passed = ground arith

  -- The count, where the chunk goes past the buffer, and where it does not.
  count_more :
      b + v.iov_len < o + len
      → count_iovs (v ∷ vs) b (add64 o len)
        ≡ suc (count_iovs vs (b + v.iov_len) (add64 (b + v.iov_len) (len - (v.iov_len - (o - b)))))
  unfolding count_iovs
  count_more h = rw (end, before, same) refl
    where
      end : add64 b v.iov_len ≡ b + v.iov_len
      end = omega arith

      before : leb (add64 o len) (b + v.iov_len) ≡ false
      before = ground arith

      same : add64 o len ≡ add64 (b + v.iov_len) (len - (v.iov_len - (o - b)))
      same = ap (λ (x : ℕ). x % 2 ^ 64) (omega arith)

  count_one : o + len ≤ b + v.iov_len → count_iovs (v ∷ vs) b (add64 o len) ≡ 1
  unfolding count_iovs
  count_one h = rw (end, before) refl
    where
      end : add64 b v.iov_len ≡ b + v.iov_len
      end = omega arith

      before : leb (add64 o len) (b + v.iov_len) ≡ true
      before = ground arith

  IsAt-here : IsAt whole here
  IsAt-here = record { begun = begun; within = within; small = small }

  left-here : left here ≡ addresses (v.iov_base + (o - b)) (v.iov_len - (o - b)) ++ bytes vs
  left-here = drop_head v vs (o - b) (omega arith)

  left-next : left next ≡ bytes vs
  left-next = ap (λ (k : ℕ). drop k (bytes vs)) nothing
    where
      nothing : b + v.iov_len - (b + v.iov_len) ≡ 0
      nothing = omega arith

  some-IsFilled : len < v.iov_len - (o - b) → IsFilled whole len (left here) (fill_chunk 1 here len)
  some-IsFilled h = subst (IsFilled whole len (left here)) (sym (fill_some h)) (record {
    cut =
        ap₂ (λ x y. x ++ y) (append-nil front)
          (drop_head v vs (o + len - b) (omega arith)
            ∙ ap₂ (λ x y. addresses x y ++ bytes vs) start refl)
        ∙ sym (append_assoc front (addresses (v.iov_base + (o - b) + len) behind) (bytes vs))
        ∙ ap (λ x. x ++ bytes vs) (sym (split_addresses (v.iov_base + (o - b)) len behind))
        ∙ ap (λ x. addresses (v.iov_base + (o - b)) x ++ bytes vs) rest
        ∙ sym left-here;
    short = omega (
      arith,
      ap length left-here,
      length-append (addresses (v.iov_base + (o - b)) (v.iov_len - (o - b))) (bytes vs),
      length-addresses (v.iov_base + (o - b)) (v.iov_len - (o - b)),
    );
    taken =
        omega (arith, ap length (append-nil front), length-addresses (v.iov_base + (o - b)) len);
    at = record { begun = omega arith; within = omega arith; small = small };
  })
    where
      front : List ℕ
      front = addresses (v.iov_base + (o - b)) len

      behind : ℕ
      behind = v.iov_len - (o + len - b)

      start : v.iov_base + (o + len - b) ≡ v.iov_base + (o - b) + len
      start = omega arith

      rest : len + behind ≡ v.iov_len - (o - b)
      rest = omega arith

  all-IsFilled :
      (n : ℕ)
      → v.iov_len - (o - b) ≤ len
      → IsFilled whole
          (len - (v.iov_len - (o - b)))
          (bytes vs)
          (fill_chunk n next (len - (v.iov_len - (o - b))))
      → IsFilled whole len (left here) (fill_chunk (suc n) here len)
  all-IsFilled n h f = subst (IsFilled whole len (left here)) (sym (fill_all n h)) (
      subst (λ m. IsFilled whole m (left here) filled) parts
        (subst (λ x. IsFilled whole (taken + (len - taken)) x filled) (sym left-here)
          (cons-IsFilled whole (len - taken) taken (v.iov_base + (o - b)) (bytes vs) g f)))
    where
      taken : ℕ
      taken = v.iov_len - (o - b)

      g : Filled
      g = fill_chunk n next (len - taken)

      filled : Filled
      filled = record g {
        iovs = record { iov_base = v.iov_base + (o - b); iov_len = taken } ∷ g.iovs;
      }

      parts : taken + (len - taken) ≡ len
      parts = omega arith

-- Nothing is missing, and nothing is filled.
nothing-IsFilled :
    (whole len : ℕ) (c : Cursor) (b : List ℕ)
    → IsAt whole c
    → left c ≡ b
    → len ≡ len - length b
    → IsFilled whole len b (record { iovs = []; cursor = c; missing = len })
nothing-IsFilled whole len c b at same none_left = record {
  cut = same;
  short = none_left;
  taken = omega arith;
  at = at;
}

IsAt-next :
    (whole o b : ℕ) (v : Iovec) (vs : List Iovec)
    → IsAt whole (record { rest = v ∷ vs; offset = o; iov_offset = b })
    → IsAt whole (record { rest = vs; offset = b + v.iov_len; iov_offset = b + v.iov_len })
IsAt-next whole o b v vs at = record {
  begun = omega arith;
  within = omega arith;
  small = omega (arith, at.small);
}

-- A chunk of `len` bytes from a position holds the bytes before it, up to `len`, and stops after them.
pub map_chunk-IsFilled :
    (whole len : ℕ) (vs : List Iovec) (o b : ℕ)
    → IsAt whole (record { rest = vs; offset = o; iov_offset = b })
    → len ≤ whole
    → IsFilled whole len
        (drop (o - b) (bytes vs))
        (map_chunk (record { rest = vs; offset = o; iov_offset = b }) len)
unfolding map_chunk fill_chunk
map_chunk-IsFilled whole len [] o b at fits =
    nothing-IsFilled whole len (record { rest = []; offset = o; iov_offset = b }) (drop (o - b) [])
      at refl (omega (arith, ap length (drop-nil {A = ℕ} (o - b))))
map_chunk-IsFilled whole len (v ∷ vs) o b at fits =
    elim (dec_lt (b + v.iov_len) (o + len))
      as (λ _. IsFilled whole len (left c) (map_chunk c len)) [
        | yes h ↦
            subst (λ n. IsFilled whole len (left c) (fill_chunk n c len))
              (sym (count_more whole v vs o b len at.begun at.within at.small fits h))
              (all-IsFilled whole v vs o b len at.begun at.within at.small fits _ (omega arith) (
                subst (λ x. IsFilled whole rest x (map_chunk following rest))
                  (left-next whole v vs o b len at.begun at.within at.small fits)
                  (map_chunk-IsFilled whole rest vs (b + v.iov_len) (b + v.iov_len)
                    (IsAt-next whole o b v vs at) (omega arith))))
        | no h ↦
            subst (λ n. IsFilled whole len (left c) (fill_chunk n c len))
              (sym (count_one whole v vs o b len at.begun at.within at.small fits (omega arith)))
              (elim (dec_lt len (v.iov_len - (o - b)))
                as (λ _. IsFilled whole len (left c) (fill_chunk 1 c len)) [
                  | yes k ↦ some-IsFilled whole v vs o b len at.begun at.within at.small fits k
                  | no k ↦
                      all-IsFilled whole v vs o b len at.begun at.within at.small fits 0
                        (omega arith)
                        (nothing-IsFilled whole rest following (bytes vs)
                          (IsAt-next whole o b v vs at)
                          (left-next whole v vs o b len at.begun at.within at.small fits)
                          (omega arith))
                ])
      ]
  where
    c : Cursor
    c = record { rest = v ∷ vs; offset = o; iov_offset = b }

    following : Cursor
    following = record { rest = vs; offset = b + v.iov_len; iov_offset = b + v.iov_len }

    rest : ℕ
    rest = len - (v.iov_len - (o - b))
