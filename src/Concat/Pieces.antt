-- ===== src/Concat/Pieces.antt =====
-- The second loop of `concat_submit_null_payload_request` (raid/concat.c): what each base bdev gets.
use flex_bso.Common.{
  sym, ap, ℕ, zero, suc, ◌+◌, ◌-◌, ◌≤◌, ◌<◌, ◌≡◌, ◌↔◌, ◌∙◌, List, none, some, arith, u64_mod, min,
  dec_le,
}
use Prim.Native.Nat.{max}
use flex_bso.Bdev.{BdevIo}
use flex_bso.RaidBdev.{RaidBdev}
use flex_bso.Concat.{
  ConcatBlockRange, range_at, Walk, walk_on, pd_lba, pd_blocks, whole_range, find_bounds,
  find_pd_idx,
}
use flex_bso.Concat.Layout.{IsConcat, first, behind, first-le, behind-le, same}
use flex_bso.Concat.Extent.{left_from, walk_on-value, Extends, find_bounds-Extends}
use flex_bso.Concat.ReadWrite.{find_pd_idx-Holds, Holds}

module _ (r : RaidBdev) (rs : List ConcatBlockRange) (b : BdevIo) (s : ℕ) where
  -- The walk when it comes to slot `j`, counted from the first base bdev touched.
  abbrev pub walked : ℕ → Walk
  walked zero = whole_range b
  walked (suc j) = walk_on r rs (s + j) (walked j)

  -- Block `l` of the data region of slot `j`'s base bdev is in the slot's piece.
  abbrev pub IsIn : ℕ → ℕ → Type 0
  IsIn j l =
      (pd_lba r rs (s + j) (walked j) ≤ l)
      × (l < pd_lba r rs (s + j) (walked j) + pd_blocks r rs (s + j) (walked j))

module _ (r : RaidBdev) (rs : List ConcatBlockRange) (c : IsConcat r rs) (b : BdevIo) where
  abbrev x : ℕ
  x = b.offset_blocks

  abbrev z : ℕ
  z = b.offset_blocks + b.num_blocks

  module _ (s t : ℕ) (e : Extends r rs c x z s t) where
    abbrev pos : ℕ → ℕ
    pos j = max x (first r rs (s + j))

    module _ (j : ℕ) (h : s + j ≤ t) where
      pos-le : pos j ≤ behind r rs (s + j)
      pos-le = omega (
        arith,
        e.not_behind,
        behind-le r rs c s (s + j) (omega arith) (omega (arith, e.in_range)),
      )

      pos-lt : x < z → pos j < z
      pos-lt k = omega (arith, e.reaches, first-le r rs c (s + j) t h e.in_range)

    walked-value :
        z < u64_mod → x < z → (j : ℕ) → s + j ≤ t → walked r rs b s j ≡ left_from r rs c (pos j) z
    walked-value w more zero h = λ k. record { offset_blocks = off k; num_blocks = num k }
      where
        off : x ≡ pos zero
        off = omega (arith, e.from, same (first r rs) (s + 0) s (omega arith))

        num : b.num_blocks ≡ z - pos zero
        num = omega (arith, off)
    walked-value w more (suc j) h =
        ap (walk_on r rs (s + j)) (walked-value w more j (omega arith))
        ∙ walk_on-value r rs c (s + j) (pos j) z (omega (arith, e.in_range)) (omega arith)
            (pos-le j (omega arith)) (omega (arith, pos-lt j (omega arith) more)) w
        ∙ ap (λ (p : ℕ). left_from r rs c p z) next
      where
        next : min z (behind r rs (s + j)) ≡ pos (suc j)
        next = omega (
          arith,
          e.not_behind,
          e.reaches,
          e.in_range,
          first-le r rs c (s + suc j) t h e.in_range,
          behind-le r rs c s (s + j) (omega arith) (omega (arith, e.in_range)),
          c.next (s + j) (omega (arith, e.in_range)),
          same (first r rs) (suc (s + j)) (s + suc j) (omega arith),
        )

    -- The piece of each slot holds the blocks of its base bdev that are in the range.
    piece_exact :
        z < u64_mod
        → x < z
        → (j : ℕ) → s + j ≤ t
        → (l : ℕ)
        → IsIn r rs b s j l ↔ (
            (l < (range_at r rs (s + j)).range_length)
            × (x ≤ first r rs (s + j) + l)
            × (first r rs (s + j) + l < z))
    piece_exact w more j h l = rw (walked-value w more j h) (
      λ p. (omega (arith, p, a, d, q), omega (arith, p, a, d, q), omega (arith, p, a, d, q)),
      λ p. (omega (arith, p, a, d, q), omega (arith, p, a, d, q)),
    )
      where
        a : pos j ≤ behind r rs (s + j)
        a = pos-le j h

        d : pos j < z
        d = pos-lt j h more

        q : behind r rs (s + j) < u64_mod
        q = c.in_word (s + j) (omega (arith, e.in_range))

    -- The slot of a block of the range.
    slot_of : (y : ℕ) → x ≤ y → y < z → (i : ℕ) → Holds r rs c y i → (s ≤ i) × (i ≤ t)
    slot_of y lo hi i h = (not_before (dec_le s i), not_behind (dec_le i t))
      where
        not_before : Dec (s ≤ i) → s ≤ i
        not_before (yes p) = p
        not_before (no p) = absurd (
            omega (
              arith,
              h.to,
              e.from,
              e.ordered,
              e.in_range,
              c.next i (omega (arith, p, e.ordered, e.in_range)),
              first-le r rs c (suc i) s (omega arith) (omega (arith, e.ordered, e.in_range)),
            ))

        not_behind : Dec (i ≤ t) → i ≤ t
        not_behind (yes p) = p
        not_behind (no p) = absurd (
            omega (
              arith,
              h.from,
              h.in_range,
              e.to,
              c.next t (omega (arith, p, h.in_range)),
              first-le r rs c (suc t) i (omega arith) h.in_range,
            ))

  -- In an array that is laid out as `concat_start` leaves it, for a request of at least one block
  -- that lies in the array and ends below block 2^64: the first loop finds a first and a last base
  -- bdev; the piece that the second loop computes for each base bdev from the first to the last
  -- holds exactly the blocks of the request that stand there; and each block of the request stands
  -- on one of these base bdevs.
  pub concat_pieces-exact :
      0 < b.num_blocks
      → z ≤ r.bdev_blockcnt
      → z < u64_mod
      → (s : ℕ) × (t : ℕ) × (find_bounds r rs r.num_base_bdevs 0 (whole_range b) none
          ≡ record { start_idx = some s; stop_idx = some t })
        × ((j : ℕ)
            → s + j ≤ t
            → (l : ℕ)
            → IsIn r rs b s j l ↔ (
                (l < (range_at r rs (s + j)).range_length)
                × (x ≤ first r rs (s + j) + l)
                × (first r rs (s + j) + l < z)))
        × ((y : ℕ)
            → x ≤ y
            → y < z
            → (i : ℕ) × (s ≤ i) × (i ≤ t) × (first r rs i ≤ y) × (y < behind r rs i))
  concat_pieces-exact more le w = (
    found.0,
    found.1,
    ap (λ v. find_bounds r rs r.num_base_bdevs 0 v none) (sym same_walk) ∙ found.2,
    piece_exact found.0 found.1 found.3 w (omega arith),
    λ y lo hi. placed y lo hi (find_pd_idx-Holds r rs c y (omega arith)),
  )
    where
      same_walk : left_from r rs c x z ≡ whole_range b
      same_walk = ap (λ (k : ℕ). record { offset_blocks = x; num_blocks = k }) (omega arith)

      found :
          (s : ℕ) × (t : ℕ) × (find_bounds r rs r.num_base_bdevs 0 (left_from r rs c x z) none
            ≡ record { start_idx = some s; stop_idx = some t })
          × Extends r rs c x z s t
      found = find_bounds-Extends r rs c x z (omega arith) le w

      placed :
          (y : ℕ)
          → x ≤ y
          → y < z
          → (i : ℕ) × (find_pd_idx r rs r.num_base_bdevs 0 y none ≡ some i) × Holds r rs c y i
          → (i : ℕ) × (found.0 ≤ i) × (i ≤ found.1) × (first r rs i ≤ y) × (y < behind r rs i)
      placed y lo hi (i, q, h) = (
        i,
        (slot_of found.0 found.1 found.3 y lo hi i h).0,
        (slot_of found.0 found.1 found.3 y lo hi i h).1,
        h.from,
        h.to,
      )
