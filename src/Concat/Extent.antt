-- ===== src/Concat/Extent.antt =====
-- The first loop of `concat_submit_null_payload_request` (raid/concat.c): the first and the last base
-- bdev that a range of blocks touches.
use flex_bso.Common.{
  min, ap, ℕ, zero, suc, ◌+◌, ◌-◌, ◌≤◌, ◌<◌, ◌≡◌, refl, List, Option, none, some, arith, u64_mod,
  dec_lt, ◌∙◌,
}
use flex_bso.RaidBdev.{RaidBdev}
use flex_bso.Concat.{ConcatBlockRange, Walk, Bounds, walk_on, started_at, find_bounds}
use flex_bso.Concat.Layout.{IsConcat, first, behind, behind-le, same}

module _ (r : RaidBdev) (rs : List ConcatBlockRange) (c : IsConcat r rs) where
  -- What is left to be walked over, when the walk is at block `x` and ends before block `z`.
  abbrev pub left_from : ℕ → ℕ → Walk
  left_from x z = record { offset_blocks = x; num_blocks = z - x }

  -- One step: the walk goes on behind range `i`, or ends in it.
  pub walk_on-value :
      (i x z : ℕ)
      → i < r.num_base_bdevs
      → first r rs i ≤ x
      → x ≤ behind r rs i
      → x ≤ z
      → z < u64_mod
      → walk_on r rs i (left_from x z) ≡ left_from (min z (behind r rs i)) z
  walk_on-value i x z h lo hi le w = λ k. record { offset_blocks = off k; num_blocks = num k }
    where
      off : (walk_on r rs i (left_from x z)).offset_blocks ≡ min z (behind r rs i)
      off = omega (arith, c.in_word i h)

      num : (walk_on r rs i (left_from x z)).num_blocks ≡ z - min z (behind r rs i)
      num = omega (arith, c.in_word i h)

  module _ (left i x z : ℕ) (o : Option ℕ) (h : i < r.num_base_bdevs) where
    skips :
        behind r rs i ≤ x
        → x < u64_mod
        → find_bounds r rs (suc left) i (left_from x z) o
          ≡ find_bounds r rs left (suc i) (left_from x z) o
    unfolding find_bounds
    skips le w = ground (arith, c.in_word i h)

    stops :
        first r rs i ≤ x
        → x < behind r rs i
        → x < z
        → z ≤ behind r rs i
        → find_bounds r rs (suc left) i (left_from x z) o
          ≡ record { start_idx = started_at o i; stop_idx = some i }
    unfolding find_bounds
    stops lo hi more le = ground (arith, c.in_word i h)

    goes_on :
        first r rs i ≤ x
        → x < behind r rs i
        → behind r rs i < z
        → z < u64_mod
        → find_bounds r rs (suc left) i (left_from x z) o
          ≡ find_bounds r rs left (suc i) (left_from (behind r rs i) z) (started_at o i)
    unfolding find_bounds
    goes_on lo hi more w = step ∙ ap (λ v. find_bounds r rs left (suc i) v (started_at o i)) next
      where
        next : walk_on r rs i (left_from x z) ≡ left_from (behind r rs i) z
        next =
            walk_on-value i x z h lo (omega arith) (omega arith) w
            ∙ ap (λ (t : ℕ). left_from t z) (omega arith)

        step :
            find_bounds r rs (suc left) i (left_from x z) o
            ≡ find_bounds r rs left (suc i) (walk_on r rs i (left_from x z)) (started_at o i)
        step = ground (arith, c.in_word i h)

  -- Base bdevs `s` to `t` are those that hold blocks of the range: `x` is in range `s`, and the block
  -- before `z` is in range `t`.
  pub record Extends (x z s t : ℕ) : Type 0 where
    pub ordered : s ≤ t
    pub in_range : t < r.num_base_bdevs
    pub from : first r rs s ≤ x
    pub not_behind : x < behind r rs s
    pub reaches : first r rs t < z
    pub to : z ≤ behind r rs t

  abbrev Spans : ℕ → ℕ → Bounds → Type 0
  Spans x z b =
      (s : ℕ) × (t : ℕ) × (b ≡ record { start_idx = some s; stop_idx = some t }) × Extends x z s t

  -- Behind the first base bdev: the walk stands at the end of range `p`.
  further :
      (left p s x z : ℕ)
      → suc p + left ≡ r.num_base_bdevs
      → s ≤ p
      → first r rs s ≤ x
      → x < behind r rs s
      → behind r rs p < z
      → z ≤ r.bdev_blockcnt
      → z < u64_mod
      → Spans x z (find_bounds r rs left (suc p) (left_from (behind r rs p) z) (some s))
  unfolding find_bounds
  further zero p s x z e sp lo hi more le w =
      absurd (omega (arith, c.count, same (behind r rs) (r.num_base_bdevs - 1) p (omega arith)))
  further (suc left) p s x z e sp lo hi more le w =
      let h : suc p < r.num_base_bdevs = omega arith in
      elim (dec_lt (behind r rs p) (behind r rs (suc p))) [
        | yes k ↦ elim (dec_lt (behind r rs (suc p)) z) [
          | yes m ↦
              rw
                (goes_on left (suc p) (behind r rs p) z (some s) h (omega (arith, c.next p h)) k m
                  w)
                (further left (suc p) s x z (omega arith) (omega arith) lo hi m le w)
          | no m ↦
              rw
                (stops left (suc p) (behind r rs p) z (some s) h (omega (arith, c.next p h)) k more
                  (omega arith))
                (
                  s,
                  suc p,
                  refl,
                  record {
                    ordered = omega arith;
                    in_range = h;
                    from = lo;
                    not_behind = hi;
                    reaches = omega (arith, c.next p h);
                    to = omega arith;
                  },
                )
        ]
        | no k ↦
            rw
              (
                skips left (suc p) (behind r rs p) z (some s) h (omega arith)
                    (omega (arith, c.in_word p (omega arith))),
                same (λ t. t) (behind r rs p) (behind r rs (suc p))
                    (omega (arith, behind-le r rs c p (suc p) (omega arith) h)),
              )
              (further left (suc p) s x z (omega arith) (omega arith) lo hi
                (omega (arith, behind-le r rs c p (suc p) (omega arith) h)) le w)
      ]

  module _ (x z : ℕ) (some_blocks : x < z) (in_array : z ≤ r.bdev_blockcnt) (w : z < u64_mod) where
    start_from :
        (left i : ℕ)
        → i + left ≡ r.num_base_bdevs
        → (i < r.num_base_bdevs → first r rs i ≤ x)
        → (i ≡ r.num_base_bdevs → r.bdev_blockcnt ≤ x)
        → Spans x z (find_bounds r rs left i (left_from x z) none)
    unfolding find_bounds
    start_from zero i e lo end = absurd (omega (arith, end (omega arith)))
    start_from (suc left) i e lo end =
        let h : i < r.num_base_bdevs = omega arith in
        elim (dec_lt x (behind r rs i)) [
          | yes k ↦ elim (dec_lt (behind r rs i) z) [
            | yes m ↦
                rw (goes_on left i x z none h (lo h) k m w)
                  (further left i i x z (omega arith) (omega arith) (lo h) k m in_array w)
            | no m ↦ rw (stops left i x z none h (lo h) k some_blocks (omega arith)) (
              i,
              i,
              refl,
              record {
                ordered = omega arith;
                in_range = h;
                from = lo h;
                not_behind = k;
                reaches = omega (arith, lo h);
                to = omega arith;
              },
            )
          ]
          | no k ↦ rw (skips left i x z none h (omega arith) (omega arith)) (
              start_from left (suc i) (omega arith) (λ h'. omega (arith, c.next i h'))
                (last i h (omega arith)))
        ]
      where
        last :
            (i : ℕ)
            → i < r.num_base_bdevs
            → behind r rs i ≤ x
            → suc i ≡ r.num_base_bdevs
            → r.bdev_blockcnt ≤ x
        last i h k q =
            omega (arith, c.count, same (behind r rs) (r.num_base_bdevs - 1) i (omega arith))

    -- The loop finds the first and the last base bdev that the blocks from `x` to before `z` touch.
    pub find_bounds-Extends :
        (s : ℕ) × (t : ℕ) × (find_bounds r rs r.num_base_bdevs 0 (left_from x z) none
          ≡ record { start_idx = some s; stop_idx = some t })
        × Extends x z s t
    find_bounds-Extends =
        start_from r.num_base_bdevs 0 (omega arith) (λ _. omega (arith, c.at_zero))
          (λ q. absurd (omega (arith, c.some_bdevs)))
