-- ===== src/Raid1/ReadBalance.antt =====
-- Which base bdev `raid1_channel_next_read_base_bdev` of raid/raid1.c picks, and the counters of
-- outstanding blocks that it reads.
use flex_bso.Common.{
  ℕ, zero, suc, ◌+◌, ◌≤◌, ◌<◌, ◌≡◌, refl, subst, ap, ◌⊎◌, inl, inr, Bool, true, false, ◌&&◌,
  if◌then◌else◌, ltb, arith, get_or,
}
use flex_bso.RaidBdev.{RaidBdevIoChannel, u64_max}
use flex_bso.Raid1.{Raid1IoChannel, next_read_from, raid1_channel_next_read_base_bdev}

module _ (ch : RaidBdevIoChannel) (r1 : Raid1IoChannel) where
  abbrev pub Present : ℕ → Type 0
  Present i = get_or ch.base_channel i false ≡ true

  abbrev pub load : ℕ → ℕ
  load i = get_or r1 i 0

  -- Among the base bdevs below `m` that have a channel, none is free for a read.
  abbrev pub AllFull : ℕ → Type 0
  AllFull m = (j : ℕ) → j < m → Present j → u64_max ≤ load j

  -- `idx` is the first of the least loaded ones below `m`.
  pub record IsLeast (m idx : ℕ) : Type 0 where
    pub in_range : idx < m
    pub has_channel : Present idx
    pub least : (j : ℕ) → j < m → Present j → load idx ≤ load j
    pub first : (j : ℕ) → j < idx → Present j → load idx < load j

  abbrev Picked : ℕ → ℕ → ℕ → Type 0
  Picked m min idx =
      ((idx ≡ 255) × (min ≡ u64_max) × AllFull m)
      ⊎ (IsLeast m idx × (min ≡ load idx) × (min < u64_max))

  abbrev pub Choice : ℕ → ℕ → Type 0
  Choice m idx = ((idx ≡ 255) × AllFull m) ⊎ IsLeast m idx

  below_suc : (i j : ℕ) → j < i + 1 → (j < i) ⊎ (j ≡ i)
  below_suc i j h = ground arith

  min-le : (i min idx : ℕ) → Picked i min idx → (j : ℕ) → j < i → Present j → min ≤ load j
  min-le i min idx (inl p) j h here = let q : u64_max ≤ load j = p.2 j h here in omega arith
  min-le i min idx (inr p) j h here = let q : load idx ≤ load j = p.0.least j h here in omega arith

  Picked-le : (i min idx : ℕ) → Picked i min idx → min ≤ u64_max
  Picked-le i min idx (inl p) = omega arith
  Picked-le i min idx (inr p) = omega arith

  new_least :
      (i min idx : ℕ) → Picked i min idx → Present i → load i < min → Picked (i + 1) (load i) i
  new_least i min idx p here h = inr (
    record {
      in_range = omega arith;
      has_channel = here;
      least = λ j below on. elim (below_suc i j below) [
        | inl q ↦ omega (arith, min-le i min idx p j q on)
        | inr e ↦ rw e (omega arith)
      ];
      first = λ j below on. omega (arith, min-le i min idx p j below on);
    },
    refl,
    omega (arith, Picked-le i min idx p),
  )

  keep_least :
      (i min idx : ℕ) → Picked i min idx → (Present i → min ≤ load i) → Picked (i + 1) min idx
  keep_least i min idx (inl p) h = inl (
    p.0,
    p.1,
    λ j below on. elim (below_suc i j below) [
      | inl q ↦ p.2 j q on
      | inr e ↦ omega (arith, h (subst Present e on), ap load e)
    ],
  )
  keep_least i min idx (inr p) h = inr (
    record {
      in_range = let q : idx < i = p.0.in_range in omega arith;
      has_channel = p.0.has_channel;
      least = λ j below on. elim (below_suc i j below) [
        | inl q ↦ p.0.least j q on
        | inr e ↦ omega (arith, h (subst Present e on), ap load e)
      ];
      first = p.0.first;
    },
    p.1,
    p.2,
  )

  choice : (m min idx : ℕ) → Picked m min idx → Choice m idx
  choice m min idx (inl p) = inl (p.0, p.2)
  choice m min idx (inr p) = inr p.0

  round :
      (i min idx : ℕ) (b c : Bool)
      → get_or ch.base_channel i false ≡ b
      → ltb (load i) min ≡ c
      → Picked i min idx
      → Picked (i + 1) (if b && c then load i else min) (if b && c then i else idx)
  round i min idx true true e f p = new_least i min idx p e (ground arith)
  round i min idx true false e f p = keep_least i min idx p (λ on. ground arith)
  round i min idx false c e f p = keep_least i min idx p (λ on. absurd (cc))

  next_read_from-Choice :
      (k i min idx m : ℕ)
      → i + k ≡ m
      → Picked i min idx
      → Choice m (next_read_from ch r1 k i min idx)
  unfolding next_read_from
  next_read_from-Choice zero i min idx m e p =
      choice m min idx (subst (λ t. Picked t min idx) (omega arith) p)
  next_read_from-Choice (suc k) i min idx m e p =
      next_read_from-Choice k (i + 1) _ _ m (omega arith)
        (round i min idx (get_or ch.base_channel i false) (ltb (load i) min) refl refl p)

  -- The base bdev picked for a read is the first of the least loaded among those that have a channel,
  -- and UINT8_MAX is returned only when each of them has UINT64_MAX blocks outstanding.
  pub next_read-Choice : Choice ch.num_channels (raid1_channel_next_read_base_bdev ch r1)
  unfolding raid1_channel_next_read_base_bdev
  next_read-Choice =
      next_read_from-Choice ch.num_channels 0 u64_max 255 ch.num_channels (omega arith)
        (inl (refl, refl, λ j h. absurd (omega arith)))

  -- So with fewer than 255 base bdevs a read is refused only if no channel can take it.
  pub next_read_found :
      ch.num_channels ≤ 255
      → (i : ℕ) → i < ch.num_channels
      → Present i
      → load i < u64_max
      → IsLeast ch.num_channels (raid1_channel_next_read_base_bdev ch r1)
  next_read_found small i h on free = elim next_read-Choice [
    | inl p ↦ absurd (omega (arith, p.1 i h on))
    | inr l ↦ l
  ]
