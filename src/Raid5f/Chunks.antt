-- ===== src/Raid5f/Chunks.antt =====
-- Which base bdev holds which chunk of a stripe (raid/raid5f.c).
use flex_bso.Common.{ℕ, ◌+◌, ◌-◌, ◌%◌, ◌≤◌, ◌<◌, ◌≡◌, ◌≢◌, ◌⊎◌, ◌↔◌, inl, inr, arith, dec_lt}
use native.Mathlib.Nat.{mod-lt}
use flex_bso.RaidBdev.{RaidBdev}
use flex_bso.Raid5f.{raid5f_stripe_data_chunks_num, raid5f_stripe_parity_chunk_index, chunk_idx}

-- The numbers of base bdevs of a stripe: one of them is for the parity.
pub record IsStriped (r : RaidBdev) : Type 0 where
  pub some_bdevs : 0 < r.num_base_bdevs
  pub few_bdevs : r.num_base_bdevs < 256
  pub one_parity : r.min_base_bdevs_operational + 1 ≡ r.num_base_bdevs

module _ (r : RaidBdev) (h : IsStriped r) where
  abbrev n : ℕ
  n = r.num_base_bdevs

  abbrev pub parity : ℕ → ℕ
  parity stripe = raid5f_stripe_parity_chunk_index r stripe

  pub parity-value : (stripe : ℕ) → parity stripe + stripe % n + 1 ≡ n
  unfolding raid5f_stripe_parity_chunk_index raid5f_stripe_data_chunks_num
  parity-value stripe = omega (arith, h.one_parity, h.few_bdevs, mod-lt stripe h.some_bdevs)

  -- With 1 to 255 base bdevs of which one per stripe is for the parity, the parity chunk is one of
  -- the stripe's chunks, and two stripes have it on the same base bdev exactly if their numbers
  -- agree modulo the number of base bdevs: the parity moves round.
  pub parity_rotates :
      (stripe other : ℕ)
      → (parity stripe < n) × ((parity stripe ≡ parity other) ↔ (stripe % n ≡ other % n))
  parity_rotates stripe other = (
    omega (arith, parity-value stripe),
    (
      (λ e. omega (arith, e, parity-value stripe, parity-value other)),
      λ e. omega (arith, e, parity-value stripe, parity-value other),
    ),
  )

  abbrev pub data_chunks : ℕ
  data_chunks = raid5f_stripe_data_chunks_num r

  module _ (stripe : ℕ) where
    chunk-value :
        (i : ℕ)
        → i < data_chunks
        → ((i < parity stripe) × (chunk_idx r stripe i ≡ i))
          ⊎ ((parity stripe ≤ i) × (chunk_idx r stripe i ≡ i + 1))
    unfolding chunk_idx raid5f_stripe_data_chunks_num
    chunk-value i k = elim (dec_lt i (parity stripe)) [
      | yes p ↦ inl (p, ground arith)
      | no p ↦ inr (omega arith, ground (arith, h.one_parity, h.few_bdevs))
    ]

    -- With 1 to 255 base bdevs of which one per stripe is for the parity, the data chunks of a
    -- stripe are spread over the base bdevs without the parity chunk's: each has a base bdev of its
    -- own, and each base bdev but the parity chunk's has one.
    pub chunk_idx-bijective :
        ((i : ℕ)
          → i < data_chunks
          → (chunk_idx r stripe i < n) × (chunk_idx r stripe i ≢ parity stripe))
        × ((i j : ℕ)
            → i < data_chunks
            → j < data_chunks
            → chunk_idx r stripe i ≡ chunk_idx r stripe j
            → i ≡ j)
        × ((d : ℕ)
            → d < n
            → d ≢ parity stripe
            → (i : ℕ) × (i < data_chunks) × (chunk_idx r stripe i ≡ d))
    unfolding raid5f_stripe_data_chunks_num
    chunk_idx-bijective = (
      λ i k. (omega (arith, chunk-value i k, h.one_parity), λ e. omega (arith, chunk-value i k, e)),
      λ i j k l e. omega (arith, chunk-value i k, chunk-value j l, e),
      reached,
    )
      where
        reached :
            (d : ℕ)
            → d < n
            → d ≢ parity stripe
            → (i : ℕ) × (i < data_chunks) × (chunk_idx r stripe i ≡ d)
        reached d k ne = elim (dec_lt d (parity stripe)) [
          | yes p ↦ (
            d,
            omega (arith, h.one_parity, parity-value stripe),
            omega (arith, chunk-value d (omega (arith, h.one_parity, parity-value stripe))),
          )
          | no p ↦
              let q : d - 1 < data_chunks = omega (arith, h.one_parity, ne, p) in
              (d - 1, q, omega (arith, chunk-value (d - 1) q, ne, p))
        ]
