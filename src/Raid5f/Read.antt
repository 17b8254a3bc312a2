-- ===== src/Raid5f/Read.antt =====
-- Where a read of raid/raid5f.c goes, and that no two blocks are read from the same place.
use flex_bso.Common.{
  dec_lt, ℕ, ◌+◌, ◌*◌, ◌/◌, ◌%◌, ◌^◌, ◌≤◌, ◌<◌, ◌≡◌, ◌≢◌, ◌∙◌, refl, sym, subst, ap, arith, u64_mod,
  u8, add64, sub64, shl64, shl_int, shr,
}
use native.Mathlib.Nat.{div-add-mod', mod-lt, mod-le, div-lt_iff_lt-mul, mul_comm}
use flex_bso.Common.Lex.{div_unique, mod_unique, mul_step}
use flex_bso.Common.Bits.{pow-pos}
use flex_bso.RaidBdev.{RaidBdev}
use flex_bso.Raid5f.{
  Raid5fInfo, ReadPlace, raid5f_stripe_data_chunks_num, raid5f_stripe_parity_chunk_index, chunk_idx,
  read_place,
}
use flex_bso.Raid5f.Chunks.{chunk_idx-bijective}
use flex_bso.Raid5f.Start.{IsStripes}

module _ (r : RaidBdev) (info : Raid5fInfo) (m : ℕ) (l : IsStripes r info m) (x : ℕ)
    (inside : x < r.bdev_blockcnt) (int_fits : info.stripe_blocks ≤ 2 ^ 31) where
  abbrev s : ℕ
  s = r.strip_size

  abbrev stripe : ℕ
  stripe = x / info.stripe_blocks

  abbrev off : ℕ
  off = x % info.stripe_blocks

  abbrev di : ℕ
  di = off / s

  positive : 0 < s
  positive = rw l.power (pow-pos r.strip_size_shift)

  stripe-positive : 0 < info.stripe_blocks
  stripe-positive = elim (dec_lt 0 info.stripe_blocks) [
    | yes p ↦ p
    | no p ↦ absurd (omega (arith, inside, l.count, empty (omega (arith, p))))
  ]
    where
      empty : info.stripe_blocks ≡ 0 → info.stripe_blocks * m ≡ 0
      empty e = ap (λ (t : ℕ). t * m) e ∙ omega arith

  off-lt : off < s * raid5f_stripe_data_chunks_num r
  off-lt = omega (arith, mod-lt x stripe-positive, l.stripe)

  di-lt : di < raid5f_stripe_data_chunks_num r
  di-lt =
      (div-lt_iff_lt-mul {k = s} {x = off} {y = raid5f_stripe_data_chunks_num r} positive).1
        (omega (arith, off-lt, mul_comm s (raid5f_stripe_data_chunks_num r)))

  stripe-lt : stripe < m
  stripe-lt =
      (div-lt_iff_lt-mul {k = info.stripe_blocks} {x = x} {y = m} stripe-positive).1
        (omega (arith, inside, l.count, mul_comm info.stripe_blocks m))

  -- The blocks of a base bdev before the stripe, and those of the stripe.
  lba-lt : stripe * s + off % s < m * s
  lba-lt = omega (arith, mul_step stripe m s stripe-lt, mod-lt off positive)

  few : raid5f_stripe_data_chunks_num r < 256
  unfolding raid5f_stripe_data_chunks_num
  few = omega (arith, l.striped.one_parity, l.striped.few_bdevs)

  in_word : m * s < u64_mod
  in_word = omega (arith, l.room 0 l.striped.some_bdevs, l.sizes 0 l.striped.some_bdevs)

  index_lem : u8 (shr off r.strip_size_shift) ≡ di
  index_lem = rw (← l.power) (omega (arith, di-lt, few))

  lba_lem :
      add64
        (shl64 stripe r.strip_size_shift)
        (sub64 off (shl_int (u8 (shr off r.strip_size_shift)) r.strip_size_shift))
      ≡ stripe * s + off % s
  lba_lem =
      rw (index_lem, ← l.power)
        (omega (arith, in_word, lba-lt, off-lt, off_lt_word, below_int, div-add-mod' off s))
    where
      below_int : off < 2 ^ 31
      below_int = omega (arith, mod-lt x stripe-positive, int_fits)

      off_lt_word : off < u64_mod
      off_lt_word = omega (arith, inside, l.count_fits, mod-le x info.stripe_blocks)

  value :
      read_place r stripe off
      ≡ record { base = chunk_idx r stripe di; base_offset_blocks = stripe * s + off % s }
  unfolding read_place
  value = λ i. record { base = ap (chunk_idx r stripe) index_lem i; base_offset_blocks = lba_lem i }

  -- Block `x` of the array is at block `p.base_offset_blocks` of base bdev `p.base`.
  pub record IsPlace (p : ReadPlace) : Type 0 where
    pub in_range : p.base < r.num_base_bdevs
    pub not_parity : p.base ≢ raid5f_stripe_parity_chunk_index r (p.base_offset_blocks / s)
    pub in_data : p.base_offset_blocks < m * s
    pub back :
        (i : ℕ) × (i < raid5f_stripe_data_chunks_num r)
        × (chunk_idx r (p.base_offset_blocks / s) i ≡ p.base)
        × (x ≡ p.base_offset_blocks / s * info.stripe_blocks + i * s + p.base_offset_blocks % s)

  -- In an array that is laid out as `raid5f_start` leaves it, with stripes of at most 2 ^ 31 data blocks, so
  -- that the shift of the chunk's number does not overflow an `int`: a read of a block of the array goes to
  -- a base bdev of the block's stripe that does not hold its parity, inside the data region, and the
  -- place tells the block: the stripe is that of the place, the data chunk the one that `chunk_idx`
  -- puts there, and the offset in the chunk is kept.
  pub read_place-IsPlace : IsPlace (read_place r (x / info.stripe_blocks) (x % info.stripe_blocks))
  read_place-IsPlace = subst IsPlace (sym value) placed
    where
      stripe_back : (stripe * s + off % s) / s ≡ stripe
      stripe_back = div_unique s stripe (off % s) (mod-lt off positive)

      offset_back : (stripe * s + off % s) % s ≡ off % s
      offset_back = mod_unique s stripe (off % s) (mod-lt off positive)

      whole : x ≡ stripe * info.stripe_blocks + di * s + off % s
      whole = omega (arith, div-add-mod' x info.stripe_blocks, div-add-mod' off s)

      placed :
          IsPlace
            (record { base = chunk_idx r stripe di; base_offset_blocks = stripe * s + off % s })
      placed = record {
        in_range = ((chunk_idx-bijective r l.striped stripe).0 di di-lt).0;
        not_parity = rw stripe_back (((chunk_idx-bijective r l.striped stripe).0 di di-lt).1);
        in_data = lba-lt;
        back = (di, di-lt, rw stripe_back refl, rw (stripe_back, offset_back) whole);
      }
