-- ===== src/Raid5f/Start.antt =====
-- `raid5f_start` of raid/raid5f.c: the sizes it gives to the array.
use flex_bso.Common.{
  ℕ, ◌+◌, ◌*◌, ◌/◌, ◌^◌, ◌≤◌, ◌<◌, ◌≡◌, ◌∙◌, refl, sym, List, arith, true, u64_mod, mul64, mul32,
}
use native.Mathlib.Nat.{div-add-mod', mul-le-mul_right, mul_assoc, mul_comm, mul-le-mul_left}
use flex_bso.Bdev.{ok}
use flex_bso.RaidBdev.{RaidBdev, base_info, min_data_size, u64_max}
use flex_bso.RaidBdev.Sizes.{
  min_data_size-le_start, min_data_size-le, set_data_size-size, set_data_size-offset, IsConfigured,
}
use flex_bso.Raid5f.{Raid5fInfo, raid5f_stripe_data_chunks_num, raid5f_start}
use flex_bso.Raid5f.Chunks.{IsStriped}

-- What `raid5f_start` leaves behind: `m` stripes.
pub record IsStripes (r : RaidBdev) (info : Raid5fInfo) (m : ℕ) : Type 0 where
  pub striped : IsStriped r
  pub power : r.strip_size ≡ 2 ^ r.strip_size_shift
  pub stripe : info.stripe_blocks ≡ r.strip_size * raid5f_stripe_data_chunks_num r
  pub stripes : info.total_stripes ≡ m
  pub count : r.bdev_blockcnt ≡ info.stripe_blocks * m
  pub count_fits : r.bdev_blockcnt < u64_mod
  pub write_unit : r.write_unit_size ≡ info.stripe_blocks
  pub sizes : (d : ℕ) → d < r.num_base_bdevs → (base_info r d).data_size ≡ m * r.strip_size
  pub room :
      (d : ℕ)
      → d < r.num_base_bdevs
      → (base_info r d).data_offset + (base_info r d).data_size < u64_mod

module _ (r : RaidBdev) (aligns : List ℕ) (c : IsConfigured r) (h : IsStriped r)
    (stripe_fits : r.strip_size * r.min_base_bdevs_operational < 2 ^ 32) where
  abbrev least : ℕ
  least = min_data_size u64_max r.base_bdev_info

  abbrev m : ℕ
  m = least / r.strip_size

  abbrev started : RaidBdev
  started = (raid5f_start true aligns r).1

  abbrev info : Raid5fInfo
  info = (raid5f_start true aligns r).2

  m-le : m * r.strip_size ≤ least
  m-le = omega (arith, div-add-mod' least r.strip_size)

  least-le : (d : ℕ) → d < r.num_base_bdevs → least ≤ (base_info r d).data_size
  least-le d k = min_data_size-le u64_max r.base_bdev_info d (omega (arith, c.slots))

  size_lem : mul64 m r.strip_size ≡ m * r.strip_size
  size_lem = omega (arith, m-le, min_data_size-le_start u64_max r.base_bdev_info)

  abbrev k : ℕ
  k = r.min_base_bdevs_operational

  -- The data blocks of all stripes are fewer than the blocks of all base bdevs.
  total_lt : m * r.strip_size * k < u64_mod
  total_lt = omega (
    arith,
    c.count_fits 0 c.some_bdevs,
    mul-le-mul_right {m = m * r.strip_size} {n = (base_info r 0).data_size} k
        (omega (arith, m-le, least-le 0 c.some_bdevs)),
    mul-le-mul_left {m = k} {n = r.num_base_bdevs} (base_info r 0).data_size
        (omega (arith, h.one_parity)),
  )

  size_at : (d : ℕ) → d < r.num_base_bdevs → (base_info started d).data_size ≡ m * r.strip_size
  unfolding raid5f_start
  size_at d q = set_data_size-size _ r.base_bdev_info d (omega (arith, c.slots)) ∙ size_lem

  offset_at : (d : ℕ) → (base_info started d).data_offset ≡ (base_info r d).data_offset
  unfolding raid5f_start
  offset_at d = set_data_size-offset _ r.base_bdev_info d

  regrouped : r.strip_size * k * m ≡ m * r.strip_size * k
  regrouped = mul_comm (r.strip_size * k) m ∙ sym (mul_assoc m r.strip_size k)

  stripe_lem :
      mul32 r.strip_size (raid5f_stripe_data_chunks_num r)
      ≡ r.strip_size * raid5f_stripe_data_chunks_num r
  unfolding raid5f_stripe_data_chunks_num
  stripe_lem = omega (arith, stripe_fits)

  count_lem : started.bdev_blockcnt ≡ info.stripe_blocks * m
  unfolding raid5f_start raid5f_stripe_data_chunks_num
  count_lem = rw stripe_lem (omega (arith, regrouped, total_lt))

  not_larger :
      (d : ℕ) → d < r.num_base_bdevs → (base_info started d).data_size ≤ (base_info r d).data_size
  not_larger d q = omega (arith, size_at d q, m-le, least-le d q)

  stripes_lem : IsStripes started info m
  unfolding raid5f_start raid5f_stripe_data_chunks_num
  stripes_lem = record {
    striped = record {
      some_bdevs = h.some_bdevs;
      few_bdevs = h.few_bdevs;
      one_parity = h.one_parity;
    };
    power = c.power;
    stripe = stripe_lem;
    stripes = refl;
    count = count_lem;
    count_fits = rw (count_lem, stripe_lem) (omega (arith, regrouped, total_lt));
    write_unit = refl;
    sizes = size_at;
    room = λ d q. omega (arith, offset_at d, not_larger d q, c.room d q);
  }

  -- With all slots filled, 1 to 255 base bdevs, a strip size below 2^32 that is 2 to the power of
  -- the shift, data regions that end below block 2^64, all together too, and fewer than 2^32 data blocks in a
  -- stripe, which the source multiplies in 32 bits: when the memory is
  -- given and one chunk of a stripe is for the parity, the module starts, and the layout is the one
  -- that requests rely on. There are as many whole stripes as the smallest base bdev has strips,
  -- each base bdev is cut to that many strips and none grows, and the array is as long as the data
  -- chunks of the stripes are together.
  pub raid5f_start-layout :
      ((raid5f_start true aligns r).0 ≡ ok)
      × IsStripes (raid5f_start true aligns r).1 (raid5f_start true aligns r).2 m
      × ((d : ℕ)
          → d < r.num_base_bdevs
          → (base_info (raid5f_start true aligns r).1 d).data_size ≤ (base_info r d).data_size)
  unfolding raid5f_start
  raid5f_start-layout = (refl, stripes_lem, not_larger)
