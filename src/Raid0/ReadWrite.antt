-- ===== src/Raid0/ReadWrite.antt =====
-- Reads and writes of raid/raid0.c: which base bdev gets the request, and where.
use flex_bso.Common.{
  ℕ, ◌+◌, ◌-◌, ◌*◌, ◌/◌, ◌%◌, ◌^◌, ◌≤◌, ◌<◌, ◌≡◌, ◌≢◌, ◌∷◌, ◌⊎◌, refl, sym, subst, ap, ◌∙◌, inl,
  inr, arith, u64_mod, u32, sub32, add64, shl64, shr,
}
use Prim.Native.Nat.{bit_and}
use native.Mathlib.Nat.{div-add-mod', mod-lt, mod-one, div-one}
use flex_bso.Common.Lex.{div_unique, mod_unique}
use flex_bso.Common.Bits.{bit_and-mask, pow-pos}
use flex_bso.Bdev.{IoType, read, write, failed, Rc, Child, BdevIo}
use flex_bso.RaidBdev.{
  rw_answered, RaidBdev, RaidBdevIo, BaseInfo, base_info, raid_bdev_readv_blocks_ext,
  raid_bdev_writev_blocks_ext,
}
use flex_bso.Raid0.{place, start_strip, end_strip, rw_child, raid0_submit_rw_request}
use flex_bso.Raid0.Geometry.{disk_of, lba_of, IsLaidOut, lba_of-le, lba_of-lt}

-- A request that lies within the array and, with more than one base bdev, within a strip.
pub record IsServable (r : RaidBdev) (b : BdevIo) : Type 0 where
  pub some_blocks : 0 < b.num_blocks
  pub in_array : b.offset_blocks + b.num_blocks ≤ r.bdev_blockcnt
  pub one_strip :
      (r.num_base_bdevs ≡ 1)
      ⊎ (b.offset_blocks / r.strip_size ≡ (b.offset_blocks + b.num_blocks - 1) / r.strip_size)

-- Blocks of one strip stand side by side on one base bdev.
same_strip :
    (s x k i : ℕ)
    → 0 < s
    → x / s ≡ (x + k) / s
    → i ≤ k
    → ((x + i) / s ≡ x / s) × ((x + i) % s ≡ x % s + i)
same_strip s x k i hs e h =
    let below : x % s + i < s = omega (arith, last, mod-lt (x + k) hs) in
    (
      rw split (div_unique s (x / s) (x % s + i) below),
      rw split (mod_unique s (x / s) (x % s + i) below),
    )
  where
    last : x % s + k ≡ (x + k) % s
    last = omega (arith, div-add-mod' x s, div-add-mod' (x + k) s, ap (λ (q : ℕ). q * s) e)

    split : x + i ≡ x / s * s + (x % s + i)
    split = omega (arith, div-add-mod' x s)

-- The machine arithmetic of the address computes the plain value.
masked : (x k : ℕ) → 2 ^ k < 2 ^ 32 → u32 (bit_and x (sub32 (2 ^ k) 1)) ≡ x % 2 ^ k
masked x k h =
    ap (λ (t : ℕ). u32 (bit_and x t)) sub-one
    ∙ ap u32 (bit_and-mask x k)
    ∙ omega (arith, mod-lt x (pow-pos k))
  where
    sub-one : sub32 (2 ^ k) 1 ≡ 2 ^ k - 1
    sub-one = omega (arith, pow-pos k)

machine_lba :
    (x n s k : ℕ)
    → s ≡ 2 ^ k
    → s < 2 ^ 32
    → 0 < n
    → x < u64_mod
    → add64 (shl64 (shr x k / n) k) (u32 (bit_and x (sub32 s 1))) ≡ lba_of n s x
machine_lba x n s k e h hn hx =
    subst (λ t. add64 (shl64 (shr x k / n) k) (u32 (bit_and x (sub32 t 1))) ≡ lba_of n t x) (sym e)
      (rw (masked x k (subst (λ t. t < 2 ^ 32) e h))
        (omega (arith, lba_of-le n (2 ^ k) hn (pow-pos k) x)))

single : (n s y : ℕ) → n ≡ 1 → (disk_of n s y ≡ 0) × (lba_of n s y ≡ y)
single n s y e = (rw e (mod-one (y / s)), rw (e, div-one (y / s)) (div-add-mod' y s))

-- The child request `c` is the request `b` on one base bdev: all blocks are where the layout puts
-- them, and inside the data region.
pub record IsExact (r : RaidBdev) (b : BdevIo) (c : Child) : Type 0 where
  pub same_blocks : c.blocks ≡ b.num_blocks
  pub same_iovs : c.iovs ≡ b.iovs
  pub idx_in_range : c.idx < r.num_base_bdevs
  pub from_start : (base_info r c.idx).data_offset ≤ c.lba
  pub to_end : c.lba + c.blocks ≤ (base_info r c.idx).data_offset + (base_info r c.idx).data_size
  pub each :
      (i : ℕ)
      → i < b.num_blocks
      → (disk_of r.num_base_bdevs r.strip_size (b.offset_blocks + i) ≡ c.idx)
        × ((base_info r c.idx).data_offset
              + lba_of r.num_base_bdevs r.strip_size (b.offset_blocks + i)
            ≡ c.lba + i)

module _ (r : RaidBdev) (m : ℕ) (b : BdevIo) (laid : IsLaidOut r m) (fits : IsServable r b) where
  abbrev n : ℕ
  n = r.num_base_bdevs

  abbrev s : ℕ
  s = r.strip_size

  abbrev x : ℕ
  x = b.offset_blocks

  positive : 0 < s
  positive = rw laid.power (pow-pos r.strip_size_shift)

  in_word : x + b.num_blocks < u64_mod
  in_word = omega (arith, laid.count_fits, fits.in_array)

  place_lem : place r b ≡ record { pd_idx = disk_of n s x; pd_lba = lba_of n s x }
  unfolding place
  place_lem = λ i. record {
    pd_idx = ap (λ (t : ℕ). x / t % n) (sym laid.power) i;
    pd_lba =
        machine_lba x n s r.strip_size_shift laid.power laid.word laid.some_bdevs
          (omega (arith, in_word)) i;
  }

  -- Every block of the request stands on the base bdev of its first block, in one piece.
  in_one_piece :
      (i : ℕ)
      → i < b.num_blocks
      → (disk_of n s (x + i) ≡ disk_of n s x) × (lba_of n s (x + i) ≡ lba_of n s x + i)
  in_one_piece i h = elim fits.one_strip [
    | inl e ↦
        let one : disk_of n s (x + i) ≡ 0 = (single n s (x + i) e).0 in
        (one ∙ sym (single n s x e).0, omega (arith, (single n s (x + i) e).1, (single n s x e).1))
    | inr e ↦
        let p : ((x + i) / s ≡ x / s) × ((x + i) % s ≡ x % s + i) =
          same_strip s x (b.num_blocks - 1) i positive (e ∙ ap (λ t. t / s) regroup)
            (omega (arith, fits.some_blocks)) in
        (ap (λ (t : ℕ). t % n) p.0, omega (arith, ap (λ (t : ℕ). t / n * s) p.0, p.1))
  ]
    where
      regroup : x + b.num_blocks - 1 ≡ x + (b.num_blocks - 1)
      regroup = omega (arith, fits.some_blocks)

  abbrev d : ℕ
  d = disk_of n s x

  d_in_range : d < n
  d_in_range = mod-lt (x / s) laid.some_bdevs

  -- The last block is inside the base bdev, so all are.
  inside : lba_of n s x + b.num_blocks ≤ m * s
  inside = omega (
    arith,
    fits.some_blocks,
    (in_one_piece (b.num_blocks - 1) (omega (arith, fits.some_blocks))).1,
    lba_of-lt n s laid.some_bdevs positive m (x + (b.num_blocks - 1))
        (omega (arith, fits.in_array, fits.some_blocks, laid.count)),
  )

  same_branch : (start_strip r b ≡ end_strip r b) ⊎ (n ≡ 1)
  same_branch = elim fits.one_strip [
    | inl e ↦ inr e
    | inr e ↦
        inl
          (rw (← laid.power) (e ∙ ap (λ (t : ℕ). t / s) (omega (arith, in_word, fits.some_blocks))))
  ]

  abbrev base : BaseInfo
  base = base_info r d

  exact_lba : add64 base.data_offset (lba_of n s x) ≡ base.data_offset + lba_of n s x
  exact_lba = omega (arith, inside, laid.room d d_in_range, laid.sizes d d_in_range)

  placed : IoType → Child
  placed kind = record {
    kind = kind;
    idx = d;
    lba = add64 base.data_offset (lba_of n s x);
    blocks = b.num_blocks;
    iovs = b.iovs;
  }

  placed-IsExact : (kind : IoType) → IsExact r b (placed kind)
  unfolding placed
  placed-IsExact kind = record {
    same_blocks = refl;
    same_iovs = refl;
    idx_in_range = d_in_range;
    from_start = omega (arith, exact_lba);
    to_end = omega (arith, exact_lba, inside, laid.sizes d d_in_range);
    each = λ i h. ((in_one_piece i h).0, omega (arith, exact_lba, (in_one_piece i h).1));
  }

  abbrev Served : IoType → Type 0
  Served t =
      (answer : Child → Rc) (io : RaidBdevIo)
      → (rw_child r b t answer io ≡ rw_answered io (placed t) (answer (placed t)))

  read-Served : Served read
  unfolding placed raid_bdev_readv_blocks_ext
  read-Served answer io = rw place_lem

  write-Served : Served write
  unfolding placed raid_bdev_writev_blocks_ext
  write-Served answer io = rw place_lem

  not_spanning :
      (answer : Child → Rc) (io : RaidBdevIo)
      → raid0_submit_rw_request r b answer io ≡ rw_child r b b.io_type answer io
  unfolding raid0_submit_rw_request
  not_spanning answer io = ground (arith, same_branch)

  served : (t : IoType) → (t ≡ read) ⊎ (t ≡ write) → Served t
  served read h answer io = read-Served answer io
  served write h answer io = write-Served answer io
  served t h answer io = elim h [ inl e ↦ absurd (cc) | inr e ↦ absurd (cc) ]

  -- In an array that is laid out as `raid0_start` leaves it, a read or a write of at least one block
  -- that lies in the array and, with several base bdevs, in one strip becomes one child request: it
  -- goes to the base bdev where the layout puts its blocks, at the place of its first block, inside
  -- that base bdev's data region; the answer to it decides whether the request is sent, waits or
  -- fails.
  pub raid0_rw-IsExact :
      (b.io_type ≡ read) ⊎ (b.io_type ≡ write)
      → (answer : Child → Rc) (io : RaidBdevIo)
      → (c : Child) × (raid0_submit_rw_request r b answer io ≡ rw_answered io c (answer c))
        × (c.kind ≡ b.io_type)
        × IsExact r b c
  unfolding placed
  raid0_rw-IsExact h answer io = (
    placed b.io_type,
    not_spanning answer io ∙ served b.io_type h answer io,
    refl,
    placed-IsExact b.io_type,
  )

-- A request that spans a strip boundary of an array of several base bdevs is completed as failed, and
-- nothing is sent.
pub raid0_rw-spanning :
    (r : RaidBdev) (b : BdevIo) (answer : Child → Rc) (io : RaidBdevIo)
    → 1 < r.num_base_bdevs
    → start_strip r b ≢ end_strip r b
    → raid0_submit_rw_request r b answer io ≡ record io { completions = failed ∷ io.completions }
unfolding raid0_submit_rw_request
raid0_rw-spanning r b answer io h ne = ground arith
