-- ===== src/BaseBdevs.antt =====
-- raid/bdev_raid.c: the life of a RAID bdev, from its creation over adding and removing base bdevs to
-- its deletion. One RAID bdev is followed; its place in the global list is left out.
pub mod Counted
pub mod Configured
pub mod Reached
pub mod Levels
pub mod Creation
pub mod Removal
mod Tests
use flex_bso.Common.{
  ℕ, zero, suc, ◌+◌, ◌-◌, ◌*◌, ◌/◌, ◌%◌, Bool, true, false, ◌&&◌, ◌||◌, not, ltb, leb, ◌==◌,
  if◌then◌else◌, Option, none, some, List, [], ◌∷◌, get_or, set, replicate, u8, u32, sub64,
}
use flex_bso.Bdev.{Rc, ok, fail, enomem, einval, enodev, eexist, ebusy, eperm, ealready}
use flex_bso.RaidBdev.{
  RaidLevel, invalid_raid_level, raid0, raid1, raid5f, concat, RaidState, online, configuring,
  offline, state_max, BaseInfo, RaidBdev, RaidModule, ConstraintType, constraint_unset,
  constraint_max_base_bdevs_removed, constraint_min_base_bdevs_operational, base_info, no_info,
}
use flex_bso.Raid0.{raid0_start, g_raid0_module}
use flex_bso.Raid1.{raid1_start, g_raid1_module}
use flex_bso.Concat.{concat_start, g_concat_module}
use flex_bso.Raid5f.{raid5f_start, g_raid5f_module}

-- Equality of levels and states, as numbers in the source.
abbrev pub same_level : RaidLevel → RaidLevel → Bool
same_level raid0 raid0 = true
same_level raid1 raid1 = true
same_level raid5f raid5f = true
same_level concat concat = true
same_level invalid_raid_level invalid_raid_level = true
same_level a b = false

abbrev pub is_online : RaidState → Bool
is_online online = true
is_online s = false

-- `g_raid_modules`, and the search in it
abbrev pub g_raid_modules : List RaidModule
g_raid_modules = g_concat_module ∷ g_raid0_module ∷ g_raid1_module ∷ g_raid5f_module ∷ []

unfoldable pub raid_bdev_module_find : RaidLevel → List RaidModule → Option RaidModule
raid_bdev_module_find level [] = none
raid_bdev_module_find level (m ∷ ms) =
    let rest = raid_bdev_module_find level ms in
    if same_level m.module_level level then some m else rest

-- The least number of base bdevs to stay operational, if the constraint is a valid one.
abbrev pub min_operational : ConstraintType → ℕ → ℕ → Option ℕ
min_operational constraint_max_base_bdevs_removed value num = some (u8 (num + 256 - value))
min_operational constraint_min_base_bdevs_operational value num = some value
min_operational constraint_unset value num = if value == 0 then some num else none

abbrev pub new_raid_bdev : ℕ → ℕ → RaidLevel → Bool → ℕ → RaidBdev
new_raid_bdev strip_size num level superblock min_op = record {
  base_bdev_info = replicate num no_info;
  strip_size = 0;
  strip_size_kb = strip_size;
  strip_size_shift = 0;
  blocklen_shift = 0;
  state = configuring;
  num_base_bdevs = num;
  num_base_bdevs_discovered = 0;
  min_base_bdevs_operational = min_op;
  level = level;
  destroy_started = false;
  superblock_enabled = superblock;
  bdev_blockcnt = 0;
  bdev_blocklen = 0;
  optimal_io_boundary = 0;
  split_on_optimal_io_boundary = false;
  write_unit_size = 0;
  split_on_write_unit = false;
}

-- An `int` result, with what the operation gives on success.
pub data Created : Type 0 where
  refused : Rc → Created
  created : RaidBdev → Created

-- `exists` says that the name is taken; `is_pow2` is `spdk_u32_is_pow2`; `allocated` says that the three
-- allocations succeed.
module _ (is_pow2 : ℕ → Bool) (strip_size num : ℕ) (level : RaidLevel)
    (superblock allocated : Bool) where
  abbrev pub bad_strip_size : Bool
  bad_strip_size =
      if same_level level raid1 then not (strip_size == 0) else not (is_pow2 strip_size)

  abbrev pub create_with_min : Option ℕ → Created
  create_with_min none = refused (fail einval)
  create_with_min (some min_op) =
      if (min_op == 0) || ltb num min_op
      then refused (fail einval)
      else if allocated
      then created (new_raid_bdev strip_size num level superblock min_op)
      else refused (fail enomem)

  abbrev pub create_with_module : Option RaidModule → Created
  create_with_module none = refused (fail einval)
  create_with_module (some m) =
      if ltb num m.base_bdevs_min
      then refused (fail einval)
      else create_with_min (min_operational m.constraint_type m.constraint_value num)

  unfoldable pub raid_bdev_create : Bool → Created
  unfolding raid_bdev_module_find
  raid_bdev_create exists =
      if exists
      then refused (fail eexist)
      else if bad_strip_size
      then refused (fail einval)
      else create_with_module (raid_bdev_module_find level g_raid_modules)

-- What the module reads of a base bdev.
pub record BaseBdev : Type 0 where
  pub blocklen : ℕ
  pub bdev_blocks : ℕ
  pub io_boundary : ℕ
  pub has_dif : Bool
  pub md_len : ℕ
  pub md_interleave : Bool

-- The answer of `spdk_bdev_open_ext`: a descriptor, and the bdev behind it.
pub data Opened : Type 0 where
  not_opened : Rc → Opened
  opened : ℕ → Opened

unfoldable pub raid_bdev_free_base_bdev_resource : ℕ → RaidBdev → RaidBdev
raid_bdev_free_base_bdev_resource i r =
    let b = base_info r i in
    let closed = set r.base_bdev_info i (record b { name = none; desc = none }) in
    elim b.desc [
      | none ↦ record r { base_bdev_info = closed }
      | some d ↦ record r {
        base_bdev_info = closed;
        num_base_bdevs_discovered = u8 (r.num_base_bdevs_discovered + 255);
      }
    ]

-- `bdevs d` is the bdev behind descriptor `d`; `log2` is `spdk_u32log2`; `allocated` and `aligns` are what
-- the starts of the modules ask for; `registered` is the answer of `spdk_bdev_register`.
module _ (bdevs : ℕ → BaseBdev) (log2 : ℕ → ℕ) (allocated : Bool) (aligns : List ℕ)
    (registered : Rc) where
  abbrev no_bdev : BaseBdev
  no_bdev = record {
    blocklen = 0;
    bdev_blocks = 0;
    io_boundary = 0;
    has_dif = false;
    md_len = 0;
    md_interleave = false;
  }

  abbrev bdev_of : Option ℕ → BaseBdev
  bdev_of none = no_bdev
  bdev_of (some d) = bdevs d

  -- The block length of all base bdevs; `none` if two of them differ.
  unfoldable pub common_blocklen : ℕ → List BaseInfo → Option ℕ
  common_blocklen blocklen [] = some blocklen
  common_blocklen blocklen (i ∷ is) =
      let l = (bdev_of i.desc).blocklen in
      let rest = common_blocklen (if blocklen == 0 then l else blocklen) is in
      if (blocklen == 0) || (blocklen == l) then rest else none

  abbrev same_bool : Bool → Bool → Bool
  same_bool true b = b
  same_bool false b = not b

  -- The loop of `raid_bdev_configure_md` behind the first base bdev.
  abbrev md_matches : ℕ → Bool → List BaseInfo → Bool
  md_matches len interleave [] = true
  md_matches len interleave (i ∷ is) =
      let b = bdev_of i.desc in
      not b.has_dif
      && (len == b.md_len)
      && same_bool interleave b.md_interleave
      && md_matches len interleave is

  unfoldable pub raid_bdev_configure_md : List BaseInfo → Rc
  raid_bdev_configure_md [] = ok
  raid_bdev_configure_md (i ∷ is) =
      let b = bdev_of i.desc in
      if not b.has_dif && md_matches b.md_len b.md_interleave is then ok else fail eperm

  -- `module->start`
  abbrev pub start_by_level : RaidLevel → RaidBdev → Rc × RaidBdev
  start_by_level raid0 r = (ok, raid0_start r)
  start_by_level raid1 r = raid1_start allocated r
  start_by_level concat r = let s = concat_start allocated r in (s.0, s.1)
  start_by_level raid5f r = let s = raid5f_start allocated aligns r in (s.0, s.1)
  start_by_level invalid_raid_level r = (fail einval, r)

  -- A RAID bdev that cannot be registered stays in the configuring state.
  abbrev pub register : Rc × RaidBdev → Rc × RaidBdev
  register (fail e, r) = (fail e, r)
  register (ok, r) = elim registered [
    | ok ↦ (ok, record r { state = online })
    | fail e ↦ (fail e, record r { state = configuring })
  ]

  abbrev pub with_strip : ℕ → RaidBdev → RaidBdev
  with_strip blocklen r =
      let strip_size = u32 (r.strip_size_kb * 1024) / blocklen in
      record r {
        strip_size = strip_size;
        strip_size_shift = log2 strip_size;
        blocklen_shift = log2 blocklen;
        bdev_blocklen = blocklen;
      }

  abbrev pub configure_with : Option ℕ → RaidBdev → Rc × RaidBdev
  configure_with none r = (fail einval, r)
  configure_with (some blocklen) r =
      let s = with_strip blocklen r in
      if (s.strip_size == 0) && not (same_level r.level raid1)
      then (fail einval, record r { strip_size = 0 })
      else elim (raid_bdev_configure_md r.base_bdev_info) [
        | ok ↦ register (start_by_level r.level s)
        | fail e ↦ (fail e, s)
      ]

  unfoldable pub raid_bdev_configure : RaidBdev → Rc × RaidBdev
  unfolding common_blocklen raid_bdev_configure_md
  raid_bdev_configure r = configure_with (common_blocklen 0 r.base_bdev_info) r

  -- `RAID_BDEV_MIN_DATA_OFFSET_SIZE / bdev->blocklen`, rounded up to the base bdev's I/O boundary
  abbrev pub superblock_offset : BaseBdev → ℕ
  superblock_offset b =
      let offset = 1048576 / b.blocklen in
      if b.io_boundary == 0
      then offset
      else (offset + b.io_boundary - 1) / b.io_boundary * b.io_boundary

  abbrev pub info_of : RaidBdev → ℕ → BaseInfo → BaseBdev → BaseInfo
  info_of r d i b =
      if r.superblock_enabled
      then record i {
        desc = some d;
        blockcnt = b.bdev_blocks;
        data_offset = superblock_offset b;
        data_size =
            if leb b.bdev_blocks (superblock_offset b)
            then b.bdev_blocks
            else b.bdev_blocks - superblock_offset b;
      }
      else record i {
        desc = some d;
        blockcnt = b.bdev_blocks;
        data_offset = 0;
        data_size = b.bdev_blocks;
      }

  abbrev pub discovered : ℕ → ℕ → RaidBdev → RaidBdev
  discovered slot d r = record r {
    base_bdev_info = set r.base_bdev_info slot (info_of r d (base_info r slot) (bdevs d));
    num_base_bdevs_discovered = u8 (r.num_base_bdevs_discovered + 1);
  }

  -- The bdev is open and claimed.
  abbrev pub configure_opened : ℕ → ℕ → RaidBdev → Rc × RaidBdev
  configure_opened slot d r =
      let r' = discovered slot d r in
      if r.superblock_enabled && leb (bdevs d).bdev_blocks (superblock_offset (bdevs d))
      then (fail einval, r')
      else if r'.num_base_bdevs_discovered == r.num_base_bdevs
      then raid_bdev_configure r'
      else (ok, r')

  -- `claim` is the answer of `spdk_bdev_module_claim_bdev`.
  unfoldable pub raid_bdev_configure_base_bdev : Opened → Rc → ℕ → RaidBdev → Rc × RaidBdev
  unfolding raid_bdev_configure
  raid_bdev_configure_base_bdev (not_opened rc) claim slot r = (rc, r)
  raid_bdev_configure_base_bdev (opened d) (fail e) slot r = (fail e, r)
  raid_bdev_configure_base_bdev (opened d) ok slot r = configure_opened slot d r

  unfoldable pub raid_bdev_add_base_device : Opened → Rc → Bool → ℕ → ℕ → RaidBdev → Rc × RaidBdev
  unfolding raid_bdev_configure_base_bdev
  raid_bdev_add_base_device answer claim strdup bdev_name slot r =
      let named = record r {
        base_bdev_info =
            set r.base_bdev_info slot (record (base_info r slot) { name = some bdev_name });
      } in
      if leb r.num_base_bdevs slot then (fail einval, r) else elim (base_info r slot).name [
        | some n ↦ (fail ebusy, r)
        | none ↦
            if strdup
            then raid_bdev_configure_base_bdev answer claim slot named
            else (fail enomem, r)
      ]
