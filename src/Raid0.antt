-- ===== src/Raid0.antt =====
-- raid/raid0.c: strips of `strip_size` blocks laid out round-robin over the base bdevs.
pub mod Geometry
pub mod ReadWrite
pub mod Strips
pub mod Pieces
pub mod Split
pub mod NullPayload
pub mod Start
mod Tests
use Prim.Native.Nat.{bit_and}
use flex_bso.Common.{
  ℕ, ◌+◌, ◌/◌, ◌%◌, Bool, true, false, ◌&&◌, not, ltb, ◌==◌, if◌then◌else◌, List, [], ◌∷◌, add64,
  sub64, mul64, shl64, shr, u8, u32, sub32, min, get_or,
}
use flex_bso.Bdev.{
  IoType, read, write, unmap, flush, IoStatus, success, failed, Rc, ok, fail, enomem, eio, BdevIo,
  Child, status_of,
}
use flex_bso.RaidBdev.{
  BaseInfo, RaidBdev, RaidBdevIo, RaidModule, raid0, constraint_unset, base_info, min_data_size,
  set_data_size, u64_max, raid_bdev_readv_blocks_ext, raid_bdev_writev_blocks_ext,
  raid_bdev_unmap_blocks, raid_bdev_flush_blocks, raid_bdev_io_complete, raid_bdev_queue_io_wait,
  accept, complete_one, rw_answered,
}
use flex_bso.Fanout.{Slot, child}
use flex_bso.Fanout.Handler.{serve}

-- The child's end is the request's end.
unfoldable pub raid0_bdev_io_completion : RaidBdevIo → Bool → RaidBdevIo
unfolding raid_bdev_io_complete
raid0_bdev_io_completion io done = raid_bdev_io_complete io (status_of done)

unfoldable pub raid0_base_io_complete : RaidBdevIo → Bool → RaidBdevIo
unfolding complete_one
raid0_base_io_complete io done = complete_one io done

-- Where a block of the array is: `pd_idx` and `pd_lba`.
pub record Place : Type 0 where
  pub pd_idx : ℕ
  pub pd_lba : ℕ

module _ (r : RaidBdev) (b : BdevIo) where
  abbrev pub start_strip : ℕ
  start_strip = shr b.offset_blocks r.strip_size_shift

  abbrev pub end_strip : ℕ
  end_strip = shr (sub64 (add64 b.offset_blocks b.num_blocks) 1) r.strip_size_shift

  unfoldable pub place : Place
  place = record {
    pd_idx = start_strip % r.num_base_bdevs;
    pd_lba =
        add64 (shl64 (start_strip / r.num_base_bdevs) r.strip_size_shift)
          (u32 (bit_and b.offset_blocks (sub32 r.strip_size 1)));
  }

  -- Requests of other kinds are not sent, as behind `assert(0)`.
  abbrev rw_child : IoType → (Child → Rc) → RaidBdevIo → RaidBdevIo
  rw_child read answer io =
      let p = place in
      let c =
        raid_bdev_readv_blocks_ext (base_info r p.pd_idx) p.pd_idx b.iovs p.pd_lba b.num_blocks in
      rw_answered io c (answer c)
  rw_child write answer io =
      let p = place in
      let c =
        raid_bdev_writev_blocks_ext (base_info r p.pd_idx) p.pd_idx b.iovs p.pd_lba b.num_blocks in
      rw_answered io c (answer c)
  rw_child t answer io = io

  unfoldable pub raid0_submit_rw_request : (Child → Rc) → RaidBdevIo → RaidBdevIo
  unfolding raid_bdev_queue_io_wait raid_bdev_io_complete
  raid0_submit_rw_request answer io =
      if not (start_strip == end_strip) && ltb 1 r.num_base_bdevs
      then raid_bdev_io_complete io failed
      else rw_child b.io_type answer io

-- `struct raid_bdev_io_range`
pub record IoRange : Type 0 where
  pub range_strip_size : ℕ
  pub start_strip_in_disk : ℕ
  pub end_strip_in_disk : ℕ
  pub start_offset_in_strip : ℕ
  pub end_offset_in_strip : ℕ
  pub start_disk : ℕ
  pub end_disk : ℕ
  pub n_disks_involved : ℕ

unfoldable pub raid0_get_io_range : ℕ → ℕ → ℕ → ℕ → ℕ → IoRange
raid0_get_io_range num_base_bdevs strip_size strip_size_shift offset_blocks num_blocks =
    let total_blocks = sub64 (add64 offset_blocks num_blocks) (if ltb 0 num_blocks then 1 else 0) in
    let start_strip = shr offset_blocks strip_size_shift in
    let end_strip = shr total_blocks strip_size_shift in
    record {
      range_strip_size = strip_size;
      start_strip_in_disk = start_strip / num_base_bdevs;
      end_strip_in_disk = end_strip / num_base_bdevs;
      start_offset_in_strip = offset_blocks % strip_size;
      end_offset_in_strip = total_blocks % strip_size;
      start_disk = u8 (start_strip % num_base_bdevs);
      end_disk = u8 (end_strip % num_base_bdevs);
      n_disks_involved = u8 (min (add64 (sub64 end_strip start_strip) 1) num_base_bdevs);
    }

-- `*_offset_in_disk` and `*_nblocks_in_disk`
pub record DiskRange : Type 0 where
  pub offset_in_disk : ℕ
  pub nblocks_in_disk : ℕ

unfoldable pub raid0_split_io_range : IoRange → ℕ → DiskRange
raid0_split_io_range g disk_idx =
    let start_strip =
      if ltb disk_idx g.start_disk then add64 g.start_strip_in_disk 1 else g.start_strip_in_disk in
    let end_strip =
      if ltb g.end_disk disk_idx then sub64 g.end_strip_in_disk 1 else g.end_strip_in_disk in
    let n_strips_in_disk = add64 (sub64 end_strip start_strip) 1 in
    let start_offset = if disk_idx == g.start_disk then g.start_offset_in_strip else 0 in
    let end_offset =
      if disk_idx == g.end_disk then g.end_offset_in_strip else sub64 g.range_strip_size 1 in
    record {
      offset_in_disk = add64 start_offset (mul64 start_strip g.range_strip_size);
      nblocks_in_disk =
          add64
            (sub64 (add64 (mul64 (sub64 n_strips_in_disk 1) g.range_strip_size) end_offset)
              start_offset)
            1;
    }

module _ (r : RaidBdev) (b : BdevIo) where
  abbrev pub io_range : IoRange
  io_range =
      raid0_get_io_range r.num_base_bdevs r.strip_size r.strip_size_shift b.offset_blocks
        b.num_blocks

  -- The base bdev of slot `k`, counted from the start disk.
  abbrev pub slot_disk : ℕ → ℕ
  slot_disk k = (io_range.start_disk + k) % r.num_base_bdevs

  abbrev pub null_child : IoType → ℕ → DiskRange → Child
  null_child unmap d p = raid_bdev_unmap_blocks (base_info r d) d p.offset_in_disk p.nblocks_in_disk
  null_child t d p = raid_bdev_flush_blocks (base_info r d) d p.offset_in_disk p.nblocks_in_disk

  abbrev pub null_slot : ℕ → Slot
  null_slot k =
      child (null_child b.io_type (slot_disk k) (raid0_split_io_range io_range (slot_disk k)))

  -- Any other kind of request ends in -EIO.
  abbrev null_answer : IoType → (Child → Rc) → Child → Rc
  null_answer unmap answer c = answer c
  null_answer flush answer c = answer c
  null_answer t answer c = fail eio

  abbrev pub null_begin : RaidBdevIo → RaidBdevIo
  null_begin io =
      if io.base_bdev_io_remaining == 0
      then record io { base_bdev_io_remaining = io_range.n_disks_involved }
      else io

  abbrev pub null_give_up : RaidBdevIo → RaidBdevIo
  null_give_up io = raid_bdev_io_complete io failed

  unfoldable pub raid0_submit_null_payload_request : (Child → Rc) → RaidBdevIo → RaidBdevIo
  raid0_submit_null_payload_request answer io =
      serve io_range.n_disks_involved null_slot null_give_up null_begin
        (null_answer b.io_type answer) io

-- `(min_blockcnt >> strip_size_shift) << strip_size_shift`
abbrev pub whole_strips : ℕ → ℕ → ℕ
whole_strips blocks shift = shl64 (shr blocks shift) shift

unfoldable pub raid0_start : RaidBdev → RaidBdev
unfolding min_data_size set_data_size
raid0_start r =
    let size = whole_strips (min_data_size u64_max r.base_bdev_info) r.strip_size_shift in
    record r {
      base_bdev_info = set_data_size size r.base_bdev_info;
      bdev_blockcnt = mul64 size r.num_base_bdevs;
      optimal_io_boundary = if ltb 1 r.num_base_bdevs then r.strip_size else 0;
      split_on_optimal_io_boundary = ltb 1 r.num_base_bdevs;
    }

-- The least `base_bdev->blockcnt - base_info->data_offset`; `blockcnts` are the present sizes.
unfoldable pub min_resized : ℕ → List BaseInfo → List ℕ → ℕ
min_resized m [] blockcnts = m
min_resized m (i ∷ is) [] = m
min_resized m (i ∷ is) (c ∷ cs) = min_resized (min m (sub64 c i.data_offset)) is cs

-- `notify` is the answer of `spdk_bdev_notify_blockcnt_change`, which sets the new count.
unfoldable pub raid0_resize : List ℕ → Rc → RaidBdev → RaidBdev
unfolding min_resized set_data_size
raid0_resize blockcnts notify r =
    let size = whole_strips (min_resized u64_max r.base_bdev_info blockcnts) r.strip_size_shift in
    let blockcnt = mul64 size r.num_base_bdevs in
    if blockcnt == r.bdev_blockcnt then r else elim notify [
      | ok ↦ record r {
        base_bdev_info = set_data_size size r.base_bdev_info;
        bdev_blockcnt = blockcnt;
      }
      | fail e ↦ r
    ]

abbrev pub g_raid0_module : RaidModule
g_raid0_module = record {
  module_level = raid0;
  base_bdevs_min = 1;
  constraint_type = constraint_unset;
  constraint_value = 0;
  has_stop = false;
  has_null_payload = true;
  has_resize = true;
}
