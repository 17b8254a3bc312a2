-- ===== src/RaidBdev.antt =====
-- raid/bdev_raid.h: the RAID bdev, its base bdevs, its channels and its requests; and the
-- completion functions of raid/bdev_raid.c that all RAID levels call.
-- `assert` is compiled out, as in a release build; where it guards a step, a theorem shows that
-- the asserted condition holds.
pub mod Parts
pub mod Sizes
use flex_bso.Common.{
  ℕ, ◌-◌, ◌^◌, min, ◌==◌, Bool, true, false, if◌then◌else◌, Option, some, none, List, [], ◌∷◌,
  add64, sub64, get_or,
}
use flex_bso.Bdev.{
  Rc, ok, fail, enomem, read, write, unmap, flush, IoStatus, success, failed, nomem, Iovec, Child,
  status_of,
}

-- `enum raid_level`
pub data RaidLevel : Type 0 where
  invalid_raid_level raid0 raid1 raid5f concat : RaidLevel

-- `enum raid_bdev_state`
pub data RaidState : Type 0 where
  online configuring offline state_max : RaidState

-- `struct raid_base_bdev_info`; `desc` names the bdev behind the open descriptor.
pub record BaseInfo : Type 0 where
  pub name : Option ℕ
  pub desc : Option ℕ
  pub data_offset : ℕ
  pub data_size : ℕ
  pub remove_scheduled : Bool
  pub blockcnt : ℕ

-- `struct raid_bdev`, with the fields of its `struct spdk_bdev` that the sources set.
pub record RaidBdev : Type 0 where
  pub base_bdev_info : List BaseInfo
  pub strip_size : ℕ
  pub strip_size_kb : ℕ
  pub strip_size_shift : ℕ
  pub blocklen_shift : ℕ
  pub state : RaidState
  pub num_base_bdevs : ℕ
  pub num_base_bdevs_discovered : ℕ
  pub min_base_bdevs_operational : ℕ
  pub level : RaidLevel
  pub destroy_started : Bool
  pub superblock_enabled : Bool
  pub bdev_blockcnt : ℕ
  pub bdev_blocklen : ℕ
  pub optimal_io_boundary : ℕ
  pub split_on_optimal_io_boundary : Bool
  pub write_unit_size : ℕ
  pub split_on_write_unit : Bool

-- `struct raid_bdev_io_channel`: for each base bdev, whether `base_channel[i]` is not NULL.
pub record RaidBdevIoChannel : Type 0 where
  pub base_channel : List Bool
  pub num_channels : ℕ

-- `struct raid_bdev_io`, and what has left the module for it: the child requests that the layer
-- below accepted, the base bdev that a queued retry waits for, and the statuses that
-- `spdk_bdev_io_complete` was called with (both lists newest first).
pub record RaidBdevIo : Type 0 where
  pub base_bdev_io_remaining : ℕ
  pub base_bdev_io_submitted : ℕ
  pub base_bdev_io_status : IoStatus
  pub sent : List Child
  pub waitq : Option ℕ
  pub completions : List IoStatus

abbrev pub no_info : BaseInfo
no_info = record {
  name = none;
  desc = none;
  data_offset = 0;
  data_size = 0;
  remove_scheduled = false;
  blockcnt = 0;
}

-- `&raid_bdev->base_bdev_info[i]`
abbrev pub base_info : RaidBdev → ℕ → BaseInfo
base_info r i = get_or r.base_bdev_info i no_info

-- The constraint of `struct raid_bdev_module`.
pub data ConstraintType : Type 0 where
  constraint_unset constraint_max_base_bdevs_removed constraint_min_base_bdevs_operational :
      ConstraintType

-- `struct raid_bdev_module`; of the optional callbacks only their presence is kept.
pub record RaidModule : Type 0 where
  pub module_level : RaidLevel
  pub base_bdevs_min : ℕ
  pub constraint_type : ConstraintType
  pub constraint_value : ℕ
  pub has_stop : Bool
  pub has_null_payload : Bool
  pub has_resize : Bool

-- `RAID_FOR_EACH_BASE_BDEV` with `min_blockcnt = spdk_min(min_blockcnt, base_info->data_size)`,
-- which starts at UINT64_MAX.
unfoldable pub min_data_size : ℕ → List BaseInfo → ℕ
min_data_size m [] = m
min_data_size m (b ∷ bs) = min_data_size (min m b.data_size) bs

abbrev pub u64_max : ℕ
u64_max = 2 ^ 64 - 1

-- `RAID_FOR_EACH_BASE_BDEV` with `base_info->data_size = size`
unfoldable pub set_data_size : ℕ → List BaseInfo → List BaseInfo
set_data_size size [] = []
set_data_size size (b ∷ bs) = record b { data_size = size } ∷ set_data_size size bs

-- `raid_bdev_readv_blocks_ext` and its three siblings shift the offset by the data offset.
unfoldable pub raid_bdev_readv_blocks_ext : BaseInfo → ℕ → List Iovec → ℕ → ℕ → Child
raid_bdev_readv_blocks_ext b idx iovs offset_blocks num_blocks = record {
  kind = read;
  idx = idx;
  lba = add64 b.data_offset offset_blocks;
  blocks = num_blocks;
  iovs = iovs;
}

unfoldable pub raid_bdev_writev_blocks_ext : BaseInfo → ℕ → List Iovec → ℕ → ℕ → Child
raid_bdev_writev_blocks_ext b idx iovs offset_blocks num_blocks = record {
  kind = write;
  idx = idx;
  lba = add64 b.data_offset offset_blocks;
  blocks = num_blocks;
  iovs = iovs;
}

unfoldable pub raid_bdev_unmap_blocks : BaseInfo → ℕ → ℕ → ℕ → Child
raid_bdev_unmap_blocks b idx offset_blocks num_blocks = record {
  kind = unmap;
  idx = idx;
  lba = add64 b.data_offset offset_blocks;
  blocks = num_blocks;
  iovs = [];
}

unfoldable pub raid_bdev_flush_blocks : BaseInfo → ℕ → ℕ → ℕ → Child
raid_bdev_flush_blocks b idx offset_blocks num_blocks = record {
  kind = flush;
  idx = idx;
  lba = add64 b.data_offset offset_blocks;
  blocks = num_blocks;
  iovs = [];
}

-- A request as `raid_bdev_submit_request` hands it to a module.
abbrev pub fresh_io : RaidBdevIo
fresh_io = record {
  base_bdev_io_remaining = 0;
  base_bdev_io_submitted = 0;
  base_bdev_io_status = success;
  sent = [];
  waitq = none;
  completions = [];
}

unfoldable pub raid_bdev_io_complete : RaidBdevIo → IoStatus → RaidBdevIo
raid_bdev_io_complete io status = record io { completions = status ∷ io.completions }

-- `status != SPDK_BDEV_IO_STATUS_SUCCESS ? status : old`
abbrev pub merge_status : IoStatus → IoStatus → IoStatus
merge_status old success = old
merge_status old failed = failed
merge_status old nomem = nomem

unfoldable pub raid_bdev_io_complete_part : RaidBdevIo → ℕ → IoStatus → Bool × RaidBdevIo
unfolding raid_bdev_io_complete
raid_bdev_io_complete_part io completed status =
    let left = sub64 io.base_bdev_io_remaining completed in
    let io' = record io {
      base_bdev_io_remaining = left;
      base_bdev_io_status = merge_status io.base_bdev_io_status status;
    } in
    if left == 0 then (true, raid_bdev_io_complete io' io'.base_bdev_io_status) else (false, io')

-- `raid_bdev_queue_io_wait`: the retry waits for base bdev `idx`.
unfoldable pub raid_bdev_queue_io_wait : RaidBdevIo → ℕ → RaidBdevIo
raid_bdev_queue_io_wait io idx = record io { waitq = some idx }

-- The layer below accepts a child request.
abbrev pub accept : RaidBdevIo → Child → RaidBdevIo
accept io c = record io { sent = c ∷ io.sent }

-- The end of `raid0_submit_rw_request` and of `concat_submit_rw_request`: what the answer to the one
-- child request leads to.
abbrev pub rw_answered : RaidBdevIo → Child → Rc → RaidBdevIo
rw_answered io c ok = accept io c
rw_answered io c (fail enomem) = raid_bdev_queue_io_wait io c.idx
rw_answered io c (fail e) = raid_bdev_io_complete io failed

-- One child request has ended: what the completion callbacks of all levels do.
unfoldable pub complete_one : RaidBdevIo → Bool → RaidBdevIo
unfolding raid_bdev_io_complete_part
complete_one io done = (raid_bdev_io_complete_part io 1 (status_of done)).1
