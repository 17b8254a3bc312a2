-- ===== src/Bdev.antt =====
-- What the RAID modules see of SPDK's block-device layer, which is not part of the repository: the
-- kinds and states of a request, the return codes of a submission, and a child request.
-- The layer's answers are parameters of the handlers.
use flex_bso.Common.{ℕ, Bool, true, false, List}

-- `enum spdk_bdev_io_type`; `other` stands for the kinds that the module does not support.
pub data IoType : Type 0 where
  read write unmap flush reset other : IoType

-- `enum spdk_bdev_io_status`
pub data IoStatus : Type 0 where
  success failed nomem : IoStatus

-- The negative `errno` values that the sources tell apart.
pub data Errno : Type 0 where
  enomem einval enodev eexist ebusy eperm eio ealready : Errno
  other_errno : ℕ → Errno

-- An `int` result: 0, or a negative `errno`.
pub data Rc : Type 0 where
  ok : Rc
  fail : Errno → Rc

pub record Iovec : Type 0 where
  pub iov_base : ℕ
  pub iov_len : ℕ

-- The part of `struct spdk_bdev_io` that the modules read.
pub record BdevIo : Type 0 where
  pub io_type : IoType
  pub offset_blocks : ℕ
  pub num_blocks : ℕ
  pub iovs : List Iovec

-- A request handed to base bdev number `idx`; `lba` counts from the start of that device.
pub record Child : Type 0 where
  pub kind : IoType
  pub idx : ℕ
  pub lba : ℕ
  pub blocks : ℕ
  pub iovs : List Iovec

-- `success ? SPDK_BDEV_IO_STATUS_SUCCESS : SPDK_BDEV_IO_STATUS_FAILED`
abbrev pub status_of : Bool → IoStatus
status_of true = success
status_of false = failed
