-- ===== src/RaidBdev/Parts.antt =====
-- What `raid_bdev_io_complete_part` (raid/bdev_raid.c) does, below the last part and at it.
use flex_bso.Common.{ℕ, ◌-◌, suc, ◌<◌, ◌≡◌, true, false, ◌∷◌, arith, u64_mod, sub64}
use flex_bso.Bdev.{IoStatus}
use flex_bso.RaidBdev.{RaidBdevIo, merge_status, raid_bdev_io_complete_part}

-- After a part that is not the last one.
abbrev pub less : RaidBdevIo → ℕ → IoStatus → RaidBdevIo
less io completed status = record io {
  base_bdev_io_remaining = io.base_bdev_io_remaining - completed;
  base_bdev_io_status = merge_status io.base_bdev_io_status status;
}

-- After the last part: the merged status is reported.
abbrev pub closed : RaidBdevIo → IoStatus → RaidBdevIo
closed io status = record io {
  base_bdev_io_remaining = 0;
  base_bdev_io_status = merge_status io.base_bdev_io_status status;
  completions = merge_status io.base_bdev_io_status status ∷ io.completions;
}

sub64_exact : (a b : ℕ) → b < suc a → a < u64_mod → sub64 a b ≡ a - b
sub64_exact a b h k = omega arith

pub complete_part-more :
    (io : RaidBdevIo) (completed : ℕ) (status : IoStatus)
    → completed < io.base_bdev_io_remaining
    → io.base_bdev_io_remaining < u64_mod
    → raid_bdev_io_complete_part io completed status ≡ (false, less io completed status)
unfolding raid_bdev_io_complete_part
complete_part-more io completed status h k =
    ground (arith, sub64_exact io.base_bdev_io_remaining completed)

pub complete_part-last :
    (io : RaidBdevIo) (completed : ℕ) (status : IoStatus)
    → completed ≡ io.base_bdev_io_remaining
    → io.base_bdev_io_remaining < u64_mod
    → raid_bdev_io_complete_part io completed status ≡ (true, closed io status)
unfolding raid_bdev_io_complete_part
complete_part-last io completed status h k =
    ground (arith, sub64_exact io.base_bdev_io_remaining completed)
