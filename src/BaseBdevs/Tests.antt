-- ===== src/BaseBdevs/Tests.antt =====
-- A RAID bdev of raid/bdev_raid.c at concrete inputs.
use flex_bso.Common.{ℕ, ◌≡◌, refl, Bool, true, false, arith, []}
use flex_bso.Bdev.{ok, fail, ebusy}
use flex_bso.RaidBdev.{RaidBdev, raid1, online, min_data_size, set_data_size}
use flex_bso.Raid1.{raid1_start}
use flex_bso.BaseBdevs.{
  BaseBdev, opened, created, new_raid_bdev, raid_bdev_create, raid_bdev_module_find,
  raid_bdev_add_base_device, raid_bdev_configure_base_bdev, raid_bdev_configure, common_blocklen,
  raid_bdev_configure_md, raid_bdev_free_base_bdev_resource,
}
use flex_bso.BaseBdevs.Removal.{
  raid_bdev_remove_base_bdev, raid_bdev_find_base_info_by_bdev,
  raid_bdev_remove_base_bdev_on_unquiesced, Done,
}
use flex_bso.BaseBdevs.Counted.{IsCounted}
use flex_bso.BaseBdevs.Creation.{IsDecided, raid_bdev_create-IsDecided}
use flex_bso.BaseBdevs.Levels.{new_raid_bdev-IsCounted}
use flex_bso.BaseBdevs.Reached.{Reached, begun, added, removed, unquiesced, Reached-IsCounted}

abbrev is_pow2 : ℕ → Bool
is_pow2 n = true

-- A mirror of two.
abbrev mirror : RaidBdev
mirror = new_raid_bdev 0 2 raid1 false 1

mirror_created : raid_bdev_create is_pow2 0 2 raid1 false true false ≡ created mirror
unfolding raid_bdev_create raid_bdev_module_find
mirror_created = refl

raid_bdev_create-IsDecided_example :
    IsDecided is_pow2 0 2 raid1 false true false
      (raid_bdev_create is_pow2 0 2 raid1 false true false)
raid_bdev_create-IsDecided_example =
    raid_bdev_create-IsDecided is_pow2 0 2 raid1 false true false (omega arith)

abbrev bdevs : ℕ → BaseBdev
bdevs d = record {
  blocklen = 512;
  bdev_blocks = 200;
  io_boundary = 0;
  has_dif = false;
  md_len = 0;
  md_interleave = false;
}

abbrev log2 : ℕ → ℕ
log2 n = 9

abbrev add_to : RaidBdev → ℕ → RaidBdev
add_to r slot =
    (raid_bdev_add_base_device bdevs log2 true [] ok (opened slot) ok true slot slot r).1

-- Both base bdevs are added, and the second one is removed.
abbrev running : RaidBdev
running = add_to (add_to mirror 0) 1

abbrev removing : RaidBdev
removing = (raid_bdev_remove_base_bdev ok 1 running).raid

abbrev degraded : RaidBdev
degraded = (raid_bdev_remove_base_bdev_on_unquiesced ok 1 removing).raid

is_running : running.state ≡ online
unfolding raid_bdev_add_base_device raid_bdev_configure_base_bdev raid_bdev_configure
    common_blocklen raid_bdev_configure_md raid1_start
is_running = refl

one_left : degraded.num_base_bdevs_discovered ≡ 1
unfolding raid_bdev_add_base_device raid_bdev_configure_base_bdev raid_bdev_configure
    common_blocklen raid_bdev_configure_md raid1_start min_data_size set_data_size
    raid_bdev_remove_base_bdev raid_bdev_find_base_info_by_bdev
    raid_bdev_remove_base_bdev_on_unquiesced raid_bdev_free_base_bdev_resource
one_left = refl

degraded-Reached : Reached mirror degraded
degraded-Reached =
    unquiesced
      (removed
        (added (added begun bdevs log2 true [] ok (opened 0) ok true 0 0) bdevs log2 true [] ok
          (opened 1) ok true 1 1)
        ok 1)
      ok 1

Reached-IsCounted_example : IsCounted degraded
Reached-IsCounted_example =
    Reached-IsCounted (new_raid_bdev-IsCounted 0 2 raid1 false 1 (omega arith)) degraded-Reached

-- When `spdk_bdev_quiesce` fails, the removal returns 0 and never calls the callback.
abbrev refused_removal : Done
refused_removal = raid_bdev_remove_base_bdev (fail ebusy) 1 running

never_called :
    (refused_removal.ret ≡ ok) × (refused_removal.calls ≡ []) × (refused_removal.quiescing ≡ false)
unfolding raid_bdev_add_base_device raid_bdev_configure_base_bdev raid_bdev_configure
    common_blocklen raid_bdev_configure_md raid1_start min_data_size set_data_size
    raid_bdev_remove_base_bdev raid_bdev_find_base_info_by_bdev
never_called = (refl, refl, refl)
