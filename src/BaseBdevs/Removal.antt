-- ===== src/BaseBdevs/Removal.antt =====
-- raid/bdev_raid.c: removing base bdevs and deleting the RAID bdev.
use flex_bso.Common.{
  ℕ, zero, suc, Bool, true, false, ◌||◌, not, ◌==◌, if◌then◌else◌, Option, none, some, List, [],
  ◌∷◌, set,
}
use flex_bso.Bdev.{Rc, ok, fail, enodev, ealready}
use flex_bso.RaidBdev.{offline, BaseInfo, RaidBdev, base_info}
use flex_bso.BaseBdevs.{is_online, raid_bdev_free_base_bdev_resource}

-- What an operation leaves behind: the RAID bdev, the code returned, the codes that the caller's callback
-- was called with, and whether the RAID bdev was freed, is being unregistered or is being quiesced.
pub record Done : Type 0 where
  pub raid : RaidBdev
  pub ret : Rc
  pub calls : List Rc
  pub freed : Bool
  pub unregistering : Bool
  pub quiescing : Bool

abbrev pub done : RaidBdev → Rc → Done
done r rc = record {
  raid = r;
  ret = rc;
  calls = [];
  freed = false;
  unregistering = false;
  quiescing = false;
}

-- `spdk_bdev_unregister` calls the callback when it has ended.
unfoldable pub raid_bdev_deconfigure : RaidBdev → Done
raid_bdev_deconfigure r =
    if is_online r.state
    then record (done (record r { state = offline }) ok) { unregistering = true }
    else record (done r ok) { calls = ok ∷ [] }

abbrev same_desc : Option ℕ → ℕ → Bool
same_desc none d = false
same_desc (some e) d = e == d

-- The slot of the base bdev behind descriptor `d`.
unfoldable pub raid_bdev_find_base_info_by_bdev : ℕ → ℕ → List BaseInfo → Option ℕ
raid_bdev_find_base_info_by_bdev d i [] = none
raid_bdev_find_base_info_by_bdev d i (b ∷ bs) =
    let rest = raid_bdev_find_base_info_by_bdev d (suc i) bs in
    if same_desc b.desc d then some i else rest

abbrev pub mark : Bool → ℕ → RaidBdev → RaidBdev
mark scheduled slot r = record r {
  base_bdev_info =
      set r.base_bdev_info slot (record (base_info r slot) { remove_scheduled = scheduled });
}

-- The base bdev of `slot` is not scheduled yet; `quiesce` is the answer of `spdk_bdev_quiesce`.
abbrev pub remove_slot : Rc → ℕ → RaidBdev → Done
remove_slot quiesce slot r =
    let marked = mark true slot r in
    let closed = raid_bdev_free_base_bdev_resource slot marked in
    if not (is_online r.state)
    then record (done closed ok) { freed = closed.num_base_bdevs_discovered == 0 }
    else if r.num_base_bdevs_discovered == r.min_base_bdevs_operational
    then raid_bdev_deconfigure marked
    else elim quiesce [
      | ok ↦ record (done marked ok) { quiescing = true }
      | fail e ↦ done (mark false slot marked) ok
    ]

abbrev pub remove_found : Rc → Option ℕ → RaidBdev → Done
remove_found quiesce none r = done r (fail enodev)
remove_found quiesce (some slot) r =
    if (base_info r slot).remove_scheduled then done r ok else remove_slot quiesce slot r

unfoldable pub raid_bdev_remove_base_bdev : Rc → ℕ → RaidBdev → Done
unfolding raid_bdev_deconfigure raid_bdev_find_base_info_by_bdev
raid_bdev_remove_base_bdev quiesce d r =
    remove_found quiesce (raid_bdev_find_base_info_by_bdev d 0 r.base_bdev_info) r

-- The quiescing has ended; when it went well, the channels are visited next.
unfoldable pub raid_bdev_remove_base_bdev_on_quiesced : Rc → ℕ → RaidBdev → Done
raid_bdev_remove_base_bdev_on_quiesced ok slot r = done r ok
raid_bdev_remove_base_bdev_on_quiesced (fail e) slot r = record (done (mark false slot r) ok) {
  calls = fail e ∷ [];
}

-- The RAID bdev is running again.
unfoldable pub raid_bdev_remove_base_bdev_on_unquiesced : Rc → ℕ → RaidBdev → Done
raid_bdev_remove_base_bdev_on_unquiesced ok slot r =
    record (done (raid_bdev_free_base_bdev_resource slot (mark false slot r)) ok) {
      calls = ok ∷ [];
    }
raid_bdev_remove_base_bdev_on_unquiesced (fail e) slot r = record (done (mark false slot r) ok) {
  calls = fail e ∷ [];
}

-- The loop of `raid_bdev_delete`, with `left` turns to go.
unfoldable pub delete_from : ℕ → ℕ → RaidBdev → RaidBdev
delete_from zero i r = r
delete_from (suc left) i r =
    let marked = mark true i r in
    delete_from left (suc i)
      (if is_online r.state then marked else raid_bdev_free_base_bdev_resource i marked)

unfoldable pub raid_bdev_delete : RaidBdev → Done
unfolding delete_from raid_bdev_deconfigure
raid_bdev_delete r =
    let r' = delete_from r.num_base_bdevs 0 (record r { destroy_started = true }) in
    if r.destroy_started
    then record (done r ok) { calls = fail ealready ∷ [] }
    else if r'.num_base_bdevs_discovered == 0
    then record (done r' ok) { calls = ok ∷ []; freed = true }
    else raid_bdev_deconfigure r'

-- The loop of `_raid_bdev_destruct`.
unfoldable pub destruct_from : Bool → ℕ → ℕ → RaidBdev → RaidBdev
destruct_from shutdown zero i r = r
destruct_from shutdown (suc left) i r = destruct_from shutdown left (suc i) (
    if shutdown || (base_info r i).remove_scheduled
    then raid_bdev_free_base_bdev_resource i r
    else r)

-- `shutdown` is `g_shutdown_started`.
unfoldable pub raid_bdev_destruct : Bool → RaidBdev → RaidBdev
unfolding destruct_from
raid_bdev_destruct shutdown r =
    let r' = destruct_from shutdown r.num_base_bdevs 0 r in
    if shutdown then record r' { state = offline } else r'
