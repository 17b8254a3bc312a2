-- ===== src/BaseBdevs/Reached.antt =====
-- Every RAID bdev that the operations of raid/bdev_raid.c lead to counts its open descriptors rightly.
use flex_bso.Common.{
  ℕ, zero, suc, ◌<◌, ◌≡◌, ◌≢◌, refl, Bool, true, false, ◌||◌, not, ◌==◌, if◌then◌else◌, Option,
  none, some, List, [], ◌∷◌,
}
use flex_bso.Bdev.{Rc, ok, fail, ealready}
use flex_bso.RaidBdev.{offline, RaidBdev, base_info}
use flex_bso.BaseBdevs.{
  BaseBdev, Opened, is_online, raid_bdev_free_base_bdev_resource, raid_bdev_configure_base_bdev,
  raid_bdev_add_base_device,
}
use flex_bso.BaseBdevs.Removal.{
  Done, done, mark, remove_slot, remove_found, raid_bdev_find_base_info_by_bdev,
  raid_bdev_deconfigure, raid_bdev_remove_base_bdev, raid_bdev_remove_base_bdev_on_quiesced,
  raid_bdev_remove_base_bdev_on_unquiesced, delete_from, raid_bdev_delete, destruct_from,
  raid_bdev_destruct,
}
use flex_bso.BaseBdevs.Counted.{IsCounted, set-IsCounted, free-IsCounted}
use flex_bso.BaseBdevs.Configured.{configure_base-IsCounted, add-IsCounted}

-- A new RAID bdev, and what the operations make of it, in any order and with any answers.
pub data Reached (first : RaidBdev) : RaidBdev → Type 0 where
  begun : Reached first first
  added :
      {r : RaidBdev}
      → Reached first r
      → (bdevs : ℕ → BaseBdev) (log2 : ℕ → ℕ) (allocated : Bool) (aligns : List ℕ) (registered : Rc)
        (answer : Opened) (claim : Rc) (strdup : Bool) (bdev_name slot : ℕ)
      → Reached first
          (raid_bdev_add_base_device bdevs log2 allocated aligns registered answer claim strdup
            bdev_name slot r).1
  examined :
      {r : RaidBdev}
      → Reached first r
      → (bdevs : ℕ → BaseBdev) (log2 : ℕ → ℕ) (allocated : Bool) (aligns : List ℕ) (registered : Rc)
        (answer : Opened) (claim : Rc) (slot : ℕ)
      → slot < r.num_base_bdevs
      → (base_info r slot).desc ≡ none
      → (base_info r slot).name ≢ none
      → Reached first
          (raid_bdev_configure_base_bdev bdevs log2 allocated aligns registered answer claim slot
            r).1
  removed :
      {r : RaidBdev}
      → Reached first r
      → (quiesce : Rc) (d : ℕ) → Reached first (raid_bdev_remove_base_bdev quiesce d r).raid
  quiesced :
      {r : RaidBdev}
      → Reached first r
      → (status : Rc) (slot : ℕ)
      → Reached first (raid_bdev_remove_base_bdev_on_quiesced status slot r).raid
  unquiesced :
      {r : RaidBdev}
      → Reached first r
      → (status : Rc) (slot : ℕ)
      → Reached first (raid_bdev_remove_base_bdev_on_unquiesced status slot r).raid
  deleted : {r : RaidBdev} → Reached first r → Reached first (raid_bdev_delete r).raid
  destructed :
      {r : RaidBdev}
      → Reached first r
      → (shutdown : Bool) → Reached first (raid_bdev_destruct shutdown r)

mark-IsCounted : (t : Bool) (slot : ℕ) (r : RaidBdev) → IsCounted r → IsCounted (mark t slot r)
mark-IsCounted t slot r c =
    set-IsCounted r slot (record (base_info r slot) { remove_scheduled = t }) refl (c.named slot) c

with_state : (r q : RaidBdev) → q ≡ r → IsCounted r → IsCounted (record q { state = offline })
with_state r q e c =
    rw e (record { slots = c.slots; few = c.few; count = c.count; named = c.named })

choose-IsCounted :
    (t : Bool) (p q : RaidBdev) → IsCounted p → IsCounted q → IsCounted (if t then p else q)
choose-IsCounted true p q c d = c
choose-IsCounted false p q c d = d

choose-Done :
    (t : Bool) (p q : Done)
    → IsCounted p.raid
    → IsCounted q.raid
    → IsCounted (if t then p else q).raid
choose-Done true p q c d = c
choose-Done false p q c d = d

deconfigure-IsCounted : (r : RaidBdev) → IsCounted r → IsCounted (raid_bdev_deconfigure r).raid
unfolding raid_bdev_deconfigure
deconfigure-IsCounted r c =
    choose-Done (is_online r.state)
      (record (done (record r { state = offline }) ok) { unregistering = true })
      (record (done r ok) { calls = ok ∷ [] }) (with_state r r refl c) c

remove_slot-IsCounted :
    (quiesce : Rc) (slot : ℕ) (r : RaidBdev)
    → IsCounted r
    → IsCounted (remove_slot quiesce slot r).raid
remove_slot-IsCounted quiesce slot r c =
    let marked : IsCounted (mark true slot r) = mark-IsCounted true slot r c in
    let closed : IsCounted (raid_bdev_free_base_bdev_resource slot (mark true slot r)) =
      free-IsCounted (mark true slot r) slot marked in
    choose-Done (not (is_online r.state))
      (record (done (raid_bdev_free_base_bdev_resource slot (mark true slot r)) ok) {
        freed =
            (raid_bdev_free_base_bdev_resource slot (mark true slot r)).num_base_bdevs_discovered
            == 0;
      })
      (if r.num_base_bdevs_discovered == r.min_base_bdevs_operational
        then raid_bdev_deconfigure (mark true slot r)
        else quiescing quiesce)
      closed
      (choose-Done (r.num_base_bdevs_discovered == r.min_base_bdevs_operational)
        (raid_bdev_deconfigure (mark true slot r)) (quiescing quiesce)
        (deconfigure-IsCounted (mark true slot r) marked) (quiescing-IsCounted quiesce marked))
  where
    quiescing : Rc → Done
    quiescing q = elim q [
      | ok ↦ record (done (mark true slot r) ok) { quiescing = true }
      | fail e ↦ done (mark false slot (mark true slot r)) ok
    ]

    quiescing-IsCounted : (q : Rc) → IsCounted (mark true slot r) → IsCounted (quiescing q).raid
    quiescing-IsCounted ok m = m
    quiescing-IsCounted (fail e) m = mark-IsCounted false slot (mark true slot r) m

remove_found-IsCounted :
    (quiesce : Rc) (o : Option ℕ) (r : RaidBdev)
    → IsCounted r
    → IsCounted (remove_found quiesce o r).raid
remove_found-IsCounted quiesce none r c = c
remove_found-IsCounted quiesce (some slot) r c =
    choose-Done (base_info r slot).remove_scheduled (done r ok) (remove_slot quiesce slot r) c
      (remove_slot-IsCounted quiesce slot r c)

quiesced-IsCounted :
    (status : Rc) (slot : ℕ) (r : RaidBdev)
    → IsCounted r
    → IsCounted (raid_bdev_remove_base_bdev_on_quiesced status slot r).raid
unfolding raid_bdev_remove_base_bdev_on_quiesced
quiesced-IsCounted ok slot r c = c
quiesced-IsCounted (fail e) slot r c = mark-IsCounted false slot r c

unquiesced-IsCounted :
    (status : Rc) (slot : ℕ) (r : RaidBdev)
    → IsCounted r
    → IsCounted (raid_bdev_remove_base_bdev_on_unquiesced status slot r).raid
unfolding raid_bdev_remove_base_bdev_on_unquiesced
unquiesced-IsCounted ok slot r c =
    free-IsCounted (mark false slot r) slot (mark-IsCounted false slot r c)
unquiesced-IsCounted (fail e) slot r c = mark-IsCounted false slot r c

delete_from-IsCounted : (left i : ℕ) (r : RaidBdev) → IsCounted r → IsCounted (delete_from left i r)
unfolding delete_from
delete_from-IsCounted zero i r c = c
delete_from-IsCounted (suc left) i r c =
    let m : IsCounted (mark true i r) = mark-IsCounted true i r c in
    delete_from-IsCounted left (suc i) _ (
      choose-IsCounted (is_online r.state) (mark true i r)
        (raid_bdev_free_base_bdev_resource i (mark true i r)) m
        (free-IsCounted (mark true i r) i m))

delete-IsCounted : (r : RaidBdev) → IsCounted r → IsCounted (raid_bdev_delete r).raid
unfolding raid_bdev_delete
delete-IsCounted r c =
    choose-Done r.destroy_started (record (done r ok) { calls = fail ealready ∷ [] }) _ c
      (choose-Done (loop.num_base_bdevs_discovered == 0)
        (record (done loop ok) { calls = ok ∷ []; freed = true }) (raid_bdev_deconfigure loop)
        looped (deconfigure-IsCounted loop looped))
  where
    loop : RaidBdev
    loop = delete_from r.num_base_bdevs 0 (record r { destroy_started = true })

    looped : IsCounted loop
    looped =
        delete_from-IsCounted r.num_base_bdevs 0 (record r { destroy_started = true })
          (record { slots = c.slots; few = c.few; count = c.count; named = c.named })

destruct_from-IsCounted :
    (shutdown : Bool) (left i : ℕ) (r : RaidBdev)
    → IsCounted r
    → IsCounted (destruct_from shutdown left i r)
unfolding destruct_from
destruct_from-IsCounted shutdown zero i r c = c
destruct_from-IsCounted shutdown (suc left) i r c =
    destruct_from-IsCounted shutdown left (suc i) _ (
      choose-IsCounted (shutdown || (base_info r i).remove_scheduled)
        (raid_bdev_free_base_bdev_resource i r) r (free-IsCounted r i c) c)

destruct-IsCounted :
    (shutdown : Bool) (r : RaidBdev) → IsCounted r → IsCounted (raid_bdev_destruct shutdown r)
unfolding raid_bdev_destruct
destruct-IsCounted shutdown r c =
    let loop : RaidBdev = destruct_from shutdown r.num_base_bdevs 0 r in
    let looped : IsCounted loop = destruct_from-IsCounted shutdown r.num_base_bdevs 0 r c in
    choose-IsCounted shutdown (record loop { state = offline }) loop
      (with_state loop loop refl looped) looped

-- Whatever operations a RAID bdev goes through and whatever the layer below answers, the number of base
-- bdevs discovered is the number of slots with an open descriptor, and a slot with no name has no
-- descriptor, provided that this holds at the start.
pub Reached-IsCounted : {first r : RaidBdev} → IsCounted first → Reached first r → IsCounted r
unfolding raid_bdev_remove_base_bdev
Reached-IsCounted c begun = c
Reached-IsCounted c
      (added {r} l bdevs log2 allocated aligns registered answer claim strdup bdev_name slot) =
    add-IsCounted bdevs log2 allocated aligns registered answer claim strdup bdev_name slot r
      (Reached-IsCounted c l)
Reached-IsCounted c
      (examined {r} l bdevs log2 allocated aligns registered answer claim slot h e n) =
    configure_base-IsCounted bdevs log2 allocated aligns registered answer claim slot r h e n
      (Reached-IsCounted c l)
Reached-IsCounted c (removed {r} l quiesce d) =
    remove_found-IsCounted quiesce (raid_bdev_find_base_info_by_bdev d 0 r.base_bdev_info) r
      (Reached-IsCounted c l)
Reached-IsCounted c (quiesced {r} l status slot) =
    quiesced-IsCounted status slot r (Reached-IsCounted c l)
Reached-IsCounted c (unquiesced {r} l status slot) =
    unquiesced-IsCounted status slot r (Reached-IsCounted c l)
Reached-IsCounted c (deleted {r} l) = delete-IsCounted r (Reached-IsCounted c l)
Reached-IsCounted c (destructed {r} l shutdown) =
    destruct-IsCounted shutdown r (Reached-IsCounted c l)
