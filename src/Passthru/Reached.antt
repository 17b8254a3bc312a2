-- ===== src/Passthru/Reached.antt =====
-- vbdev_passthru.c: the registry after any sequence of the module's entry points.
use flex_bso.Common.{
  ℕ, suc, ◌≡◌, ◌∙◌, refl, sym, ap, subst, inl, inr, Bool, true, false, if◌then◌else◌, ◌==◌, Option,
  none, some, List, [], ◌∷◌, ◌++◌, length, arith, Bool-cases, ◌⊎◌, ◌≢◌,
}
use flex_bso.Bdev.{Rc, ok, fail, enomem, eexist, enodev}
use flex_bso.Passthru.Registry.{
  BdevNames, PtNode, Registry, Layer, on_rc, deferred, vbdev_passthru_register, has_vbdev,
  vbdev_passthru_insert_name, bdev_passthru_external_create_disk, remove_name,
  bdev_passthru_external_delete_disk, vbdev_passthru_examine, vbdev_passthru_finish, remove_node,
  vbdev_passthru_destruct, vbdev_passthru_close,
}
use flex_bso.Passthru.Registered.{
  IsDistinct, IsCounted, append-IsDistinct, remove_name-IsDistinct, remove_name-append,
  register-Kept, SameGone,
}

-- The invariant of the registry: no two names are for the same bdev, and the descriptors and io
-- devices are those of the nodes, but for the descriptors of nodes that are gone.
pub record IsRegistry (r : Registry) : Type 0 where
  pub distinct : IsDistinct r.names
  pub counted : IsCounted r

-- Whether a node is in the list.
unfoldable pub has_node : ℕ → List PtNode → Bool
has_node v [] = false
has_node v (n ∷ ns) = if n.pt_bdev_name == v then true else has_node v ns

-- The registries that the entry points lead to, whatever SPDK and the allocator answer, with the number of closes
-- under way, and of those that could not be sent. SPDK destructs only bdevs that are registered, whose nodes are
-- in the list, and it does so on any thread; the message that closes a descriptor on the thread that opened it
-- arrives at any later time.
pub data Reached : Registry → ℕ → ℕ → Type 0 where
  loaded :
      Reached
        (record {
          names = [];
          nodes = [];
          descs = 0;
          io_devices = 0;
          claims = [];
          closing = 0;
          lost = 0;
        })
        0
        0
  created :
      (r : Registry) (m k : ℕ)
      → Reached r m k
      → (allocated : Bool) (l : Layer) (b v : ℕ)
      → Reached (bdev_passthru_external_create_disk allocated l b v r).1 m k
  deleted :
      (r : Registry) (m k : ℕ)
      → Reached r m k
      → (v : Option ℕ) → Reached (bdev_passthru_external_delete_disk v r).2 m k
  examined :
      (r : Registry) (m k : ℕ)
      → Reached r m k
      → (l : Layer) (b : ℕ) → Reached (vbdev_passthru_examine l b r) m k
  destructed_here :
      (r : Registry) (m k : ℕ)
      → Reached r m k
      → (n : PtNode) → has_node n.pt_bdev_name r.nodes ≡ true
      → (current : ℕ) (sent : Bool) → (n.thread ≡ 0) ⊎ (n.thread ≡ current)
      → Reached (vbdev_passthru_destruct n current sent r) m k
  destructed_elsewhere :
      (r : Registry) (m k : ℕ)
      → Reached r m k
      → (n : PtNode) → has_node n.pt_bdev_name r.nodes ≡ true
      → (current : ℕ) → n.thread ≢ 0
      → n.thread ≢ current
      → Reached (vbdev_passthru_destruct n current true r) (suc m) k
  not_closed :
      (r : Registry) (m k : ℕ)
      → Reached r m k
      → (n : PtNode) → has_node n.pt_bdev_name r.nodes ≡ true
      → (current : ℕ) → n.thread ≢ 0
      → n.thread ≢ current
      → Reached (vbdev_passthru_destruct n current false r) m (suc k)
  closed : (r : Registry) (m k : ℕ) → Reached r (suc m) k → Reached (vbdev_passthru_close r) m k
  finished : (r : Registry) (m k : ℕ) → Reached r m k → Reached (vbdev_passthru_finish r) m k

abbrev Registered : Rc × Registry → Type 0
Registered p = IsRegistry p.1

with_names :
    (r : Registry) (ns : List BdevNames)
    → IsDistinct ns
    → IsCounted r
    → IsRegistry (record r { names = ns })
with_names r ns d h = record {
  distinct = d;
  counted = record { opened = h.opened; devices = h.devices };
}

insert-IsRegistry :
    (allocated : Bool) (b v : ℕ) (r : Registry)
    → IsRegistry r
    → IsRegistry (vbdev_passthru_insert_name allocated b v r).1
unfolding vbdev_passthru_insert_name
insert-IsRegistry allocated b v r h = elim (Bool-cases (has_vbdev v r.names)) [
  | inl e ↦ rw e h
  | inr e ↦ rw e (allocated-IsRegistry allocated e)
]
  where
    added : Registry
    added = record r { names = r.names ++ (record { vbdev_name = v; bdev_name = b } ∷ []) }

    allocated-IsRegistry :
        (t : Bool)
        → has_vbdev v r.names ≡ false
        → Registered (if t then (ok, added) else (fail enomem, r))
    allocated-IsRegistry true e =
        with_names r _ (append-IsDistinct r.names _ e h.distinct) h.counted
    allocated-IsRegistry false e = h

register-IsRegistry :
    (l : Layer) (b : ℕ) (r : Registry) → IsRegistry r → IsRegistry (vbdev_passthru_register l b r).1
unfolding vbdev_passthru_register
register-IsRegistry l b r h =
    let k = register-Kept l b r.names r h.counted in
    record { distinct = subst IsDistinct (sym k.0) h.distinct; counted = k.1 }

create-IsRegistry :
    (i : Rc × Registry) (x : Rc × Registry)
    → IsRegistry i.1
    → IsRegistry x.1
    → Registered (on_rc i.0 (λ e. (fail e, i.1)) (deferred x.0, x.1))
create-IsRegistry (ok, s) x h k = k
create-IsRegistry (fail e, s) x h k = h

length-remove_node :
    (v : ℕ) (ns : List PtNode) → has_node v ns ≡ true → suc (length (remove_node v ns)) ≡ length ns
unfolding remove_node has_node
length-remove_node v [] h = ground arith
length-remove_node v (n ∷ ns) h = ground (arith, length-remove_node v ns)

-- The invariant, and how many descriptors of nodes that are gone are open.
abbrev pub IsReached : ℕ → ℕ → Registry → Type 0
IsReached m k r = IsRegistry r × (r.closing ≡ m) × (r.lost ≡ k)

destruct-IsReached :
    (n : PtNode) (current : ℕ) (sent : Bool) (m' k' : ℕ) (r : Registry)
    → has_node n.pt_bdev_name r.nodes ≡ true
    → (vbdev_passthru_destruct n current sent r).closing ≡ m'
    → (vbdev_passthru_destruct n current sent r).lost ≡ k'
    → IsRegistry r
    → IsReached m' k' (vbdev_passthru_destruct n current sent r)
unfolding vbdev_passthru_destruct
destruct-IsReached n current sent m' k' r there em ek h = (
  record {
    distinct = ground (arith, h.distinct);
    counted = record {
      opened = ground (arith, h.counted.opened, length-remove_node n.pt_bdev_name r.nodes there);
      devices = ground (arith, h.counted.devices, length-remove_node n.pt_bdev_name r.nodes there);
    };
  },
  em,
  ek,
)

abbrev GoneAs : Registry → Rc × Registry → Type 0
GoneAs r p = SameGone r p.1

insert-SameGone :
    (allocated : Bool) (b v : ℕ) (r : Registry)
    → SameGone r (vbdev_passthru_insert_name allocated b v r).1
unfolding vbdev_passthru_insert_name
insert-SameGone allocated b v r = ground arith

both-GoneAs :
    (r : Registry) (i x : Rc × Registry)
    → SameGone r i.1
    → SameGone i.1 x.1
    → GoneAs r (on_rc i.0 (λ e. (fail e, i.1)) (deferred x.0, x.1))
both-GoneAs r (ok, s) x g h = (h.0 ∙ g.0, h.1 ∙ g.1)
both-GoneAs r (fail e, s) x g h = g

create-SameGone :
    (allocated : Bool) (l : Layer) (b v : ℕ) (r : Registry)
    → IsRegistry r
    → GoneAs r (bdev_passthru_external_create_disk allocated l b v r)
unfolding bdev_passthru_external_create_disk vbdev_passthru_register
create-SameGone allocated l b v r h =
    let i = vbdev_passthru_insert_name allocated b v r in
    both-GoneAs r i (vbdev_passthru_register l b i.1) (insert-SameGone allocated b v r)
      (register-Kept l b i.1.names i.1 (insert-IsRegistry allocated b v r h).counted).2

-- At every time the names of the list are for distinct bdevs, and the module has exactly one io device for each
-- of its bdevs. The open descriptors are one for each of its bdevs, one for each bdev that was destructed on
-- another thread than it was attached on and whose close is still under way as a message, and one for each
-- such bdev whose message could not be sent.
pub Reached-IsRegistry : (r : Registry) (m k : ℕ) → Reached r m k → IsReached m k r
unfolding bdev_passthru_external_delete_disk vbdev_passthru_examine vbdev_passthru_finish
    vbdev_passthru_destruct vbdev_passthru_close bdev_passthru_external_create_disk
    vbdev_passthru_register
Reached-IsRegistry _ _ _ loaded =
    (record { distinct = tt; counted = record { opened = refl; devices = refl } }, refl, refl)
Reached-IsRegistry _ _ _ (created r m k w allocated l b v) =
    let h = Reached-IsRegistry r m k w in
    let g = insert-IsRegistry allocated b v r h.0 in
    let i = vbdev_passthru_insert_name allocated b v r in
    let same = create-SameGone allocated l b v r h.0 in
    (
      create-IsRegistry i (vbdev_passthru_register l b i.1) g (register-IsRegistry l b i.1 g),
      same.0 ∙ h.1,
      same.1 ∙ h.2,
    )
Reached-IsRegistry _ _ _ (deleted r m k w none) = Reached-IsRegistry r m k w
Reached-IsRegistry _ _ _ (deleted r m k w (some v)) =
    let h = Reached-IsRegistry r m k w in
    (with_names r _ (remove_name-IsDistinct v r.names h.0.distinct) h.0.counted, h.1, h.2)
Reached-IsRegistry _ _ _ (examined r m k w l b) =
    let h = Reached-IsRegistry r m k w in
    let same = (register-Kept l b r.names r h.0.counted).2 in
    (register-IsRegistry l b r h.0, same.0 ∙ h.1, same.1 ∙ h.2)
Reached-IsRegistry _ _ _ (destructed_here r m k w n there current sent here) =
    let h = Reached-IsRegistry r m k w in
    destruct-IsReached n current sent m k r there (ground (arith, here, h.1))
      (ground (arith, here, h.2)) h.0
Reached-IsRegistry _ _ _ (destructed_elsewhere r m k w n there current t e) =
    let h = Reached-IsRegistry r m k w in
    destruct-IsReached n current true (suc m) k r there (ground (arith, t, e, h.1))
      (ground (arith, t, e, h.2)) h.0
Reached-IsRegistry _ _ _ (not_closed r m k w n there current t e) =
    let h = Reached-IsRegistry r m k w in
    destruct-IsReached n current false m (suc k) r there (ground (arith, t, e, h.1))
      (ground (arith, t, e, h.2)) h.0
Reached-IsRegistry _ _ _ (closed r m k w) =
    let h = Reached-IsRegistry r (suc m) k w in
    (
      record {
        distinct = h.0.distinct;
        counted = record {
          opened = omega (arith, h.0.counted.opened, h.1);
          devices = h.0.counted.devices;
        };
      },
      omega (arith, h.1),
      h.2,
    )
Reached-IsRegistry _ _ _ (finished r m k w) =
    let h = Reached-IsRegistry r m k w in (with_names r [] tt h.0.counted, h.1, h.2)

has_vbdev-added :
    (v b : ℕ) (ns : List BdevNames)
    → has_vbdev v (ns ++ (record { vbdev_name = v; bdev_name = b } ∷ [])) ≡ true
unfolding has_vbdev
has_vbdev-added v b [] = ground arith
has_vbdev-added v b (n ∷ ns) = ground (arith, has_vbdev-added v b ns)

insert_new :
    (b v : ℕ) (r : Registry)
    → has_vbdev v r.names ≡ false
    → vbdev_passthru_insert_name true b v r
      ≡ (ok, record r { names = r.names ++ (record { vbdev_name = v; bdev_name = b } ∷ []) })
unfolding vbdev_passthru_insert_name
insert_new b v r h = rw h refl

-- The registry with a name added.
abbrev pub named : ℕ → ℕ → Registry → Registry
named b v r = record r { names = r.names ++ (record { vbdev_name = v; bdev_name = b } ∷ []) }

-- The result `p` is `q`, but for a missing base bdev.
abbrev pub IsDeferred : Rc × Registry → Rc × Registry → Type 0
IsDeferred p q =
    (p.1 ≡ q.1) × (((q.0 ≡ fail enodev) × (p.0 ≡ ok)) ⊎ ((q.0 ≢ fail enodev) × (p.0 ≡ q.0)))

deferred-IsDeferred : (q : Rc × Registry) → IsDeferred (deferred q.0, q.1) q
deferred-IsDeferred (ok, s) = (refl, inr ((λ e. absurd (cc)), refl))
deferred-IsDeferred (fail enodev, s) = (refl, inl (refl, refl))
deferred-IsDeferred (fail e, s) = (refl, inr (ground arith, refl))

created-IsDeferred :
    (l : Layer) (b v : ℕ) (r : Registry)
    → has_vbdev v r.names ≡ false
    → IsDeferred
        (bdev_passthru_external_create_disk true l b v r)
        (vbdev_passthru_register l b (named b v r))
unfolding bdev_passthru_external_create_disk
created-IsDeferred l b v r new =
    rw (insert_new b v r new) (deferred-IsDeferred (vbdev_passthru_register l b (named b v r)))

register-names :
    (l : Layer) (b : ℕ) (r : Registry)
    → IsRegistry r
    → (vbdev_passthru_register l b r).1.names ≡ r.names
unfolding vbdev_passthru_register
register-names l b r h = (register-Kept l b r.names r h.counted).0

created_names :
    (l : Layer) (b v : ℕ) (r : Registry)
    → IsRegistry r
    → has_vbdev v r.names ≡ false
    → (bdev_passthru_external_create_disk true l b v r).1.names
      ≡ r.names ++ (record { vbdev_name = v; bdev_name = b } ∷ [])
unfolding bdev_passthru_external_create_disk
created_names l b v r h new = rw (insert_new b v r new) (
    register-names l b
      (record r { names = r.names ++ (record { vbdev_name = v; bdev_name = b } ∷ []) })
      (with_names r _
        (append-IsDistinct r.names (record { vbdev_name = v; bdev_name = b }) new h.distinct)
        h.counted))

blocked :
    (allocated : Bool) (l : Layer) (b v : ℕ) (r : Registry)
    → has_vbdev v r.names ≡ true
    → bdev_passthru_external_create_disk allocated l b v r ≡ (fail eexist, r)
unfolding bdev_passthru_external_create_disk vbdev_passthru_insert_name
blocked allocated l b v r h = rw h refl

-- A name that is new and can be stored is created. The result is that of attaching it, in the registry with the
-- name added, but 0 in place of -ENODEV, for a base bdev that is not there yet. From then on creating it
-- again fails with -EEXIST and changes nothing, until it is deleted, which gives back the names from before.
pub create_then_delete :
    (l l' : Layer) (b b' v : ℕ) (allocated : Bool) (r : Registry)
    → IsRegistry r
    → has_vbdev v r.names ≡ false
    → IsDeferred
        (bdev_passthru_external_create_disk true l b v r)
        (vbdev_passthru_register l b (named b v r))
      × (bdev_passthru_external_create_disk allocated l' b' v
            (bdev_passthru_external_create_disk true l b v r).1
          ≡ (fail eexist, (bdev_passthru_external_create_disk true l b v r).1))
      × ((bdev_passthru_external_delete_disk
            (some v)
            (bdev_passthru_external_create_disk true l b v r).1).2.names
          ≡ r.names)
unfolding bdev_passthru_external_delete_disk
create_then_delete l l' b b' v allocated r h new = (
  created-IsDeferred l b v r new,
  blocked allocated l' b' v _ (ap (has_vbdev v) names ∙ has_vbdev-added v b r.names),
  ap (remove_name v) names
      ∙ remove_name-append r.names (record { vbdev_name = v; bdev_name = b }) new,
)
  where
    names :
        (bdev_passthru_external_create_disk true l b v r).1.names
        ≡ r.names ++ (record { vbdev_name = v; bdev_name = b } ∷ [])
    names = created_names l b v r h new
