-- ===== src/Passthru/Registry.antt =====
-- vbdev_passthru.c: the names that are to be attached, and the bdevs that are.
-- A name is a number: the sources only compare names.
use flex_bso.Common.{
  ℕ, suc, ◌-◌, Bool, true, false, not, ◌&&◌, if◌then◌else◌, ◌==◌, Option, none, some, List, [], ◌∷◌,
  ◌++◌, map,
}
use flex_bso.Bdev.{Rc, ok, fail, Errno, enomem, enodev, eexist}

-- `struct bdev_names`
pub record BdevNames : Type 0 where
  pub vbdev_name : ℕ
  pub bdev_name : ℕ

-- The properties that a bdev takes over from its base bdev.
pub record BaseProperties : Type 0 where
  pub write_cache : Bool
  pub required_alignment : ℕ
  pub optimal_io_boundary : ℕ
  pub blocklen : ℕ
  pub blockcnt : ℕ
  pub md_interleave : Bool
  pub md_len : ℕ
  pub dif_type : ℕ
  pub dif_is_head_of_md : Bool
  pub dif_check_flags : ℕ

-- `struct vbdev_passthru`
pub record PtNode : Type 0 where
  pub pt_bdev_name : ℕ
  pub base_bdev : ℕ
  pub properties : BaseProperties
  pub thread : ℕ

-- `g_bdev_names` and `g_pt_nodes`; how many descriptors are open and how many io devices are registered; the
-- bdevs that the module has claimed; and of the open descriptors, how many a message to another thread is under
-- way to close, and how many are left open since that message could not be sent.
pub record Registry : Type 0 where
  pub names : List BdevNames
  pub nodes : List PtNode
  pub descs : ℕ
  pub io_devices : ℕ
  pub claims : List ℕ
  pub closing : ℕ
  pub lost : ℕ

-- What SPDK and the allocator answer for a bdev or for a name of the list.
pub record Layer : Type 0 where
  pub open_rc : ℕ → Rc
  pub properties_of : ℕ → BaseProperties
  pub claim_rc : List ℕ → ℕ → Rc
  pub register_rc : ℕ → Rc
  pub calloc_node : ℕ → Bool
  pub strdup_node : ℕ → Bool
  pub current_thread : ℕ

-- `if (rc) { … break; }`, and what follows it.
abbrev pub on_rc {ℓ} : {A : Type ℓ} → Rc → (Errno → A) → A → A
on_rc ok stop next = next
on_rc (fail e) stop next = stop e

-- `TAILQ_REMOVE` of the node that was just inserted at the tail.
unfoldable pub remove_last : List PtNode → List PtNode
remove_last [] = []
remove_last (n ∷ []) = []
remove_last (n ∷ m ∷ ns) = n ∷ remove_last (m ∷ ns)

-- `spdk_bdev_module_release_bdev`
unfoldable pub release : ℕ → List ℕ → List ℕ
release b [] = []
release b (c ∷ cs) = if c == b then cs else c ∷ release b cs

abbrev pub new_node : Layer → ℕ → BdevNames → PtNode
new_node l bdev_name n = record {
  pt_bdev_name = n.vbdev_name;
  base_bdev = bdev_name;
  properties = l.properties_of bdev_name;
  thread = l.current_thread;
}

-- One round of the loop of `vbdev_passthru_register`, for a name that matches.
unfoldable pub attach : Layer → ℕ → BdevNames → Registry → Rc × Registry
unfolding remove_last release
attach l bdev_name n r =
    let inserted = record r {
      nodes = r.nodes ++ (new_node l bdev_name n ∷ []);
      descs = suc r.descs;
      io_devices = suc r.io_devices;
    } in
    let claimed = record inserted { claims = bdev_name ∷ r.claims } in
    let undone = λ (s : Registry). record s {
      nodes = remove_last s.nodes;
      descs = s.descs - 1;
      io_devices = s.io_devices - 1;
    } in
    if l.calloc_node n.vbdev_name
    then if l.strdup_node n.vbdev_name
      then on_rc (l.open_rc bdev_name) (λ e. (fail e, r))
          (on_rc (l.claim_rc r.claims bdev_name) (λ e. (fail e, undone inserted))
            (on_rc (l.register_rc n.vbdev_name)
              (λ e.
                (fail e, undone (record claimed { claims = release n.vbdev_name claimed.claims })))
              (ok, claimed)))
      else (fail enomem, r)
    else (fail enomem, r)

-- The loop of `vbdev_passthru_register` over the names from `ns` on. The result is 0 so far.
unfoldable pub register_from : Layer → ℕ → List BdevNames → Registry → Rc × Registry
unfolding attach
register_from l bdev_name [] r = (ok, r)
register_from l bdev_name (n ∷ ns) r = elim (n.bdev_name == bdev_name) [
  | true ↦
      let p = attach l bdev_name n r in
      elim p.0 [ ok ↦ register_from l bdev_name ns p.1 | fail e ↦ (fail e, p.1) ]
  | false ↦ register_from l bdev_name ns r
]

unfoldable pub vbdev_passthru_register : Layer → ℕ → Registry → Rc × Registry
unfolding register_from
vbdev_passthru_register l bdev_name r = register_from l bdev_name r.names r

-- Whether the loop of `vbdev_passthru_insert_name` finds the name.
unfoldable pub has_vbdev : ℕ → List BdevNames → Bool
has_vbdev v [] = false
has_vbdev v (n ∷ ns) = if n.vbdev_name == v then true else has_vbdev v ns

-- `allocated` says whether `calloc` and both `strdup` succeed; what was allocated before is freed.
unfoldable pub vbdev_passthru_insert_name : Bool → ℕ → ℕ → Registry → Rc × Registry
unfolding has_vbdev
vbdev_passthru_insert_name allocated bdev_name vbdev_name r =
    if has_vbdev vbdev_name r.names
    then (fail eexist, r)
    else if allocated
    then (
      ok,
      record r {
        names = r.names ++ (record { vbdev_name = vbdev_name; bdev_name = bdev_name } ∷ []);
      },
    )
    else (fail enomem, r)

-- A base bdev that is not there yet is no error.
abbrev pub deferred : Rc → Rc
deferred (fail enodev) = ok
deferred rc = rc

unfoldable pub bdev_passthru_external_create_disk : Bool → Layer → ℕ → ℕ → Registry → Rc × Registry
unfolding vbdev_passthru_insert_name vbdev_passthru_register
bdev_passthru_external_create_disk allocated l bdev_name vbdev_name r =
    let i = vbdev_passthru_insert_name allocated bdev_name vbdev_name r in
    on_rc i.0 (λ e. (fail e, i.1))
      (let p = vbdev_passthru_register l bdev_name i.1 in (deferred p.0, p.1))

-- The loop of `bdev_passthru_external_delete_disk`, which removes the first name that matches.
unfoldable pub remove_name : ℕ → List BdevNames → List BdevNames
remove_name v [] = []
remove_name v (n ∷ ns) = if n.vbdev_name == v then ns else n ∷ remove_name v ns

-- The bdev's name if it is a bdev of this module. The first result is what the callback is called with at
-- once, the second the bdev that SPDK is asked to unregister, with the callback.
unfoldable pub bdev_passthru_external_delete_disk :
    Option ℕ → Registry → Option Rc × Option ℕ × Registry
unfolding remove_name
bdev_passthru_external_delete_disk none r = (some (fail enodev), none, r)
bdev_passthru_external_delete_disk (some v) r =
    (none, some v, record r { names = remove_name v r.names })

unfoldable pub vbdev_passthru_examine : Layer → ℕ → Registry → Registry
unfolding vbdev_passthru_register
vbdev_passthru_examine l bdev_name r = (vbdev_passthru_register l bdev_name r).1

unfoldable pub vbdev_passthru_finish : Registry → Registry
vbdev_passthru_finish r = record r { names = [] }

-- `TAILQ_REMOVE` of a node that is in the list.
unfoldable pub remove_node : ℕ → List PtNode → List PtNode
remove_node v [] = []
remove_node v (n ∷ ns) = if n.pt_bdev_name == v then ns else n ∷ remove_node v ns

-- The callback of an unregistered bdev. `current` is the thread that it runs on, or 0 if there is none; `sent` says
-- whether `spdk_thread_send_msg` could send its message, which the code does not look at.
unfoldable pub vbdev_passthru_destruct : PtNode → ℕ → Bool → Registry → Registry
unfolding remove_node release
vbdev_passthru_destruct n current sent r =
    let removed = record r {
      nodes = remove_node n.pt_bdev_name r.nodes;
      claims = release n.base_bdev r.claims;
      io_devices = r.io_devices - 1;
    } in
    if not (n.thread == 0) && not (n.thread == current)
    then if sent
      then record removed { closing = suc r.closing }
      else record removed { lost = suc r.lost }
    else record removed { descs = r.descs - 1 }

-- `_vbdev_passthru_destruct`, when its message arrives.
unfoldable pub vbdev_passthru_close : Registry → Registry
vbdev_passthru_close r = record r { descs = r.descs - 1; closing = r.closing - 1 }

-- The bdevs that SPDK is asked to unregister when a base bdev is removed.
unfoldable pub vbdev_passthru_base_bdev_hotremove_cb : ℕ → List PtNode → List ℕ
vbdev_passthru_base_bdev_hotremove_cb bdev_find [] = []
vbdev_passthru_base_bdev_hotremove_cb bdev_find (n ∷ ns) =
    let rest = vbdev_passthru_base_bdev_hotremove_cb bdev_find ns in
    if n.base_bdev == bdev_find then n.pt_bdev_name ∷ rest else rest

-- The names of each object that `vbdev_passthru_config_json` writes: the base bdev's and the bdev's.
unfoldable pub vbdev_passthru_config_json : List PtNode → List (ℕ × ℕ)
vbdev_passthru_config_json ns = map (λ n. (n.base_bdev, n.pt_bdev_name)) ns
