-- ===== src/Passthru/Registered.antt =====
-- vbdev_passthru.c: what attaching to a base bdev leaves behind, and the invariant of the two lists.
use flex_bso.Common.{
  ℕ, suc, ◌≡◌, ◌≢◌, ◌∙◌, refl, ap, ◌⊎◌, Bool, true, false, if◌then◌else◌, ◌==◌, List, [], ◌∷◌, ◌++◌,
  length, arith, length-append, ◌&&◌, ◌+◌,
}
use flex_bso.Bdev.{Rc, ok, fail, Errno, enomem}
use flex_bso.Passthru.Registry.{
  BdevNames, PtNode, Registry, Layer, new_node, remove_last, attach, register_from, has_vbdev,
  remove_name,
}

remove_last-append : (ns : List PtNode) (n : PtNode) → remove_last (ns ++ (n ∷ [])) ≡ ns
unfolding remove_last
remove_last-append [] n = refl
remove_last-append (m ∷ []) n = refl
remove_last-append (m ∷ k ∷ ns) n = ap (m ∷◌) (remove_last-append (k ∷ ns) n)

abbrev pub IsUnclaimed : ℕ → List ℕ → Type 0
IsUnclaimed v [] = Unit
IsUnclaimed v (c ∷ cs) = (c ≢ v) × IsUnclaimed v cs

-- One node, descriptor, io device and claim more.
abbrev pub attached : Layer → ℕ → BdevNames → Registry → Registry
attached l b n r = record r {
  nodes = r.nodes ++ (new_node l b n ∷ []);
  descs = suc r.descs;
  io_devices = suc r.io_devices;
  claims = b ∷ r.claims;
}

-- What an attempt to attach gives when there is memory, by the first step that fails: the opening of the base
-- bdev, its claim, and the registration.
abbrev pub IsTried : Layer → ℕ → BdevNames → Registry → Rc × Registry → Type 0
IsTried l b n r p =
    ((e : Errno) × (l.open_rc b ≡ fail e) × (p ≡ (fail e, r)))
    ⊎ ((e : Errno) × (l.open_rc b ≡ ok) × (l.claim_rc r.claims b ≡ fail e) × (p ≡ (fail e, r)))
    ⊎ ((e : Errno) × (l.open_rc b ≡ ok)
        × (l.claim_rc r.claims b ≡ ok)
        × (l.register_rc n.vbdev_name ≡ fail e)
        × (p ≡ (fail e, record r { claims = b ∷ r.claims })))
    ⊎ ((l.open_rc b ≡ ok)
        × (l.claim_rc r.claims b ≡ ok)
        × (l.register_rc n.vbdev_name ≡ ok)
        × (p ≡ (ok, attached l b n r)))

abbrev pub IsAttached : Layer → ℕ → BdevNames → Registry → Rc × Registry → Type 0
IsAttached l b n r p =
    (((l.calloc_node n.vbdev_name && l.strdup_node n.vbdev_name) ≡ false) × (p ≡ (fail enomem, r)))
    ⊎ (((l.calloc_node n.vbdev_name && l.strdup_node n.vbdev_name) ≡ true) × IsTried l b n r p)

-- No two entries are for the same bdev.
abbrev pub IsDistinct : List BdevNames → Type 0
IsDistinct [] = Unit
IsDistinct (n ∷ ns) = (has_vbdev n.vbdev_name ns ≡ false) × IsDistinct ns

has_vbdev-append :
    (v : ℕ) (ns : List BdevNames) (n : BdevNames)
    → has_vbdev v (ns ++ (n ∷ [])) ≡ (if has_vbdev v ns then true else n.vbdev_name == v)
unfolding has_vbdev
has_vbdev-append v [] n = ground arith
has_vbdev-append v (m ∷ ns) n = ground (arith, has_vbdev-append v ns n)

pub append-IsDistinct :
    (ns : List BdevNames) (n : BdevNames)
    → has_vbdev n.vbdev_name ns ≡ false
    → IsDistinct ns
    → IsDistinct (ns ++ (n ∷ []))
unfolding has_vbdev
append-IsDistinct [] n h d = (refl, tt)
append-IsDistinct (m ∷ ns) n h d =
    (ground (arith, has_vbdev-append m.vbdev_name ns n), append-IsDistinct ns n (ground arith) d.1)

remove_name-absent :
    (v w : ℕ) (ns : List BdevNames)
    → has_vbdev w ns ≡ false
    → has_vbdev w (remove_name v ns) ≡ false
unfolding has_vbdev remove_name
remove_name-absent v w [] h = refl
remove_name-absent v w (n ∷ ns) h = ground (arith, remove_name-absent v w ns)

chosen-IsDistinct :
    (t : Bool) (ns ms : List BdevNames)
    → IsDistinct ns
    → IsDistinct ms
    → IsDistinct (if t then ns else ms)
chosen-IsDistinct true ns ms d e = d
chosen-IsDistinct false ns ms d e = e

pub remove_name-IsDistinct :
    (v : ℕ) (ns : List BdevNames) → IsDistinct ns → IsDistinct (remove_name v ns)
unfolding remove_name
remove_name-IsDistinct v [] d = tt
remove_name-IsDistinct v (n ∷ ns) d =
    chosen-IsDistinct (n.vbdev_name == v) ns (n ∷ remove_name v ns) d.1
      (remove_name-absent v n.vbdev_name ns d.0, remove_name-IsDistinct v ns d.1)

-- The name that was added last is the one that is removed, if it was not there before.
pub remove_name-append :
    (ns : List BdevNames) (n : BdevNames)
    → has_vbdev n.vbdev_name ns ≡ false
    → remove_name n.vbdev_name (ns ++ (n ∷ [])) ≡ ns
unfolding remove_name has_vbdev
remove_name-append [] n h = ground arith
remove_name-append (m ∷ ns) n h = ground (arith, remove_name-append ns n)

-- The io devices are as many as the nodes; so are the open descriptors, but for those of nodes that are gone.
pub record IsCounted (r : Registry) : Type 0 where
  pub opened : r.descs ≡ length r.nodes + r.closing + r.lost
  pub devices : r.io_devices ≡ length r.nodes

attach-names :
    (l : Layer) (b : ℕ) (n : BdevNames) (r : Registry) → (attach l b n r).1.names ≡ r.names
unfolding attach
attach-names l b n r = ground arith

-- The descriptors of nodes that are gone are as many in both.
abbrev pub SameGone : Registry → Registry → Type 0
SameGone r r' = (r'.closing ≡ r.closing) × (r'.lost ≡ r.lost)

attach-SameGone : (l : Layer) (b : ℕ) (n : BdevNames) (r : Registry) → SameGone r (attach l b n r).1
unfolding attach
attach-SameGone l b n r = ground arith

attach-IsCounted :
    (l : Layer) (b : ℕ) (n : BdevNames) (r : Registry) → IsCounted r → IsCounted (attach l b n r).1
unfolding attach
attach-IsCounted l b n r h = record {
  opened = ground (
    arith,
    h.opened,
    remove_last-append r.nodes (new_node l b n),
    length-append r.nodes (new_node l b n ∷ []),
  );
  devices = ground (
    arith,
    h.devices,
    remove_last-append r.nodes (new_node l b n),
    length-append r.nodes (new_node l b n ∷ []),
  );
}

-- A result that keeps the names of `r`, and the counts.
abbrev pub Kept : Registry → Rc × Registry → Type 0
Kept r q = (q.1.names ≡ r.names) × IsCounted q.1 × SameGone r q.1

chosen-Kept :
    (t : Bool) (r : Registry) (x y : Rc × Registry)
    → Kept r x
    → Kept r y
    → Kept r (elim t [ true ↦ x | false ↦ y ])
chosen-Kept true r x y kx ky = kx
chosen-Kept false r x y kx ky = ky

after-Kept :
    (rc : Rc) (r s : Registry) (x : Rc × Registry)
    → Kept r x
    → Kept r (rc, s)
    → Kept r (elim rc [ ok ↦ x | fail e ↦ (fail e, s) ])
after-Kept ok r s x kx ks = kx
after-Kept (fail e) r s x kx ks = ks

pub register-Kept :
    (l : Layer) (b : ℕ) (ns : List BdevNames) (r : Registry)
    → IsCounted r
    → Kept r (register_from l b ns r)
unfolding register_from
register-Kept l b [] r h = (refl, h, (refl, refl))
register-Kept l b (n ∷ ns) r h =
    let p = attach l b n r in
    let k = register-Kept l b ns p.1 (attach-IsCounted l b n r h) in
    let gone = attach-SameGone l b n r in
    chosen-Kept (n.bdev_name == b) r
      (elim p.0 [ ok ↦ register_from l b ns p.1 | fail e ↦ (fail e, p.1) ]) (register_from l b ns r)
      (after-Kept p.0 r p.1 (register_from l b ns p.1)
        (k.0 ∙ attach-names l b n r, k.1, (k.2.0 ∙ gone.0, k.2.1 ∙ gone.1))
        (attach-names l b n r, attach-IsCounted l b n r h, gone))
      (register-Kept l b ns r h)
