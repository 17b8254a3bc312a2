-- ===== src/BaseBdevs/Counted.antt =====
-- `num_base_bdevs_discovered` counts the open descriptors, whatever happens to a RAID bdev.
use flex_bso.Common.{
  ℕ, zero, suc, ◌+◌, ◌≤◌, ◌<◌, ◌≡◌, ◌∙◌, refl, sym, ap, Option, none, some, List, [], ◌∷◌, arith,
  get_or, set, length, length-set, u8, dec_lt,
}
use flex_bso.RaidBdev.{BaseInfo, RaidBdev, no_info, base_info}
use flex_bso.BaseBdevs.{raid_bdev_free_base_bdev_resource}

abbrev pub open_one : Option ℕ → ℕ
open_one none = 0
open_one (some d) = 1

-- The base bdevs with an open descriptor.
abbrev pub open_descs : List BaseInfo → ℕ
open_descs [] = 0
open_descs (i ∷ is) = open_one i.desc + open_descs is

-- A slot that is not named has no open descriptor.
abbrev pub Named : BaseInfo → Type 0
Named b = b.name ≡ none → b.desc ≡ none

abbrev pub AllNamed : List BaseInfo → Type 0
AllNamed is = (i : ℕ) → Named (get_or is i no_info)

pub set-AllNamed :
    (is : List BaseInfo) (i : ℕ) (b : BaseInfo) → AllNamed is → Named b → AllNamed (set is i b)
set-AllNamed [] i b h n j e = refl
set-AllNamed (x ∷ is) zero b h n zero e = n e
set-AllNamed (x ∷ is) zero b h n (suc j) e = h (suc j) e
set-AllNamed (x ∷ is) (suc i) b h n zero e = h zero e
set-AllNamed (x ∷ is) (suc i) b h n (suc j) e = set-AllNamed is i b (λ k. h (suc k)) n j e

pub record IsCounted (r : RaidBdev) : Type 0 where
  pub slots : length r.base_bdev_info ≡ r.num_base_bdevs
  pub few : r.num_base_bdevs < 256
  pub count : r.num_base_bdevs_discovered ≡ open_descs r.base_bdev_info
  pub named : AllNamed r.base_bdev_info

pub open_descs-set :
    (is : List BaseInfo) (i : ℕ) (b : BaseInfo)
    → i < length is
    → open_descs (set is i b) + open_one (get_or is i no_info).desc
      ≡ open_descs is + open_one b.desc
open_descs-set [] i b h = absurd (omega arith)
open_descs-set (x ∷ is) zero b h = omega arith
open_descs-set (x ∷ is) (suc i) b h = omega (arith, open_descs-set is i b (omega arith))

pub open_descs-le : (is : List BaseInfo) → open_descs is ≤ length is
open_descs-le [] = omega arith
open_descs-le (i ∷ is) = omega (arith, open_one-le i.desc, open_descs-le is)
  where
    open_one-le : (o : Option ℕ) → open_one o ≤ 1
    open_one-le none = omega arith
    open_one-le (some d) = omega arith

-- Beyond the last slot nothing is written.
set-behind : (is : List BaseInfo) (i : ℕ) (b : BaseInfo) → length is ≤ i → set is i b ≡ is
set-behind [] i b h = refl
set-behind (x ∷ is) zero b h = absurd (omega arith)
set-behind (x ∷ is) (suc i) b h = ap (λ l. x ∷ l) (set-behind is i b (omega arith))

get-behind : (is : List BaseInfo) (i : ℕ) → length is ≤ i → get_or is i no_info ≡ no_info
get-behind [] i h = refl
get-behind (x ∷ is) zero h = absurd (omega arith)
get-behind (x ∷ is) (suc i) h = get-behind is i (omega arith)

-- A write that keeps the descriptor keeps the count.
pub set-IsCounted :
    (r : RaidBdev) (i : ℕ) (b : BaseInfo)
    → b.desc ≡ (base_info r i).desc
    → Named b
    → IsCounted r
    → IsCounted (record r { base_bdev_info = set r.base_bdev_info i b })
set-IsCounted r i b e nb c = record {
  slots = length-set r.base_bdev_info i b ∙ c.slots;
  few = c.few;
  count = c.count ∙ kept;
  named = set-AllNamed r.base_bdev_info i b c.named nb;
}
  where
    kept : open_descs r.base_bdev_info ≡ open_descs (set r.base_bdev_info i b)
    kept = elim (dec_lt i (length r.base_bdev_info)) [
      | yes h ↦ omega (arith, open_descs-set r.base_bdev_info i b h, ap open_one e)
      | no h ↦ ap open_descs (sym (set-behind r.base_bdev_info i b (omega arith)))
    ]

free_by :
    (r : RaidBdev) (i : ℕ) (o : Option ℕ)
    → o ≡ (base_info r i).desc
    → IsCounted r
    → IsCounted (elim o [
      | none ↦ record r {
        base_bdev_info =
            set r.base_bdev_info i (record (base_info r i) { name = none; desc = none });
      }
      | some d ↦ record r {
        base_bdev_info =
            set r.base_bdev_info i (record (base_info r i) { name = none; desc = none });
        num_base_bdevs_discovered = u8 (r.num_base_bdevs_discovered + 255);
      }
    ])
free_by r i none e c =
    set-IsCounted r i (record (base_info r i) { name = none; desc = none }) e (λ _. refl) c
free_by r i (some d) e c = record {
  slots = length-set r.base_bdev_info i _ ∙ c.slots;
  few = c.few;
  count = elim (dec_lt i (length r.base_bdev_info)) [
    | yes h ↦ omega (
      arith,
      c.count,
      c.few,
      c.slots,
      open_descs-le r.base_bdev_info,
      open_descs-set r.base_bdev_info i (record (base_info r i) { name = none; desc = none }) h,
      ap open_one e,
    )
    | no h ↦ absurd (
        omega
          (arith, ap open_one (e ∙ ap (λ b. b.desc) (get-behind r.base_bdev_info i (omega arith)))))
  ];
  named = set-AllNamed r.base_bdev_info i _ c.named (λ _. refl);
}

-- Freeing a base bdev closes its descriptor, if it has one, and the counter goes down by one then.
pub free-IsCounted :
    (r : RaidBdev) (i : ℕ) → IsCounted r → IsCounted (raid_bdev_free_base_bdev_resource i r)
unfolding raid_bdev_free_base_bdev_resource
free-IsCounted r i c = free_by r i (base_info r i).desc refl c
