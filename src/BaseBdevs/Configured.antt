-- ===== src/BaseBdevs/Configured.antt =====
-- Configuring base bdevs and starting a RAID bdev keep the counter of open descriptors.
use flex_bso.Common.{
  get_or-set_self, add64, ℕ, zero, suc, ◌<◌, ◌≡◌, ◌≢◌, ◌∙◌, refl, sym, ap, Bool, true, false, ◌&&◌,
  ◌==◌, leb, if◌then◌else◌, Option, none, some, List, [], ◌∷◌, arith, set, length, length-set,
  dec_lt,
}
use flex_bso.Bdev.{Rc, ok, fail, einval, ebusy, enomem}
use flex_bso.RaidBdev.{
  RaidLevel, raid0, raid1, raid5f, concat, invalid_raid_level, BaseInfo, RaidBdev, no_info,
  base_info, set_data_size,
}
use flex_bso.Raid0.{raid0_start}
use flex_bso.Raid1.{raid1_start}
use flex_bso.Concat.{pd_block_cnt, lay_out, concat_start}
use flex_bso.Raid5f.{raid5f_start}
use flex_bso.BaseBdevs.{
  BaseBdev, Opened, opened, not_opened, raid_bdev_configure_md, start_by_level, register,
  with_strip, configure_with, common_blocklen, raid_bdev_configure, info_of, discovered,
  superblock_offset, raid_bdev_configure_base_bdev, raid_bdev_add_base_device,
}
use flex_bso.BaseBdevs.Counted.{
  Named, IsCounted, AllNamed, open_descs, open_one, open_descs-set, open_descs-le, set-AllNamed,
  set-IsCounted,
}

-- The new sizes leave names and descriptors as they are.
record Alike (is js : List BaseInfo) : Type 0 where
  lengths : length is ≡ length js
  descs : open_descs is ≡ open_descs js
  names : AllNamed js → AllNamed is

Alike-refl : (is : List BaseInfo) → Alike is is
Alike-refl is = record { lengths = refl; descs = refl; names = λ h. h }

names-cons :
    (b i : BaseInfo) (is js : List BaseInfo)
    → (Named i → Named b)
    → (AllNamed js → AllNamed is)
    → AllNamed (i ∷ js)
    → AllNamed (b ∷ is)
names-cons b i is js n rest h zero = n (h zero)
names-cons b i is js n rest h (suc k) = rest (λ m. h (suc m)) k

Alike-cons :
    (b i : BaseInfo) (is js : List BaseInfo)
    → b.desc ≡ i.desc
    → (Named i → Named b)
    → Alike is js
    → Alike (b ∷ is) (i ∷ js)
Alike-cons b i is js e n a = record {
  lengths = ap suc a.lengths;
  descs = omega (arith, ap open_one e, a.descs);
  names = names-cons b i is js n a.names;
}

set_data_size-Alike : (size : ℕ) (is : List BaseInfo) → Alike (set_data_size size is) is
unfolding set_data_size
set_data_size-Alike size [] = Alike-refl []
set_data_size-Alike size (i ∷ is) =
    Alike-cons (record i { data_size = size }) i _ is refl (λ h. h) (set_data_size-Alike size is)

lay_out-Alike : (shift total : ℕ) (is : List BaseInfo) → Alike (lay_out shift total is).infos is
unfolding lay_out
lay_out-Alike shift total [] = Alike-refl []
lay_out-Alike shift total (i ∷ is) =
    Alike-cons _ i _ is refl (λ h. h) (lay_out-Alike shift (add64 total (pd_block_cnt shift i)) is)

-- A RAID bdev that differs in its sizes only is counted as before.
alike-IsCounted :
    (r q : RaidBdev)
    → Alike q.base_bdev_info r.base_bdev_info
    → q.num_base_bdevs ≡ r.num_base_bdevs
    → q.num_base_bdevs_discovered ≡ r.num_base_bdevs_discovered
    → IsCounted r
    → IsCounted q
alike-IsCounted r q a e f c = record {
  slots = a.lengths ∙ c.slots ∙ sym e;
  few = omega (arith, e, c.few);
  count = f ∙ c.count ∙ sym a.descs;
  named = a.names c.named;
}

module _ (bdevs : ℕ → BaseBdev) (log2 : ℕ → ℕ) (allocated : Bool) (aligns : List ℕ)
    (registered : Rc) where
  start-IsCounted :
      (level : RaidLevel) (a : Bool) (r : RaidBdev)
      → a ≡ allocated
      → IsCounted r
      → IsCounted (start_by_level bdevs log2 a aligns registered level r).1
  unfolding raid0_start raid1_start concat_start raid5f_start
  start-IsCounted raid0 a r e c =
      alike-IsCounted r _ (set_data_size-Alike _ r.base_bdev_info) refl refl c
  start-IsCounted raid1 true r e c =
      alike-IsCounted r _ (set_data_size-Alike _ r.base_bdev_info) refl refl c
  start-IsCounted raid1 false r e c = c
  start-IsCounted concat true r e c =
      alike-IsCounted r _ (lay_out-Alike _ _ r.base_bdev_info) refl refl c
  start-IsCounted concat false r e c = c
  start-IsCounted raid5f true r e c =
      alike-IsCounted r _ (set_data_size-Alike _ r.base_bdev_info) refl refl c
  start-IsCounted raid5f false r e c = c
  start-IsCounted invalid_raid_level a r e c = c

  register-IsCounted :
      (answer : Rc) (p : Rc × RaidBdev)
      → IsCounted p.1
      → IsCounted (register bdevs log2 allocated aligns answer p).1
  register-IsCounted answer (fail e, r) c = c
  register-IsCounted ok (ok, r) c = alike-IsCounted r _ (Alike-refl r.base_bdev_info) refl refl c
  register-IsCounted (fail e) (ok, r) c =
      alike-IsCounted r _ (Alike-refl r.base_bdev_info) refl refl c

  either-IsCounted :
      (t : Bool) (p q : Rc × RaidBdev)
      → IsCounted p.1
      → IsCounted q.1
      → IsCounted (if t then p else q).1
  either-IsCounted true p q c d = c
  either-IsCounted false p q c d = d

  resized :
      (r : RaidBdev) (blocklen : ℕ)
      → IsCounted r
      → IsCounted (with_strip bdevs log2 allocated aligns registered blocklen r)
  resized r blocklen c = alike-IsCounted r _ (Alike-refl r.base_bdev_info) refl refl c

  started :
      (md : Rc) (level : RaidLevel) (s : RaidBdev)
      → IsCounted s
      → IsCounted
          (elim md as (λ _. Rc × RaidBdev) [
            | ok ↦
                register bdevs log2 allocated aligns registered
                  (start_by_level bdevs log2 allocated aligns registered level s)
            | fail e ↦ (fail e, s)
          ]).1
  started ok level s c = register-IsCounted registered _ (start-IsCounted level allocated s refl c)
  started (fail e) level s c = c

  configure_with-IsCounted :
      (o : Option ℕ) (r : RaidBdev)
      → IsCounted r
      → IsCounted (configure_with bdevs log2 allocated aligns registered o r).1
  configure_with-IsCounted none r c = c
  configure_with-IsCounted (some blocklen) r c =
      either-IsCounted _ _ _
        (alike-IsCounted r (record r { strip_size = 0 }) (Alike-refl r.base_bdev_info) refl refl c)
        (started (raid_bdev_configure_md bdevs log2 allocated aligns registered r.base_bdev_info)
          r.level (with_strip bdevs log2 allocated aligns registered blocklen r)
          (resized r blocklen c))

  configure-IsCounted :
      (r : RaidBdev)
      → IsCounted r
      → IsCounted (raid_bdev_configure bdevs log2 allocated aligns registered r).1
  unfolding raid_bdev_configure
  configure-IsCounted r c =
      configure_with-IsCounted
        (common_blocklen bdevs log2 allocated aligns registered 0 r.base_bdev_info) r c

  info-desc :
      (t : Bool) (p q : BaseInfo) (d : ℕ)
      → p.desc ≡ some d
      → q.desc ≡ some d
      → (if t then p else q).desc ≡ some d
  info-desc true p q d e f = e
  info-desc false p q d e f = f

  info-name :
      (t : Bool) (p q : BaseInfo) (n : Option ℕ)
      → n ≡ p.name
      → n ≡ q.name
      → n ≡ (if t then p else q).name
  info-name true p q n e f = e
  info-name false p q n e f = f

  -- A base bdev without a descriptor gets one, and the counter goes up by one.
  discovered-IsCounted :
      (slot d : ℕ) (r : RaidBdev)
      → slot < r.num_base_bdevs
      → (base_info r slot).desc ≡ none
      → (base_info r slot).name ≢ none
      → IsCounted r
      → IsCounted (discovered bdevs log2 allocated aligns registered slot d r)
  discovered-IsCounted slot d r h e named c = record {
    slots = length-set r.base_bdev_info slot _ ∙ c.slots;
    few = c.few;
    count = omega (
      arith,
      c.count,
      c.few,
      c.slots,
      h,
      open_descs-le (set r.base_bdev_info slot info),
      length-set r.base_bdev_info slot info,
      open_descs-set r.base_bdev_info slot info (omega (arith, h, c.slots)),
      ap open_one e,
      ap open_one info_open,
    );
    named = set-AllNamed r.base_bdev_info slot info c.named (λ n. absurd (named (name_kept ∙ n)));
  }
    where
      info : BaseInfo
      info = info_of bdevs log2 allocated aligns registered r d (base_info r slot) (bdevs d)

      info_open : info.desc ≡ some d
      info_open = info-desc r.superblock_enabled _ _ d refl refl

      name_kept : (base_info r slot).name ≡ info.name
      name_kept = info-name r.superblock_enabled _ _ (base_info r slot).name refl refl

  first-IsCounted :
      (t : Bool) (p q : Rc × RaidBdev) → t ≡ true → IsCounted p.1 → IsCounted (if t then p else q).1
  first-IsCounted true p q e c = c
  first-IsCounted false p q e c = absurd (cc)

  pub configure_base-IsCounted :
      (answer : Opened) (claim : Rc) (slot : ℕ) (r : RaidBdev)
      → slot < r.num_base_bdevs
      → (base_info r slot).desc ≡ none
      → (base_info r slot).name ≢ none
      → IsCounted r
      → IsCounted
          (raid_bdev_configure_base_bdev bdevs log2 allocated aligns registered answer claim slot
            r).1
  unfolding raid_bdev_configure_base_bdev
  configure_base-IsCounted (not_opened rc) claim slot r h e n c = c
  configure_base-IsCounted (opened d) (fail x) slot r h e n c = c
  configure_base-IsCounted (opened d) ok slot r h e n c =
      let found : RaidBdev = discovered bdevs log2 allocated aligns registered slot d r in
      let new : IsCounted found = discovered-IsCounted slot d r h e n c in
      let full : Rc × RaidBdev =
        (if found.num_base_bdevs_discovered == r.num_base_bdevs
          then raid_bdev_configure bdevs log2 allocated aligns registered found
          else (ok, found)) in
      either-IsCounted
        (r.superblock_enabled
          && leb (bdevs d).bdev_blocks
              (superblock_offset bdevs log2 allocated aligns registered (bdevs d)))
        (fail einval, found) full new
        (either-IsCounted (found.num_base_bdevs_discovered == r.num_base_bdevs)
          (raid_bdev_configure bdevs log2 allocated aligns registered found) (ok, found)
          (configure-IsCounted found new) new)

  module _ (answer : Opened) (claim : Rc) (strdup : Bool) (bdev_name slot : ℕ) (r : RaidBdev)
      (c : IsCounted r) where
    abbrev named_slot : BaseInfo
    named_slot = record (base_info r slot) { name = some bdev_name }

    abbrev named : RaidBdev
    named = record r { base_bdev_info = set r.base_bdev_info slot named_slot }

    configured :
        slot < r.num_base_bdevs
        → (base_info r slot).name ≡ none
        → IsCounted
            (raid_bdev_configure_base_bdev bdevs log2 allocated aligns registered answer claim slot
              named).1
    configured h e =
        configure_base-IsCounted answer claim slot named h (ap (λ b. b.desc) self ∙ c.named slot e)
          (λ n. absurd (some-none (sym (ap (λ b. b.name) self) ∙ n)))
          (set-IsCounted r slot named_slot refl (λ n. absurd (some-none n)) c)
      where
        self : base_info named slot ≡ named_slot
        self = get_or-set_self r.base_bdev_info slot named_slot no_info (omega (arith, h, c.slots))

        some-none : some bdev_name ≡ none → ⊥
        some-none q = cc

    by_name :
        (o : Option ℕ)
        → o ≡ (base_info r slot).name
        → slot < r.num_base_bdevs
        → IsCounted
            (elim o as (λ _. Rc × RaidBdev) [
              | some n ↦ (fail ebusy, r)
              | none ↦
                  if strdup
                  then raid_bdev_configure_base_bdev bdevs log2 allocated aligns registered answer
                      claim slot named
                  else (fail enomem, r)
            ]).1
    by_name (some n) e h = c
    by_name none e h =
        either-IsCounted strdup
          (raid_bdev_configure_base_bdev bdevs log2 allocated aligns registered answer claim slot
            named)
          (fail enomem, r) (configured h (sym e)) c

    pub add-IsCounted :
        IsCounted
          (raid_bdev_add_base_device bdevs log2 allocated aligns registered answer claim strdup
            bdev_name slot r).1
    unfolding raid_bdev_add_base_device
    add-IsCounted = elim (dec_lt slot r.num_base_bdevs) [
      | yes h ↦ either-IsCounted _ _ _ c (by_name (base_info r slot).name refl h)
      | no h ↦ first-IsCounted (leb r.num_base_bdevs slot) _ _ (ground arith) c
    ]
