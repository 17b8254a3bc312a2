-- ===== src/Raid1/Counters.antt =====
-- raid/raid1.c: the counters of outstanding read blocks follow the reads in flight.
use flex_bso.Common.{
  ℕ, zero, suc, ◌+◌, ◌≤◌, ◌<◌, ◌≡◌, refl, ◌∙◌, subst, ◌&&◌, ltb, ◌==◌, if◌then◌else◌, List, [], ◌∷◌,
  ◌++◌, arith, length, get_or, set, u64_mod, length-set, get_or-replicate, length-replicate, none,
  some, Bool, inl, inr, ◌⊎◌, true, false, sym, ap,
}
use flex_bso.Bdev.{read, failed, Rc, ok, fail, enomem, BdevIo, Child}
use flex_bso.RaidBdev.{
  RaidBdev, RaidBdevIo, RaidBdevIoChannel, fresh_io, raid_bdev_io_complete, raid_bdev_queue_io_wait,
  raid_bdev_readv_blocks_ext,
}
use flex_bso.Raid1.{
  Raid1IoChannel, raid1_channel_inc_read_counters, raid1_channel_dec_read_counters,
  raid1_channel_next_read_base_bdev, raid1_submit_rw_request, raid1_submit_read_request,
  read_answered, read_child, finish_rw, rw_request, raid1_read_bdev_io_completion,
}
use flex_bso.Raid1.ReadBalance.{next_read-Choice}
use flex_bso.Raid1.Reads.{
  Request, child_blocks, blocks_on, blocks_on-append, Reads, idle, submitted, retried, ended,
  Balanced,
}

-- Every write to a counter, at every index.
get_or-set :
    (r1 : List ℕ) (idx v i : ℕ)
    → get_or (set r1 idx v) i 0 ≡ (if idx == i && ltb idx (length r1) then v else get_or r1 i 0)
get_or-set [] idx v i = ground arith
get_or-set (x ∷ r1) zero v zero = ground arith
get_or-set (x ∷ r1) zero v (suc i) = ground arith
get_or-set (x ∷ r1) (suc idx) v zero = ground arith
get_or-set (x ∷ r1) (suc idx) v (suc i) = ground (arith, get_or-set r1 idx v i)

get_or_beyond : (r1 : List ℕ) (i : ℕ) → length r1 ≤ i → get_or r1 i 0 ≡ 0
get_or_beyond [] i h = refl
get_or_beyond (x ∷ r1) zero h = absurd (omega arith)
get_or_beyond (x ∷ r1) (suc i) h = get_or_beyond r1 i (omega arith)

-- What a read request in the list is like: it has no child, or it waits for nothing and has one child, on the
-- base bdev that it remembers.
abbrev IsRequest : Request → Type 0
IsRequest (b, io) =
    (b.io_type ≡ read)
    × ((io.sent ≡ [])
        ⊎ ((io.waitq ≡ none)
            × ((c : Child) × (io.sent ≡ c ∷ [])
                × (c.idx ≡ io.base_bdev_io_submitted)
                × (c.blocks ≡ b.num_blocks))))

data AllRequests : List Request → Type 0 where
  none_left : AllRequests []
  one_more : (x : Request) (xs : List Request) → IsRequest x → AllRequests xs → AllRequests (x ∷ xs)

picked :
    (xs ys : List Request) (x : Request)
    → AllRequests (xs ++ x ∷ ys)
    → IsRequest x × AllRequests (xs ++ ys)
picked [] ys x (one_more _ _ h rest) = (h, rest)
picked (z ∷ xs) ys x (one_more _ _ h rest) =
    let p = picked xs ys x rest in (p.0, one_more z (xs ++ ys) h p.1)

module _ (r : RaidBdev) (ch : RaidBdevIoChannel) where
  abbrev n : ℕ
  n = ch.num_channels

  abbrev next : Raid1IoChannel → ℕ
  next r1 = raid1_channel_next_read_base_bdev ch r1

  -- A submission sends nothing and counts nothing, or sends the one child and counts it.
  abbrev Submitted : BdevIo → Raid1IoChannel → RaidBdevIo × Raid1IoChannel → Type 0
  Submitted b r1 p =
      ((p.0.sent ≡ []) × (p.1 ≡ r1))
      ⊎ ((next r1 < n)
          × (p.0.waitq ≡ none)
          × (p.0.sent ≡ read_child r ch b (next r1) ∷ [])
          × (p.0.base_bdev_io_submitted ≡ next r1)
          × (p.1 ≡ raid1_channel_inc_read_counters r1 (next r1) b.num_blocks))

  next-below : (r1 : Raid1IoChannel) → (next r1 == 255) ≡ false → next r1 < n
  next-below r1 e = elim (next_read-Choice ch r1) [
    | inl p ↦ absurd (ground (arith, e, p.0))
    | inr l ↦ l.in_range
  ]

  answered-Submitted :
      (b : BdevIo) (a : Rc) (io : RaidBdevIo) (r1 : Raid1IoChannel)
      → (next r1 == 255) ≡ false
      → io.sent ≡ []
      → io.waitq ≡ none
      → Submitted b r1 (
          finish_rw r ch b (
            read_answered a
              (next r1)
              (read_child r ch b (next r1))
              b
              (record io { base_bdev_io_remaining = 1 })
              r1))
  unfolding read_answered raid_bdev_io_complete raid_bdev_queue_io_wait
  answered-Submitted b ok io r1 found e w =
      inr (next-below r1 found, w, ap (λ cs. read_child r ch b (next r1) ∷ cs) e, refl, refl)
  answered-Submitted b (fail enomem) io r1 found e w = inl (e, refl)
  answered-Submitted b (fail x) io r1 found e w = inl (e, refl)

  submit-Submitted :
      (b : BdevIo) (answer : Child → Rc) (io : RaidBdevIo) (r1 : Raid1IoChannel)
      → b.io_type ≡ read
      → io.sent ≡ []
      → io.waitq ≡ none
      → Submitted b r1 (raid1_submit_rw_request r ch b answer io r1)
  unfolding raid1_submit_rw_request raid1_submit_read_request raid_bdev_io_complete
  submit-Submitted b answer io r1 is_read e w =
      subst (λ t. Submitted b r1 (finish_rw r ch b (rw_request r ch b t answer io r1)))
        (sym is_read) (by_choice (next r1 == 255) refl)
    where
      child : Child
      child = read_child r ch b (next r1)

      by_choice :
          (t : Bool)
          → (next r1 == 255) ≡ t
          → Submitted b r1 (
              finish_rw r ch b (
                if t
                then (ok, raid_bdev_io_complete io failed, r1)
                else read_answered
                    (answer child)
                    (next r1)
                    child
                    b
                    (record io { base_bdev_io_remaining = 1 })
                    r1))
      by_choice true h = inl (e, refl)
      by_choice false h = answered-Submitted b (answer child) io r1 h e w

  abbrev Valid : Raid1IoChannel → List Request → Type 0
  Valid r1 rs = Balanced n r1 rs × AllRequests rs

  inc-Balanced :
      (r1 : Raid1IoChannel) (rs : List Request) (b : BdevIo) (io : RaidBdevIo)
      → Balanced n r1 rs
      → next r1 < n
      → get_or r1 (next r1) 0 + b.num_blocks < u64_mod
      → io.sent ≡ read_child r ch b (next r1) ∷ []
      → Balanced n (raid1_channel_inc_read_counters r1 (next r1) b.num_blocks) ((b, io) ∷ rs)
  unfolding raid1_channel_inc_read_counters raid_bdev_readv_blocks_ext
  inc-Balanced r1 rs b io v h k e = record {
    size = length-set r1 (next r1) _ ∙ v.size;
    counts = λ i.
        rw (get_or-set r1 (next r1) _ i, e)
          (ground (arith, v.counts i, v.counts (next r1), v.size));
    fits = λ i. rw (get_or-set r1 (next r1) _ i) (ground (arith, v.fits i));
  }

  with_idle-Balanced :
      (r1 : Raid1IoChannel) (rs : List Request) (b : BdevIo) (io : RaidBdevIo)
      → Balanced n r1 rs
      → io.sent ≡ []
      → Balanced n r1 ((b, io) ∷ rs)
  with_idle-Balanced r1 rs b io v e = record {
    size = v.size;
    counts = λ i. rw e (omega (arith, v.counts i));
    fits = v.fits;
  }

  Submitted-Valid :
      (r1 : Raid1IoChannel) (rs : List Request) (b : BdevIo) (p : RaidBdevIo × Raid1IoChannel)
      → b.io_type ≡ read
      → get_or r1 (next r1) 0 + b.num_blocks < u64_mod
      → Submitted b r1 p
      → Valid r1 rs
      → Valid p.1 ((b, p.0) ∷ rs)
  unfolding raid_bdev_readv_blocks_ext
  Submitted-Valid r1 rs b p is_read room (inl h) v = (
    subst (λ x. Balanced n x ((b, p.0) ∷ rs)) (sym h.1) (with_idle-Balanced r1 rs b p.0 v.0 h.0),
    one_more (b, p.0) rs (is_read, inl h.0) v.1,
  )
  Submitted-Valid r1 rs b p is_read room (inr h) v = (
    subst (λ x. Balanced n x ((b, p.0) ∷ rs)) (sym h.4) (inc-Balanced r1 rs b p.0 v.0 h.0 room h.2),
    one_more (b, p.0) rs (is_read, inr (h.1, (read_child r ch b (next r1), h.2, sym h.3, refl)))
        v.1,
  )

  ended-Valid :
      (r1 : Raid1IoChannel) (xs ys : List Request) (b : BdevIo) (io : RaidBdevIo) (good : Bool)
      → 0 < length io.sent
      → Valid r1 (xs ++ (b, io) ∷ ys)
      → Valid (raid1_read_bdev_io_completion b r1 io good).1 (xs ++ ys)
  unfolding raid1_read_bdev_io_completion raid1_channel_dec_read_counters
  ended-Valid r1 xs ys b io good busy v =
      let p = picked xs ys (b, io) v.1 in
      let one = only p.0.1 in
      let counted : ((i : ℕ)
          → get_or r1 i 0 ≡ blocks_on i xs + (child_blocks i (one.0 ∷ []) + blocks_on i ys)) =
        λ i.
          v.0.counts i
          ∙ blocks_on-append i xs ((b, io) ∷ ys)
          ∙ ap (λ cs. blocks_on i xs + (child_blocks i cs + blocks_on i ys)) one.1 in
      let idx = io.base_bdev_io_submitted in
      (
        record {
          size = length-set r1 idx _ ∙ v.0.size;
          counts = λ i.
              rw (get_or-set r1 idx _ i, blocks_on-append i xs ys)
                (ground (
                  arith,
                  counted i,
                  counted idx,
                  v.0.fits idx,
                  get_or_beyond r1 idx,
                  one.2,
                  one.3,
                ));
          fits = λ i. rw (get_or-set r1 idx _ i) (ground (arith, v.0.fits i));
        },
        p.1,
      )
    where
      only :
          (io.sent ≡ [])
            ⊎ ((io.waitq ≡ none)
                × ((c : Child) × (io.sent ≡ c ∷ [])
                    × (c.idx ≡ io.base_bdev_io_submitted)
                    × (c.blocks ≡ b.num_blocks)))
          → (c : Child) × (io.sent ≡ c ∷ [])
            × (c.idx ≡ io.base_bdev_io_submitted)
            × (c.blocks ≡ b.num_blocks)
      only (inl e) = absurd (ground (arith, e, busy))
      only (inr h) = h.1

  retried-Valid :
      (r1 : Raid1IoChannel) (xs ys : List Request) (b : BdevIo) (io : RaidBdevIo) (i : ℕ)
      (answer : Child → Rc)
      → io.waitq ≡ some i
      → get_or r1 (next r1) 0 + b.num_blocks < u64_mod
      → Valid r1 (xs ++ (b, io) ∷ ys)
      → Valid (raid1_submit_rw_request r ch b answer (record io { waitq = none }) r1).1 (
          (b, (raid1_submit_rw_request r ch b answer (record io { waitq = none }) r1).0)
          ∷ (xs ++ ys))
  retried-Valid r1 xs ys b io i answer waits room v =
      let p = picked xs ys (b, io) v.1 in
      let unsent = queued p.0.1 in
      Submitted-Valid r1 (xs ++ ys) b _ p.0.0 room
        (submit-Submitted b answer (record io { waitq = none }) r1 p.0.0 unsent refl)
        (
          record {
            size = v.0.size;
            counts = λ j. omega (
              arith,
              v.0.counts j
                  ∙ blocks_on-append j xs ((b, io) ∷ ys)
                  ∙ ap (λ cs. blocks_on j xs + (child_blocks j cs + blocks_on j ys)) unsent,
              blocks_on-append j xs ys,
            );
            fits = v.0.fits;
          },
          p.1,
        )
    where
      queued :
          (io.sent ≡ [])
            ⊎ ((io.waitq ≡ none)
                × ((c : Child) × (io.sent ≡ c ∷ [])
                    × (c.idx ≡ io.base_bdev_io_submitted)
                    × (c.blocks ≡ b.num_blocks)))
          → io.sent ≡ []
      queued (inl e) = e
      queued (inr h) = absurd (cc)

  Reads-Valid : {r1 : Raid1IoChannel} {rs : List Request} → Reads r ch r1 rs → Valid r1 rs
  Reads-Valid idle = (
    record {
      size = length-replicate n 0;
      counts = λ i. get_or-replicate n i 0;
      fits = λ i. rw (get_or-replicate {A = ℕ} n i 0) (omega arith);
    },
    none_left,
  )
  Reads-Valid (submitted {r1} {rs} s b answer is_read room) =
      Submitted-Valid r1 rs b _ is_read room
        (submit-Submitted b answer fresh_io r1 is_read refl refl) (Reads-Valid s)
  Reads-Valid (retried {r1} {rs} s xs ys b io e i waits answer room) =
      retried-Valid r1 xs ys b io i answer waits room (subst (Valid r1) e (Reads-Valid s))
  Reads-Valid (ended {r1} {rs} s xs ys b io e busy good) =
      ended-Valid r1 xs ys b io good busy (subst (Valid r1) e (Reads-Valid s))

  -- Over any sequence of reads submitted, submitted again after a wait for memory, and ended in any order,
  -- each counter equals the blocks of the children in flight on its base bdev, so that the subtraction when a
  -- read ends never goes below zero, as long as no submission takes the counter of the base bdev that is
  -- picked to 2 ^ 64.
  pub Reads-Balanced :
      {r1 : Raid1IoChannel} {rs : List Request} → Reads r ch r1 rs → Balanced ch.num_channels r1 rs
  Reads-Balanced s = (Reads-Valid s).0
