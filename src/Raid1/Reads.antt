-- ===== src/Raid1/Reads.antt =====
-- raid/raid1.c: the reads of a channel in any interleaving, and what its counters are to say of them.
use flex_bso.Common.{
  ℕ, ◌+◌, ◌<◌, ◌≡◌, ◌==◌, if◌then◌else◌, List, [], ◌∷◌, ◌++◌, arith, length, get_or, u64_mod,
  replicate, none, some, Bool,
}
use flex_bso.Bdev.{read, Rc, BdevIo, Child}
use flex_bso.RaidBdev.{RaidBdev, RaidBdevIo, RaidBdevIoChannel, fresh_io}
use flex_bso.Raid1.{
  Raid1IoChannel, raid1_channel_next_read_base_bdev, raid1_submit_rw_request,
  raid1_read_bdev_io_completion,
}

-- A read request on a channel, as the RAID bdev keeps it: what it asks for, and its state.
abbrev pub Request : Type 0
Request = BdevIo × RaidBdevIo

-- The blocks that children in flight have on base bdev `i`.
abbrev pub child_blocks : ℕ → List Child → ℕ
child_blocks i [] = 0
child_blocks i (c ∷ cs) = (if c.idx == i then c.blocks else 0) + child_blocks i cs

abbrev pub blocks_on : ℕ → List Request → ℕ
blocks_on i [] = 0
blocks_on i ((b, io) ∷ rs) = child_blocks i io.sent + blocks_on i rs

pub blocks_on-append :
    (i : ℕ) (xs ys : List Request) → blocks_on i (xs ++ ys) ≡ blocks_on i xs + blocks_on i ys
blocks_on-append i [] ys = omega arith
blocks_on-append i ((b, io) ∷ xs) ys = omega (arith, blocks_on-append i xs ys)

module _ (r : RaidBdev) (ch : RaidBdevIoChannel) where
  -- A channel, which is created with zeroed counters, and its read requests: one is submitted, one that is queued
  -- for memory is submitted again, or the child of one ends. The counter of the base bdev that is picked has
  -- room for the blocks asked for.
  pub data Reads : Raid1IoChannel → List Request → Type 0 where
    idle : Reads (replicate ch.num_channels 0) []
    submitted :
        {r1 : Raid1IoChannel} {rs : List Request}
        → Reads r1 rs
        → (b : BdevIo) (answer : Child → Rc) → b.io_type ≡ read
        → get_or r1 (raid1_channel_next_read_base_bdev ch r1) 0 + b.num_blocks < u64_mod
        → Reads
            (raid1_submit_rw_request r ch b answer fresh_io r1).1
            ((b, (raid1_submit_rw_request r ch b answer fresh_io r1).0) ∷ rs)
    retried :
        {r1 : Raid1IoChannel} {rs : List Request}
        → Reads r1 rs
        → (xs ys : List Request) (b : BdevIo) (io : RaidBdevIo) → rs ≡ xs ++ (b, io) ∷ ys
        → (i : ℕ) → io.waitq ≡ some i
        → (answer : Child → Rc)
        → get_or r1 (raid1_channel_next_read_base_bdev ch r1) 0 + b.num_blocks < u64_mod
        → Reads (raid1_submit_rw_request r ch b answer (record io { waitq = none }) r1).1 (
            (b, (raid1_submit_rw_request r ch b answer (record io { waitq = none }) r1).0)
            ∷ (xs ++ ys))
    ended :
        {r1 : Raid1IoChannel} {rs : List Request}
        → Reads r1 rs
        → (xs ys : List Request) (b : BdevIo) (io : RaidBdevIo) → rs ≡ xs ++ (b, io) ∷ ys
        → 0 < length io.sent
        → (good : Bool) → Reads (raid1_read_bdev_io_completion b r1 io good).1 (xs ++ ys)

pub record Balanced (n : ℕ) (r1 : Raid1IoChannel) (rs : List Request) : Type 0 where
  pub size : length r1 ≡ n
  pub counts : (i : ℕ) → get_or r1 i 0 ≡ blocks_on i rs
  pub fits : (i : ℕ) → get_or r1 i 0 < u64_mod
