-- ===== src/Concat.antt =====
-- raid/concat.c: the base bdevs one behind the other.
pub mod Layout
pub mod Start
pub mod ReadWrite
pub mod Extent
pub mod Pieces
pub mod Slots
pub mod NullPayload
mod Tests
use flex_bso.Common.{
  ℕ, zero, suc, ◌+◌, ◌-◌, Bool, true, false, ltb, leb, ◌==◌, if◌then◌else◌, Option, none, some,
  List, [], ◌∷◌, add64, sub64, shl64, shr, min, get_or,
}
use flex_bso.Bdev.{
  IoType, read, write, unmap, flush, failed, Rc, ok, fail, enomem, eio, BdevIo, Child, status_of,
}
use flex_bso.RaidBdev.{
  BaseInfo, RaidBdev, RaidBdevIo, RaidModule, concat, constraint_unset, base_info,
  raid_bdev_readv_blocks_ext, raid_bdev_writev_blocks_ext, raid_bdev_unmap_blocks,
  raid_bdev_flush_blocks, raid_bdev_io_complete, rw_answered, complete_one,
}
use flex_bso.Fanout.{on_answer}

-- `struct concat_block_range`; the array of them is `raid_bdev->module_private`.
pub record ConcatBlockRange : Type 0 where
  pub range_start : ℕ
  pub range_length : ℕ

abbrev pub no_range : ConcatBlockRange
no_range = record { range_start = 0; range_length = 0 }

-- What is left of a range while the loops walk over the base bdevs: `offset_blocks`, `num_blocks`.
pub record Walk : Type 0 where
  pub offset_blocks : ℕ
  pub num_blocks : ℕ

abbrev pub whole_range : BdevIo → Walk
whole_range b = record { offset_blocks = b.offset_blocks; num_blocks = b.num_blocks }

-- `start_idx` and `stop_idx`
pub record Bounds : Type 0 where
  pub start_idx : Option ℕ
  pub stop_idx : Option ℕ

-- `if (start_idx == -1) start_idx = i`
abbrev pub started_at : Option ℕ → ℕ → Option ℕ
started_at none i = some i
started_at (some s) i = some s

-- The child's end is the request's end.
unfoldable pub concat_bdev_io_completion : RaidBdevIo → Bool → RaidBdevIo
unfolding raid_bdev_io_complete
concat_bdev_io_completion io done = raid_bdev_io_complete io (status_of done)

unfoldable pub concat_base_io_complete : RaidBdevIo → Bool → RaidBdevIo
unfolding complete_one
concat_base_io_complete io done = complete_one io done

module _ (r : RaidBdev) (block_range : List ConcatBlockRange) where
  -- `&block_range[i]`
  abbrev pub range_at : ℕ → ConcatBlockRange
  range_at i = get_or block_range i no_range

  -- The loop over `i`, with `left` turns to go; `pd_idx` is `none` for -1.
  unfoldable pub find_pd_idx : ℕ → ℕ → ℕ → Option ℕ → Option ℕ
  find_pd_idx zero i offset pd_idx = pd_idx
  find_pd_idx (suc left) i offset pd_idx = elim (ltb offset (range_at i).range_start) [
    | true ↦ pd_idx
    | false ↦ find_pd_idx left (suc i) offset (some i)
  ]

  module _ (b : BdevIo) where
    -- Requests of other kinds are not sent, as behind `assert(0)`.
    abbrev pub rw_child : IoType → ℕ → (Child → Rc) → RaidBdevIo → RaidBdevIo
    rw_child read pd_idx answer io =
        let pd_lba = sub64 b.offset_blocks (range_at pd_idx).range_start in
        let c = raid_bdev_readv_blocks_ext (base_info r pd_idx) pd_idx b.iovs pd_lba b.num_blocks in
        rw_answered io c (answer c)
    rw_child write pd_idx answer io =
        let pd_lba = sub64 b.offset_blocks (range_at pd_idx).range_start in
        let c =
          raid_bdev_writev_blocks_ext (base_info r pd_idx) pd_idx b.iovs pd_lba b.num_blocks in
        rw_answered io c (answer c)
    rw_child t pd_idx answer io = io

    -- With `pd_idx` at -1 the code would read before the array, which `assert(pd_idx >= 0)` excludes.
    abbrev pub at_pd_idx : Option ℕ → (Child → Rc) → RaidBdevIo → RaidBdevIo
    at_pd_idx none answer io = io
    at_pd_idx (some pd_idx) answer io = rw_child b.io_type pd_idx answer io

    unfoldable pub concat_submit_rw_request : (Child → Rc) → RaidBdevIo → RaidBdevIo
    unfolding find_pd_idx
    concat_submit_rw_request answer io =
        at_pd_idx (find_pd_idx r.num_base_bdevs 0 b.offset_blocks none) answer io

  abbrev pub pd_lba : ℕ → Walk → ℕ
  pd_lba i w = sub64 w.offset_blocks (range_at i).range_start

  abbrev pub pd_blocks : ℕ → Walk → ℕ
  pd_blocks i w = min w.num_blocks (sub64 (range_at i).range_length (pd_lba i w))

  abbrev pub walk_on : ℕ → Walk → Walk
  walk_on i w = record {
    offset_blocks = add64 w.offset_blocks (pd_blocks i w);
    num_blocks = sub64 w.num_blocks (pd_blocks i w);
  }

  -- The first loop of `concat_submit_null_payload_request`, with `left` turns to go.
  unfoldable pub find_bounds : ℕ → ℕ → Walk → Option ℕ → Bounds
  find_bounds zero i w start_idx = record { start_idx = start_idx; stop_idx = none }
  find_bounds (suc left) i w start_idx =
      elim (leb (add64 (range_at i).range_start (range_at i).range_length) w.offset_blocks) [
        | true ↦ find_bounds left (suc i) w start_idx
        | false ↦ elim ((walk_on i w).num_blocks == 0) [
          | true ↦ record { start_idx = started_at start_idx i; stop_idx = some i }
          | false ↦ find_bounds left (suc i) (walk_on i w) (started_at start_idx i)
        ]
      ]

  module _ (b : BdevIo) where
    abbrev pub null_child : IoType → ℕ → Walk → Child
    null_child unmap i w = raid_bdev_unmap_blocks (base_info r i) i (pd_lba i w) (pd_blocks i w)
    null_child t i w = raid_bdev_flush_blocks (base_info r i) i (pd_lba i w) (pd_blocks i w)

    -- Any other kind of request ends in -EIO.
    abbrev pub null_answer : IoType → (Child → Rc) → Child → Rc
    null_answer unmap answer c = answer c
    null_answer flush answer c = answer c
    null_answer t answer c = fail eio

    abbrev pub null_give_up : RaidBdevIo → RaidBdevIo
    null_give_up io = raid_bdev_io_complete io failed

    -- The second loop: it skips the base bdevs that have got their child request.
    unfoldable pub null_loop : (Child → Rc) → ℕ → ℕ → ℕ → Walk → RaidBdevIo → RaidBdevIo
    null_loop answer start_idx zero i w io = io
    null_loop answer start_idx (suc left) i w io =
        elim (ltb i (start_idx + io.base_bdev_io_submitted)) [
          | true ↦ null_loop answer start_idx left (suc i) (walk_on i w) io
          | false ↦
              let c = null_child b.io_type i w in
              on_answer null_give_up (null_loop answer start_idx left (suc i) (walk_on i w)) io c
                (null_answer b.io_type answer c)
        ]

    abbrev pub null_begin : ℕ → RaidBdevIo → RaidBdevIo
    null_begin n io =
        if io.base_bdev_io_remaining == 0 then record io { base_bdev_io_remaining = n } else io

    -- Both bounds are found, as `assert(start_idx >= 0)` and `assert(stop_idx >= 0)` say.
    abbrev pub between : Option ℕ → Option ℕ → (Child → Rc) → RaidBdevIo → RaidBdevIo
    between (some start_idx) (some stop_idx) answer io =
        null_loop answer start_idx (stop_idx - start_idx + 1) start_idx (whole_range b)
          (null_begin (stop_idx - start_idx + 1) io)
    between start_idx stop_idx answer io = io

    unfoldable pub concat_submit_null_payload_request : (Child → Rc) → RaidBdevIo → RaidBdevIo
    unfolding find_bounds null_loop
    concat_submit_null_payload_request answer io =
        let bounds = find_bounds r.num_base_bdevs 0 (whole_range b) none in
        between bounds.start_idx bounds.stop_idx answer io

-- The loop of `concat_start` over the base bdevs, from `total_blockcnt` on: the base bdevs with their
-- new sizes, their block ranges, and the total.
pub record ConcatLayout : Type 0 where
  pub infos : List BaseInfo
  pub ranges : List ConcatBlockRange
  pub total_blockcnt : ℕ

-- `(base_info->data_size >> strip_size_shift) << strip_size_shift`
abbrev pub pd_block_cnt : ℕ → BaseInfo → ℕ
pd_block_cnt shift i = shl64 (shr i.data_size shift) shift

unfoldable pub lay_out : ℕ → ℕ → List BaseInfo → ConcatLayout
lay_out shift total [] = record { infos = []; ranges = []; total_blockcnt = total }
lay_out shift total (i ∷ is) =
    let count = pd_block_cnt shift i in
    let rest = lay_out shift (add64 total count) is in
    record {
      infos = record i { data_size = count } ∷ rest.infos;
      ranges = record { range_start = total; range_length = count } ∷ rest.ranges;
      total_blockcnt = rest.total_blockcnt;
    }

-- `allocated` says whether `calloc` succeeds.
unfoldable pub concat_start : Bool → RaidBdev → Rc × RaidBdev × List ConcatBlockRange
unfolding lay_out
concat_start false r = (fail enomem, r, [])
concat_start true r =
    let l = lay_out r.strip_size_shift 0 r.base_bdev_info in
    (
      ok,
      record r {
        base_bdev_info = l.infos;
        bdev_blockcnt = l.total_blockcnt;
        optimal_io_boundary = r.strip_size;
        split_on_optimal_io_boundary = true;
      },
      l.ranges,
    )

-- The module stops at once, and the block ranges are gone.
unfoldable pub concat_stop : List ConcatBlockRange → Bool × List ConcatBlockRange
concat_stop block_range = (true, [])

abbrev pub g_concat_module : RaidModule
g_concat_module = record {
  module_level = concat;
  base_bdevs_min = 1;
  constraint_type = constraint_unset;
  constraint_value = 0;
  has_stop = true;
  has_null_payload = true;
  has_resize = false;
}
