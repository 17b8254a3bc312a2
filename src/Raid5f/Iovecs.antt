-- ===== src/Raid5f/Iovecs.antt =====
-- raid/raid5f.c: how the buffers of a stripe write are cut into chunks (`raid5f_stripe_request_map_iovecs`).
-- The buffers for metadata are left out.
use flex_bso.Common.{
  ℕ, zero, suc, ◌+◌, Bool, if◌then◌else◌, leb, ltb, List, [], ◌∷◌, ◌++◌, take, drop, min, add64,
  sub64, shl32, get_or,
}
use flex_bso.Bdev.{Iovec, Rc, ok, fail, enomem, einval}
use flex_bso.RaidBdev.{RaidBdev}
use flex_bso.Raid5f.{raid5f_stripe_data_chunks_num}

-- The position in the request: its buffers from `raid_io_iov_idx` on, `raid_io_offset` and
-- `raid_io_iov_offset`.
pub record Cursor : Type 0 where
  pub rest : List Iovec
  pub offset : ℕ
  pub iov_offset : ℕ

-- What filling one chunk leaves: its iovecs, the position, and `len`, the bytes that are missing.
pub record Filled : Type 0 where
  pub iovs : List Iovec
  pub cursor : Cursor
  pub missing : ℕ

-- `raid5f_chunk_set_iovcnt`: the result and `iovcnt_max`. `reallocated` says whether `realloc` succeeds.
unfoldable pub raid5f_chunk_set_iovcnt : Bool → ℕ → ℕ → Rc × ℕ
raid5f_chunk_set_iovcnt reallocated iovcnt_max iovcnt =
    if ltb iovcnt_max iovcnt
    then if reallocated then (ok, iovcnt) else (fail enomem, iovcnt_max)
    else (ok, iovcnt_max)

-- The loop that counts the buffers up to position `end`, from position `off`.
unfoldable pub count_iovs : List Iovec → ℕ → ℕ → ℕ
count_iovs [] off end = 0
count_iovs (v ∷ vs) off end =
    let next = add64 off v.iov_len in
    let more = count_iovs vs next end in if leb end next then 1 else suc more

-- The position after `n` bytes of the buffer `v`.
abbrev pub advance : Iovec → List Iovec → Cursor → ℕ → Cursor
advance v vs c n =
    if leb (add64 c.iov_offset v.iov_len) (add64 c.offset n)
    then record { rest = vs; offset = add64 c.offset n; iov_offset = add64 c.iov_offset v.iov_len }
    else record { rest = v ∷ vs; offset = add64 c.offset n; iov_offset = c.iov_offset }

-- The loop that fills `n` iovecs of a chunk. The count never exceeds the buffers that are left.
unfoldable pub fill_chunk : ℕ → Cursor → ℕ → Filled
fill_chunk zero c len = record { iovs = []; cursor = c; missing = len }
fill_chunk (suc n) c len = elim c.rest [
  | [] ↦ record { iovs = []; cursor = c; missing = len }
  | v ∷ vs ↦
      let skipped = sub64 c.offset c.iov_offset in
      let part = min len (sub64 v.iov_len skipped) in
      let f = fill_chunk n (advance v vs c part) (sub64 len part) in
      record f { iovs = record { iov_base = v.iov_base + skipped; iov_len = part } ∷ f.iovs }
]

-- One data chunk of `len` bytes.
unfoldable pub map_chunk : Cursor → ℕ → Filled
unfolding count_iovs fill_chunk
map_chunk c len = fill_chunk (count_iovs c.rest c.iov_offset (add64 c.offset len)) c len

-- The end of a round: the result of `raid5f_chunk_set_iovcnt`, the chunk, and what the other rounds give.
abbrev chunk_mapped : Rc → Filled → Rc × List (List Iovec) → Rc × List (List Iovec)
chunk_mapped (fail e) f rest = (fail e, [])
chunk_mapped ok f rest =
    if ltb 0 f.missing then (fail einval, f.iovs ∷ []) else (rest.0, f.iovs ∷ rest.1)

-- The loop over the data chunks, with `left` to go: the result and the iovecs of each. `maxes` are the sizes
-- of the chunks' arrays of iovecs.
unfoldable pub map_chunks : Bool → List ℕ → ℕ → Cursor → ℕ → Rc × List (List Iovec)
unfolding map_chunk raid5f_chunk_set_iovcnt
map_chunks reallocated maxes zero c len = (ok, [])
map_chunks reallocated maxes (suc left) c len =
    let n = count_iovs c.rest c.iov_offset (add64 c.offset len) in
    let f = map_chunk c len in
    chunk_mapped (raid5f_chunk_set_iovcnt reallocated (get_or maxes 0 4) n).0 f
      (map_chunks reallocated (drop 1 maxes) left f.cursor len)

-- The end of the function, which sets up the parity chunk.
abbrev pub parity_mapped : ℕ → Iovec → Rc → List (List Iovec) → Rc × List (List Iovec)
parity_mapped parity_chunk parity ok chunks =
    (ok, take parity_chunk chunks ++ ((parity ∷ []) ∷ drop parity_chunk chunks))
parity_mapped parity_chunk parity (fail e) chunks = (fail e, chunks)

-- The chunks' iovecs in the order of their base bdevs; the parity chunk has its own buffer.
unfoldable pub raid5f_stripe_request_map_iovecs :
    RaidBdev → Bool → List ℕ → ℕ → ℕ → List Iovec → Rc × List (List Iovec)
unfolding map_chunks raid5f_stripe_data_chunks_num
raid5f_stripe_request_map_iovecs r reallocated maxes parity_buf parity_chunk iovs =
    let len = shl32 r.strip_size r.blocklen_shift in
    let m =
      map_chunks reallocated maxes (raid5f_stripe_data_chunks_num r)
        (record { rest = iovs; offset = 0; iov_offset = 0 }) len in
    parity_mapped parity_chunk (record { iov_base = parity_buf; iov_len = len }) m.0 m.1
