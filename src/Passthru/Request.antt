-- ===== src/Passthru/Request.antt =====
-- vbdev_passthru.c: a request from its submission to its completion.
-- `do_compress` is true and never set, so its tests are left out, as are the debug output and the checksum
-- test, which `match_checksum` switches off.
use flex_bso.Common.{
  ℕ, suc, ◌-◌, Bool, true, false, if◌then◌else◌, ◌==◌, Option, none, some, List, [], ◌∷◌, get_or,
  take, mul64,
}
use flex_bso.Bdev.{IoStatus, failed, Rc, ok, fail, enomem, status_of}
use flex_bso.Compression.{
  JobType, compress_deflate_job, decompress_deflate_job, compress_deflate_hw, Doca, checked,
}
use flex_bso.Compression.Job.{Holds}
use flex_bso.Compression.Zlib.{Zlib}
use flex_bso.Compression.File.{Compressed, compress_file}
use flex_bso.Compression.Session.{Session, Opening, doca_compress_init, doca_compress_cleanup}
use flex_bso.Passthru.Buffers.{gather, fill_compressed, fill_decompressed, trim}

-- The kinds of `enum spdk_bdev_io_type` that the module tells apart.
pub data PtIoType : Type 0 where
  io_read io_write io_write_zeroes io_unmap io_flush io_reset io_zcopy io_abort io_other : PtIoType

-- A request to the base bdev.
pub record PtChild : Type 0 where
  pub kind : PtIoType
  pub lba : ℕ
  pub blocks : ℕ
  pub iovs : List (List ℕ)
  pub with_md : Bool

-- `struct spdk_bdev_io`, and what has become of it: the requests sent for it (newest first) and how many
-- of them have not ended, whether it is queued for memory, and the statuses it was completed with.
pub record PtIo : Type 0 where
  pub io_type : PtIoType
  pub offset_blocks : ℕ
  pub num_blocks : ℕ
  pub blocklen : ℕ
  pub iovs : List (List ℕ)
  pub has_md : Bool
  pub test : ℕ
  pub sent : List PtChild
  pub in_flight : ℕ
  pub waiting : Bool
  pub completions : List IoStatus

-- The compression engine as the module keeps it.
pub record Engine : Type 0 where
  pub holds : Holds
  pub session : Session

abbrev pub complete : PtIo → IoStatus → PtIo
complete io s = record io { completions = s ∷ io.completions }

-- `queued` is the answer of `spdk_bdev_queue_io_wait`.
unfoldable pub vbdev_passthru_queue_io : Rc → PtIo → PtIo
vbdev_passthru_queue_io ok io = record io { waiting = true }
vbdev_passthru_queue_io (fail e) io = complete io failed

-- What both submissions do with the answer to their request.
abbrev pub submitted : Rc → Rc → PtChild → PtIo → PtIo
submitted queued ok c io = record io { sent = c ∷ io.sent; in_flight = suc io.in_flight }
submitted queued (fail enomem) c io = vbdev_passthru_queue_io queued io
submitted queued (fail e) c io = complete io failed

abbrev pub child_of : PtIo → PtChild
child_of io = record {
  kind = io.io_type;
  lba = io.offset_blocks;
  blocks = io.num_blocks;
  iovs = io.iovs;
  with_md = io.has_md;
}

-- `got_buf` says whether the pool had a buffer.
unfoldable pub pt_read_get_buf_cb : (PtChild → Rc) → Rc → Bool → PtIo → PtIo
unfolding vbdev_passthru_queue_io
pt_read_get_buf_cb answer queued got_buf io =
    if got_buf then submitted queued (answer (child_of io)) (child_of io) io else complete io failed

-- `uint64_t data_size`
abbrev pub data_size : PtIo → ℕ
data_size io = mul64 io.num_blocks io.blocklen

-- A length that `compress_file` has not set; the buffer it goes with holds zeros.
abbrev len_or : ℕ → Option ℕ → ℕ
len_or unset none = unset
len_or unset (some n) = n

-- `free` of the result, which on success is the engine's destination buffer.
abbrev file_freed : Compressed → Holds → Holds
file_freed c h = checked c.result (λ _. h) (record h { dst_live = h.dst_live - 1 })

abbrev pub sent_on : (PtChild → Rc) → Rc → Option (PtIo × Engine) → Option (PtIo × Engine)
sent_on answer queued none = none
sent_on answer queued (some p) =
    some (submitted queued (answer (child_of p.0)) (child_of p.0) p.0, p.1)

abbrev pub ended_with : Bool → Option (PtIo × Engine) → Option (PtIo × Engine)
ended_with good none = none
ended_with good (some p) =
    some (complete (record p.0 { in_flight = p.0.in_flight - 1 }) (status_of good), p.1)

module _ (d : Doca) (z : Zlib) (o : Opening) (fuel unset : ℕ) where
  -- Opening the engine, one job, and closing it: the result, and the engine after it.
  abbrev pub run_engine : JobType → List ℕ → Engine → Option (Compressed × Engine)
  run_engine job src e =
      let opened = (doca_compress_init o e.session).1 in
      engine_closed opened (compress_file d z fuel job compress_deflate_hw src e.holds)
    where
      engine_closed : Session → Option (Compressed × Holds) → Option (Compressed × Engine)
      engine_closed opened none = none
      engine_closed opened (some p) =
          some (p.0, record { holds = file_freed p.0 p.1; session = doca_compress_cleanup opened })

  abbrev pub compressed_into : PtIo → Option (Compressed × Engine) → Option (PtIo × Engine)
  compressed_into io none = none
  compressed_into io (some p) =
      some (record io { iovs = fill_compressed io.iovs p.0.file (len_or unset p.0.file_len) }, p.1)

  -- The part of a write before its submission: the caller's buffers are overwritten. A result that is not a
  -- success is only logged.
  unfoldable pub compress_write : PtIo → Engine → Option (PtIo × Engine)
  unfolding doca_compress_init doca_compress_cleanup compress_file gather fill_compressed
  compress_write io e =
      compressed_into io (run_engine compress_deflate_job (take (data_size io) (gather io.iovs)) e)

  abbrev pub decompressed_into : PtIo → Option (Compressed × Engine) → Option (PtIo × Engine)
  decompressed_into io none = none
  decompressed_into io (some p) =
      some
        (record io { iovs = fill_decompressed io.iovs p.0.file (len_or unset p.0.file_len) }, p.1)

  -- The part of the end of a read before its completion; a first byte 0 stands for data that was never
  -- compressed. The first buffer has at least one byte.
  unfoldable pub decompress_read : PtIo → Engine → Option (PtIo × Engine)
  unfolding doca_compress_init doca_compress_cleanup compress_file gather fill_decompressed trim
  decompress_read io e =
      if get_or (get_or io.iovs 0 []) 0 0 == 0
      then some (io, e)
      else decompressed_into io (
          run_engine decompress_deflate_job (take (trim io.iovs (data_size io)) (gather io.iovs)) e)

  -- The switch on the type of a request.
  abbrev pub submit_as :
      PtIoType → (PtChild → Rc) → Rc → Bool → PtIo → Engine → Option (PtIo × Engine)
  submit_as io_read answer queued got_buf io e =
      some (pt_read_get_buf_cb answer queued got_buf io, e)
  submit_as io_write answer queued got_buf io e = sent_on answer queued (compress_write io e)
  submit_as io_other answer queued got_buf io e = some (complete io failed, e)
  submit_as t answer queued got_buf io e = sent_on answer queued (some (io, e))

  -- `none` when the engine does not answer within `fuel` polls. The buffer of a read may also be handed over
  -- later; nothing else of the request happens before that.
  unfoldable pub vbdev_passthru_submit_request :
      (PtChild → Rc) → Rc → Bool → PtIo → Engine → Option (PtIo × Engine)
  unfolding compress_write pt_read_get_buf_cb
  vbdev_passthru_submit_request answer queued got_buf io e =
      submit_as io.io_type answer queued got_buf (record io { test = 90 }) e

  abbrev pub end_as : PtIoType → Bool → PtIo → Engine → Option (PtIo × Engine)
  end_as io_read good io e = ended_with good (decompress_read io e)
  end_as t good io e = ended_with good (some (io, e))

  -- The request to the base bdev has ended, and a read has filled the buffers.
  unfoldable pub pt_complete_io : Bool → PtIo → Engine → Option (PtIo × Engine)
  unfolding decompress_read
  pt_complete_io good io e = end_as io.io_type good io e

  -- The request is submitted again as it stands.
  unfoldable pub vbdev_passthru_resubmit_io :
      (PtChild → Rc) → Rc → Bool → PtIo → Engine → Option (PtIo × Engine)
  unfolding vbdev_passthru_submit_request
  vbdev_passthru_resubmit_io answer queued got_buf io e =
      vbdev_passthru_submit_request answer queued got_buf (record io { waiting = false }) e

-- The end of a zero-copy request, which hands the base bdev's buffer to the caller.
unfoldable pub pt_complete_zcopy_io : Bool → List (List ℕ) → PtIo → PtIo
pt_complete_zcopy_io good base_iovs io =
    complete (record io { iovs = get_or base_iovs 0 [] ∷ []; in_flight = io.in_flight - 1 })
      (status_of good)
