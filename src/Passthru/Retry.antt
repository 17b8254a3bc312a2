-- ===== src/Passthru/Retry.antt =====
-- vbdev_passthru.c: a write that waits for memory, and is submitted again with the buffers it then has.
use flex_bso.Common.{
  ℕ, ◌-◌, ◌≤◌, ◌<◌, ◌≡◌, ◌∙◌, refl, sym, ap, Bool, true, false, Option, none, some, some-injective,
  List, ◌++◌, length, join, memcpy, arith, length-append, length-replicate, subst,
}
use flex_bso.Bdev.{Rc, ok, fail, enomem}
use flex_bso.Compression.{compress_deflate_job, Doca, doca_error, DocaErrorKind, dst_buf_size}
use flex_bso.Compression.Balance.{IsWorking}
use flex_bso.Compression.Zlib.{Zlib}
use flex_bso.Compression.File.{Compressed}
use flex_bso.Compression.Session.{Opening}
use flex_bso.Passthru.Buffers.{zeros}
use flex_bso.Passthru.Padding.{total, fill_compressed-nil}
use flex_bso.Passthru.Request.{
  io_write, PtIo, Engine, submit_as, sent_on, compressed_into, compress_write,
  vbdev_passthru_queue_io, vbdev_passthru_submit_request, vbdev_passthru_resubmit_io,
}
use flex_bso.Passthru.RoundTrip.{
  IsSized, Does, bytes_after, bytes_sent, write_bytes, memcpy_padded, submitted_bytes, sized_data,
}
use flex_bso.Compression.Outcome.{compress_file-failure}

-- A write whose compression fails, and whose request the base bdev accepts: what is sent in place of the
-- caller's data is zeros. The engine otherwise works, and the buffers make up the size of the write.
pub failed_compression_sends_zeros :
    (d : Doca) (z : Zlib) (o : Opening) (k fuel unset : ℕ) (w : PtIo) (e : Engine) (queued : Rc)
    (got_buf : Bool) (x : DocaErrorKind)
    → IsWorking d k
    → k < fuel
    → w.io_type ≡ io_write
    → IsSized w
    → d.event_result compress_deflate_job
        (join w.iovs)
        (dst_buf_size compress_deflate_job (total w.iovs))
      ≡ doca_error x
    → bytes_sent (vbdev_passthru_submit_request d z o fuel unset (λ _. ok) queued got_buf w e)
      ≡ some (zeros (total w.iovs))
unfolding vbdev_passthru_submit_request compress_write
failed_compression_sends_zeros d z o k fuel unset w e queued got_buf x works enough is_write sized
      fails =
    ap (λ t. bytes_sent (submit_as d z o fuel unset t (λ _. ok) queued got_buf begun e)) is_write
    ∙ submitted_bytes (compress_write d z o fuel unset begun e) queued
    ∙ zeros_left
  where
    begun : PtIo
    begun = record w { test = 90 }

    zeros_left : bytes_after (compress_write d z o fuel unset begun e) ≡ some (zeros (total w.iovs))
    zeros_left =
        rw
          (
            sized_data w sized,
            compress_file-failure d z k fuel compress_deflate_job (join w.iovs) e.holds x works
                enough fails,
          )
          (ap some (fill_compressed-nil w.iovs unset))

module _ (d : Doca) (z : Zlib) (o : Opening) (k fuel unset : ℕ) (works : IsWorking d k)
    (enough : k < fuel) where
  -- A request whose buffers hold `bytes`, and is otherwise `io`.
  Rewritten : PtIo → List ℕ → Option (PtIo × Engine) → Type 0
  Rewritten io bytes x =
      (vs : List (List ℕ)) × (e : Engine) × (x ≡ some (record io { iovs = vs }, e))
      × (join vs ≡ bytes)

  compressed_into-Rewritten :
      (io : PtIo) (bytes : List ℕ) (x : Option (Compressed × Engine))
      → bytes_after (compressed_into d z o fuel unset io x) ≡ some bytes
      → Rewritten io bytes (compressed_into d z o fuel unset io x)
  unfolding Rewritten
  compressed_into-Rewritten io bytes none h = ground arith
  compressed_into-Rewritten io bytes (some p) h = (_, _, refl, some-injective _ _ h)

  module _ (w : PtIo) (e e'' : Engine) (queued : Rc) (got_buf : Bool) (c c2 : List ℕ) where
    abbrev padded : List ℕ
    padded = c ++ zeros (total w.iovs - length c)

    -- A write that has no memory for its request to the base bdev, and is queued: its buffers already hold the
    -- compressed data, and when it is submitted again, they are compressed a second time, and what is sent
    -- to the base bdev is the compression of the padded compressed data. The engine is to work, the
    -- buffers to make up the size of the write, and the compressed data to fit in them.
    pub retry_compresses_again :
        w.io_type ≡ io_write
        → IsSized w
        → Does d compress_deflate_job (join w.iovs) c
        → length c ≤ total w.iovs
        → Does d compress_deflate_job (c ++ zeros (total w.iovs - length c)) c2
        → (w' : PtIo) × (e' : Engine) × (vbdev_passthru_submit_request d z o fuel unset
              (λ _. fail enomem)
              ok
              got_buf
              w
              e
            ≡ some (w', e'))
          × (w'.waiting ≡ true)
          × (bytes_sent
                (vbdev_passthru_resubmit_io d z o fuel unset (λ _. ok) queued got_buf w' e'')
              ≡ some (memcpy (zeros (total w.iovs)) c2))
    unfolding vbdev_passthru_submit_request vbdev_passthru_resubmit_io vbdev_passthru_queue_io
        Rewritten
    retry_compresses_again is_write sized first fits second = (
      record now { waiting = true },
      r.1,
      ap (λ t. submit_as d z o fuel unset t (λ _. fail enomem) ok got_buf begun e) is_write
          ∙ ap (sent_on (λ _. fail enomem) ok) r.2,
      refl,
      ap (λ t. bytes_sent (submit_as d z o fuel unset t (λ _. ok) queued got_buf again e''))
            is_write
          ∙ submitted_bytes (compress_write d z o fuel unset again e'') queued
          ∙ write_bytes d z o k fuel unset works enough again e'' c2
              (record {
                whole = sized.whole ∙ sym same_size;
                small = omega (arith, same_size, sized.small);
              })
              (subst (λ bytes. Does d compress_deflate_job bytes c2) (sym r.3) second)
          ∙ ap (λ n. some (memcpy (zeros n) c2)) same_size,
    )
      where
        begun : PtIo
        begun = record w { test = 90 }

        r : Rewritten begun padded (compress_write d z o fuel unset begun e)
        r = compressed_into-Rewritten begun padded _ (
            write_bytes d z o k fuel unset works enough begun e c
              (record { whole = sized.whole; small = sized.small }) first
            ∙ ap some (memcpy_padded (total w.iovs) c fits))

        now : PtIo
        now = record begun { iovs = r.0 }

        again : PtIo
        again = record now { waiting = false; test = 90 }

        same_size : total r.0 ≡ total w.iovs
        same_size = omega (
          arith,
          ap length r.3,
          length-append c (zeros (total w.iovs - length c)),
          length-replicate {A = ℕ} (total w.iovs - length c) 0,
        )
