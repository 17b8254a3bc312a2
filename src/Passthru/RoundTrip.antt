-- ===== src/Passthru/RoundTrip.antt =====
-- vbdev_passthru.c: data that is written to the bdev is what is read from it.
use flex_bso.Common.{
  ℕ, ◌-◌, ◌≤◌, ◌<◌, ◌^◌, ◌≡◌, ◌≢◌, ◌∙◌, refl, sym, ap, ap₂, Bool, true, false, ◌==◌, Option, none,
  some, List, [], ◌∷◌, ◌++◌, length, get_or, take, join, memcpy, arith, length-append,
  length-replicate, memcpy-fits, drop-replicate, take_all, take-append_length, get_or-append_left,
  append-nil, some-injective,
}
use flex_bso.Bdev.{Rc, ok}
use flex_bso.Compression.{
  JobType, compress_deflate_job, decompress_deflate_job, Doca, doca_success, dst_buf_size,
}
use flex_bso.Compression.Balance.{IsWorking}
use flex_bso.Compression.Zlib.{Zlib}
use flex_bso.Compression.Session.{Opening}
use flex_bso.Compression.Outcome.{compress_file-success}
use flex_bso.Passthru.Buffers.{gather, zeros, trim}
use flex_bso.Passthru.Padding.{total, gather-join, fill_compressed-join, fill_decompressed-join}
use flex_bso.Passthru.Trim.{IsClean, trim-length}
use flex_bso.Passthru.Request.{
  PtIo, Engine, io_read, io_write, data_size, compress_write, decompress_read,
  vbdev_passthru_submit_request, pt_complete_io, sent_on, ended_with, submit_as, end_as,
}

-- The bytes in the buffers of a request after a step, where the step returns.
abbrev pub bytes_after : Option (PtIo × Engine) → Option (List ℕ)
bytes_after none = none
bytes_after (some p) = some (join p.0.iovs)

-- The request's buffers make up its size, which is no more than a `size_t` counts.
pub record IsSized (io : PtIo) : Type 0 where
  pub whole : data_size io ≡ total io.iovs
  pub small : total io.iovs < 2 ^ 64

-- The engine does the job on this data.
pub record Does (d : Doca) (job : JobType) (src output : List ℕ) : Type 0 where
  pub done : d.event_result job src (dst_buf_size job (length src)) ≡ doca_success
  pub result : d.output job src ≡ output

pub sized_data : (io : PtIo) → IsSized io → take (data_size io) (gather io.iovs) ≡ join io.iovs
sized_data io s =
    ap₂ take s.whole (gather-join io.iovs) ∙ take_all (total io.iovs) (join io.iovs) (omega arith)

module _ (d : Doca) (z : Zlib) (o : Opening) (k fuel unset : ℕ) (works : IsWorking d k)
    (enough : k < fuel) where
  pub write_bytes :
      (io : PtIo) (e : Engine) (c : List ℕ)
      → IsSized io
      → Does d compress_deflate_job (join io.iovs) c
      → bytes_after (compress_write d z o fuel unset io e) ≡ some (memcpy (zeros (total io.iovs)) c)
  unfolding compress_write
  write_bytes io e c s w =
      rw
        (
          sized_data io s,
          compress_file-success d z k fuel compress_deflate_job (join io.iovs) e.holds works enough
              w.done,
          w.result,
        )
        (ap some (fill_compressed-join io.iovs c))

  compressed_first :
      (ws : List (List ℕ)) (c : List ℕ) (p : ℕ)
      → join ws ≡ c ++ zeros p
      → 0 < length (get_or ws 0 [])
      → get_or c 0 0 ≢ 0
      → (get_or (get_or ws 0 []) 0 0 == 0) ≡ false
  compressed_first [] c p same full nonzero = absurd (omega arith)
  compressed_first (v ∷ vs) [] p same full nonzero = absurd (nonzero refl)
  compressed_first (v ∷ vs) (x ∷ c) p same full nonzero =
      rw (sym (get_or-append_left v (join vs) 0 0 full) ∙ ap (λ xs. get_or xs 0 0) same)
        (ground arith)

  read_bytes :
      (io : PtIo) (e : Engine) (c output : List ℕ) (p : ℕ)
      → IsSized io
      → join io.iovs ≡ c ++ zeros p
      → 0 < length (get_or io.iovs 0 [])
      → get_or c 0 0 ≢ 0
      → IsClean c io.iovs
      → Does d decompress_deflate_job c output
      → bytes_after (decompress_read d z o fuel unset io e)
        ≡ some (memcpy (zeros (total io.iovs)) output)
  unfolding decompress_read
  read_bytes io e c output p s same full nonzero clean w =
      rw
        (
          compressed_first io.iovs c p same full nonzero,
          trimmed,
          compress_file-success d z k fuel decompress_deflate_job c e.holds works enough w.done,
          w.result,
        )
        (ap some (fill_decompressed-join io.iovs output))
    where
      trimmed : take (trim io.iovs (data_size io)) (gather io.iovs) ≡ c
      trimmed =
          ap₂ take (ap (trim io.iovs) s.whole ∙ trim-length io.iovs c p same clean s.small)
            (gather-join io.iovs ∙ same)
          ∙ take-append_length c (zeros p)

memcpy_exact : (n : ℕ) (src : List ℕ) → length src ≡ n → memcpy (zeros n) src ≡ src
memcpy_exact n src h =
    memcpy-fits (zeros n) src (omega (arith, length-replicate {A = ℕ} n 0))
    ∙ ap (src ++◌) (drop-replicate (length src) n 0 ∙ ap zeros nothing_left)
    ∙ append-nil src
  where
    nothing_left : n - length src ≡ 0
    nothing_left = omega (arith, h)

pub memcpy_padded :
    (n : ℕ) (src : List ℕ) → length src ≤ n → memcpy (zeros n) src ≡ src ++ zeros (n - length src)
memcpy_padded n src h =
    memcpy-fits (zeros n) src (omega (arith, length-replicate {A = ℕ} n 0))
    ∙ ap (src ++◌) (drop-replicate (length src) n 0)

-- The bytes of the newest request that was sent to the base bdev.
abbrev pub bytes_sent : Option (PtIo × Engine) → Option (List ℕ)
bytes_sent none = none
bytes_sent (some p) = elim p.0.sent [ [] ↦ none | c ∷ cs ↦ some (join c.iovs) ]

pub submitted_bytes :
    (p : Option (PtIo × Engine)) (queued : Rc)
    → bytes_sent (sent_on (λ _. ok) queued p) ≡ bytes_after p
submitted_bytes none queued = refl
submitted_bytes (some p) queued = refl

ended_bytes :
    (p : Option (PtIo × Engine)) (good : Bool) → bytes_after (ended_with good p) ≡ bytes_after p
ended_bytes none good = refl
ended_bytes (some p) good = refl

module _ (d : Doca) (z : Zlib) (o : Opening) (k fuel unset : ℕ) (works : IsWorking d k)
    (enough : k < fuel) (w r : PtIo) (e e' : Engine) (queued : Rc) (got_buf : Bool)
    (c : List ℕ) where
  -- A write whose request the base bdev accepts, and a later read whose buffers the base bdev filled with the
  -- bytes that the write sent: the read ends with the bytes that the caller wrote. The engine is to work
  -- and to inflate what it deflates; the buffers of both requests make up their sizes; the compressed data fits
  -- in the write and does not begin with a zero byte, nor does any piece of it end in one, as the buffers of
  -- the read cut it; the first of these buffers is not empty.
  pub write_then_read :
      w.io_type ≡ io_write
      → r.io_type ≡ io_read
      → IsSized w
      → IsSized r
      → Does d compress_deflate_job (join w.iovs) c
      → Does d decompress_deflate_job c (join w.iovs)
      → length c ≤ total w.iovs
      → get_or c 0 0 ≢ 0
      → 0 < length (get_or r.iovs 0 [])
      → IsClean c r.iovs
      → bytes_sent (vbdev_passthru_submit_request d z o fuel unset (λ _. ok) queued got_buf w e)
        ≡ some (join r.iovs)
      → bytes_after (pt_complete_io d z o fuel unset true r e') ≡ some (join w.iovs)
  unfolding vbdev_passthru_submit_request pt_complete_io
  write_then_read is_write is_read sized_w sized_r deflates inflates fits nonzero full clean sent =
      ap (λ t. bytes_after (end_as d z o fuel unset t true r e')) is_read
      ∙ ended_bytes (decompress_read d z o fuel unset r e') true
      ∙ read_bytes d z o k fuel unset works enough r e' c (join w.iovs) (total w.iovs - length c)
          sized_r same full nonzero clean inflates
      ∙ ap some (
          ap (λ n. memcpy (zeros n) (join w.iovs)) sizes
          ∙ memcpy_exact (total w.iovs) (join w.iovs) refl)
    where
      begun : PtIo
      begun = record w { test = 90 }

      stored : some (join r.iovs) ≡ some (memcpy (zeros (total w.iovs)) c)
      stored =
          sym sent
          ∙ ap (λ t. bytes_sent (submit_as d z o fuel unset t (λ _. ok) queued got_buf begun e))
              is_write
          ∙ submitted_bytes (compress_write d z o fuel unset begun e) queued
          ∙ write_bytes d z o k fuel unset works enough begun e c
              (record { whole = sized_w.whole; small = sized_w.small }) deflates

      same : join r.iovs ≡ c ++ zeros (total w.iovs - length c)
      same = some-injective _ _ stored ∙ memcpy_padded (total w.iovs) c fits

      sizes : total r.iovs ≡ total w.iovs
      sizes = omega (
        arith,
        ap length same,
        length-append c (zeros (total w.iovs - length c)),
        length-replicate {A = ℕ} (total w.iovs - length c) 0,
      )
