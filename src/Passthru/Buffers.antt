-- ===== src/Passthru/Buffers.antt =====
-- vbdev_passthru.c: how compressed data is put into the buffers of a request, and taken from them.
-- A request's buffers are given by their bytes; `iov_len` is the length of a buffer.
use flex_bso.Common.{
  ℕ, zero, suc, ◌-◌, true, false, ltb, List, [], ◌∷◌, length, get_or, replicate, take, drop, join,
  memcpy, sub64,
}

-- `char *data`: the one buffer of a request, or a copy of all its buffers.
unfoldable pub gather : List (List ℕ) → List ℕ
gather (v ∷ []) = v
gather vs = join vs

abbrev pub zeros : ℕ → List ℕ
zeros n = replicate n 0

-- `memset` of a whole buffer to 0, and `memcpy` of `src` to its start
abbrev pub refill : List ℕ → List ℕ → List ℕ
refill v src = memcpy (zeros (length v)) src

-- The loop that fills several buffers with the compressed data from `file` on, of which `remaining` bytes are
-- to be copied.
unfoldable pub fill_from : List (List ℕ) → List ℕ → ℕ → List (List ℕ)
fill_from [] file remaining = []
fill_from (v ∷ vs) file remaining = elim (ltb (length v) remaining) [
  | true ↦
      refill v (take (length v) file) ∷ fill_from vs (drop (length v) file) (remaining - length v)
  | false ↦ refill v (take remaining file) ∷ fill_from vs file 0
]

-- The buffers of a write after compression.
unfoldable pub fill_compressed : List (List ℕ) → List ℕ → ℕ → List (List ℕ)
unfolding fill_from
fill_compressed (v ∷ []) file file_len = refill v (take file_len file) ∷ []
fill_compressed vs file file_len = fill_from vs file file_len

-- The loop that fills several buffers with the decompressed data from `file` on.
unfoldable pub spread_from : List (List ℕ) → List ℕ → List (List ℕ)
spread_from [] file = []
spread_from (v ∷ vs) file = refill v (take (length v) file) ∷ spread_from vs (drop (length v) file)

-- The buffers of a read after decompression.
unfoldable pub fill_decompressed : List (List ℕ) → List ℕ → ℕ → List (List ℕ)
unfolding spread_from
fill_decompressed (v ∷ []) file file_len = refill v (take file_len file) ∷ []
fill_decompressed vs file file_len = spread_from vs file

-- How many bytes before position `i` the inner loop counts as padding: it walks down while it finds zeros.
unfoldable pub zeros_below : List ℕ → ℕ → ℕ
zeros_below v zero = 0
zeros_below v (suc i) = elim (get_or v i 1) [ zero ↦ suc (zeros_below v i) | suc b ↦ 0 ]

-- The outer loop, from the last buffer to the first, on `compressed_file_len`.
unfoldable pub trim : List (List ℕ) → ℕ → ℕ
unfolding zeros_below
trim [] n = n
trim (v ∷ vs) n = sub64 (trim vs n) (zeros_below v (length v))
