-- ===== src/Compression/Zlib.antt =====
-- compression_local_core.c: compression and checksums in software, by zlib.
use flex_bso.Common.{
  ℕ, ◌+◌, ◌*◌, ◌/◌, ◌%◌, ◌^◌, ◌<◌, ◌≡◌, ◌∙◌, ap, Bool, true, false, List, arith, add64, shl64,
  if◌then◌else◌,
}
use flex_bso.Common.Lex.{div_unique, mod_unique}
use flex_bso.Compression.{DocaError, doca_success, doca_error, error_bad_state}

-- A zlib return code: Z_OK, Z_STREAM_END, another code that is not negative, or an error.
pub data ZlibCode : Type 0 where
  z_ok z_stream_end z_other z_error : ZlibCode

-- The calls on a stream whose codes the sources test. `z_first` is `deflate(Z_NO_FLUSH)` or
-- `inflate(Z_SYNC_FLUSH)`, `z_finish` the same function with Z_FINISH.
pub data ZlibCall : Type 0 where
  z_first z_finish z_end : ZlibCall

-- What zlib answers and computes. The codes are given by the data and the size of the destination.
pub record Zlib : Type 0 where
  pub deflate_code : ZlibCall → List ℕ → ℕ → ZlibCode
  pub inflate_code : ZlibCall → List ℕ → ℕ → ZlibCode
  pub deflated : List ℕ → List ℕ
  pub inflated : List ℕ → List ℕ
  pub crc32 : List ℕ → ℕ
  pub adler32 : List ℕ → ℕ

-- `err < 0`
abbrev is_negative : ZlibCode → Bool
is_negative z_error = true
is_negative e = false

-- `err < 0 || err != Z_STREAM_END`
abbrev not_ended : ZlibCode → Bool
not_ended z_stream_end = false
not_ended e = true

-- The three tests of a stream in their order.
abbrev stream_result : (ZlibCall → ZlibCode) → DocaError
stream_result code =
    if is_negative (code z_first)
    then doca_error error_bad_state
    else if not_ended (code z_finish)
    then doca_error error_bad_state
    else if is_negative (code z_end)
    then doca_error error_bad_state
    else doca_success

unfoldable pub compress_file_sw : Zlib → List ℕ → ℕ → DocaError
compress_file_sw z src dst_size = stream_result (λ c. z.deflate_code c src dst_size)

unfoldable pub decompress_file_sw : Zlib → List ℕ → ℕ → DocaError
decompress_file_sw z src dst_size = stream_result (λ c. z.inflate_code c src dst_size)

-- The Adler checksum in the upper and the CRC in the lower half.
unfoldable pub calculate_checksum_sw : Zlib → List ℕ → ℕ
calculate_checksum_sw z src = add64 (shl64 (z.adler32 src) 32) (z.crc32 src)

-- Both halves can be read back from a checksum, since zlib's checksums are 32 bits wide.
pub checksum_halves :
    (z : Zlib) (src : List ℕ)
    → z.crc32 src < 2 ^ 32
    → z.adler32 src < 2 ^ 32
    → (calculate_checksum_sw z src / 2 ^ 32 ≡ z.adler32 src)
      × (calculate_checksum_sw z src % 2 ^ 32 ≡ z.crc32 src)
unfolding calculate_checksum_sw
checksum_halves z src c a = (
  ap (λ (x : ℕ). x / 2 ^ 32) whole ∙ div_unique (2 ^ 32) (z.adler32 src) (z.crc32 src) c,
  ap (λ (x : ℕ). x % 2 ^ 32) whole ∙ mod_unique (2 ^ 32) (z.adler32 src) (z.crc32 src) c,
)
  where
    whole : calculate_checksum_sw z src ≡ z.adler32 src * 2 ^ 32 + z.crc32 src
    whole = omega arith
