-- ===== src/Sfx.antt =====
-- Self-extracting files: crates/lvau-cli/src/main.rs, `create_sfx`, writes one, and crates/lvau-stub/src/main.rs,
-- `extract_payload_from_reader`, takes its payload out again. Files stand for their bytes.
pub mod Extract
use lvau.Base.{
  ℕ, ◌+◌, ◌-◌, ◌^◌, Bool, not, Option, none, some, [], ◌∷◌, ◌++◌, String, length, take, drop, leb,
  ltb, ◌==◌, if◌then◌else◌,
}
use lvau.Base.Bytes.{Bytes, codes, bytes_eq, to_le_bytes, from_le_bytes}
use lvau.Error.{Result, ok, err, ◌>>=◌, ◌>>◌, require, ok_or}

abbrev pub sfx_trailer_size : ℕ
sfx_trailer_size = 16

abbrev pub sfx_magic : Bytes
sfx_magic = codes "LVAUSFX1"

-- What was copied has the length that was expected.
unfoldable pub copy_exact_len : Bytes → ℕ → String → Result Bytes String
copy_exact_len input expected_len message = do
  require (length input == expected_len) message
  ok input

-- `create_sfx` from the stub's bytes, where there is a stub, and the payload's bytes and announced length, to the
-- bytes that it persists. The texts of the errors that name a path or a length are arguments.
unfoldable pub create_sfx : String → String → Option Bytes → Bytes → ℕ → Result Bytes String
create_sfx no_stub changed stub payload payload_len = do
  stub_bytes ← ok_or stub no_stub
  copied ← copy_exact_len payload payload_len changed
  ok (stub_bytes ++ (copied ++ (to_le_bytes 8 payload_len ++ sfx_magic)))

-- `checked_sub`
unfoldable pub checked_sub : ℕ → ℕ → Option ℕ
checked_sub a b = if leb b a then some (a - b) else none

-- `seek` and `read_exact`
unfoldable pub read_at : Bytes → ℕ → ℕ → String → Result Bytes String
read_at file start n message = do
  let bytes = take n (drop start file)
  require (length bytes == n) message
  ok bytes

-- On a platform of 64 bits the length fits, and the allocation is taken to succeed.
unfoldable pub extract_payload_from_reader : Bytes → ℕ → Result Bytes String
extract_payload_from_reader file file_len = do
  trailer_start ← ok_or (checked_sub file_len sfx_trailer_size) "File too small to be an SFX."
  trailer ← read_at file trailer_start sfx_trailer_size "Failed to read trailer."
  require (bytes_eq (take 8 (drop 8 trailer)) sfx_magic)
      "This executable does not contain a valid Lvau SFX payload."
  let payload_len = from_le_bytes (take 8 trailer)
  payload_start ←
      ok_or (checked_sub trailer_start payload_len)
        "SFX payload length exceeds the executable size."
  read_at file payload_start payload_len "Failed to read payload bytes."
