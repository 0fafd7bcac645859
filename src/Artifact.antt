-- ===== src/Artifact.antt =====
-- Taking a capsule's bytes apart and putting them together again, as signing.rs and release.rs of
-- crates/lvau-core/src do before and after they change the envelope. Each of the two has its own copy, which
-- differs in the error values: these are arguments here.
pub mod Cursor
pub mod Repack
use lvau.Base.{
  ℕ, ◌+◌, ◌-◌, ◌^◌, not, ◌&&◌, Option, none, some, ◌++◌, String, length, take, drop, is_empty, leb,
  ltb, ◌==◌, if◌then◌else◌,
}
use lvau.Base.Bytes.{Bytes, from_le_bytes, to_le_bytes}
use lvau.Error.{Result, ok, ◌>>=◌, ◌>>◌, require, ok_or, map_err}
use lvau.Envelope.{Envelope}
use lvau.Capsule.{Backend, max_envelope_size, decode_envelope_bytes}

-- `data.get(a..b)`
unfoldable pub get_range : ℕ → ℕ → Bytes → Option Bytes
get_range a b file =
    if leb a b && leb b (length file) then some (take (b - a) (drop a file)) else none

-- The envelope, and where it ends. The sum of 4 and a length of 32 bits does not overflow.
unfoldable pub decode_capsule_envelope :
    {E : Type 0} → Backend → E → Bytes → Result (Envelope × ℕ) E
decode_capsule_envelope b error file = do
  length_bytes ← ok_or (get_range 0 4 file) error
  let envelope_len = from_le_bytes length_bytes
  require (not (envelope_len == 0) && leb envelope_len max_envelope_size) error
  let envelope_end = 4 + envelope_len
  envelope_bytes ← ok_or (get_range 4 envelope_end file) error
  e ← map_err (λ _. error) (decode_envelope_bytes b envelope_bytes)
  ok (e, envelope_end)

unfoldable pub encode_envelope_checked :
    {E : Type 0} → Backend → (String → E) → E → Envelope → Result Bytes E
encode_envelope_checked b serialization error e = do
  bytes ← map_err serialization (b.encode_envelope e)
  require (not (is_empty bytes) && leb (length bytes) max_envelope_size) error
  ok bytes

-- The bytes that are written: length, envelope, and what followed the envelope before.
unfoldable pub encode_capsule :
    {E : Type 0} → Backend → (String → E) → E → Envelope → Bytes → Result Bytes E
encode_capsule b serialization error e rest = do
  bytes ← encode_envelope_checked b serialization error e
  require (ltb (length bytes) (2 ^ 32)) error
  ok (to_le_bytes 4 (length bytes) ++ (bytes ++ rest))
