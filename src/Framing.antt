-- ===== src/Framing.antt =====
-- crates/lvau-core/src/crypto/framing.rs: nonces and associated data of a chunk.
pub mod Distinct
use lvau.Base.{ℕ, suc, ◌+◌, ◌^◌, List, [], ◌∷◌, ◌++◌, bit_xor, ltb, if◌then◌else◌}
use lvau.Base.Bytes.{Bytes, to_le_bytes}
use lvau.Error.{Result, ok, err, CryptoError, validation}

-- The loop over `nonce[..8].iter_mut().zip(…)`: it stops where either side ends.
unfoldable pub xor_prefix : Bytes → Bytes → Bytes
xor_prefix [] ks = []
xor_prefix (b ∷ bs) [] = b ∷ bs
xor_prefix (b ∷ bs) (k ∷ ks) = bit_xor b k ∷ xor_prefix bs ks

unfoldable pub xchacha_nonce : Bytes → ℕ → Bytes
xchacha_nonce base chunk_index = xor_prefix base (to_le_bytes 8 chunk_index)

unfoldable pub aes_nonce : Bytes → ℕ → Bytes
aes_nonce base chunk_index = xor_prefix base (to_le_bytes 8 chunk_index)

unfoldable pub chunk_aad : Bytes → ℕ → Bytes
chunk_aad commitment chunk_index = commitment ++ to_le_bytes 8 chunk_index

-- `u64::checked_add`
abbrev pub checked_add : ℕ → ℕ → CryptoError → Result ℕ CryptoError
checked_add a b e = if ltb (a + b) (2 ^ 64) then ok (a + b) else err e

unfoldable pub checked_next_chunk : ℕ → Result ℕ CryptoError
checked_next_chunk chunk_index = checked_add chunk_index 1 (validation "Chunk index overflow")
