-- ===== src/Framing/Distinct.antt =====
-- Chunks of one file get distinct nonces and distinct associated data.
use lvau.Base.{
  ℕ, ◌^◌, ◌≤◌, ◌<◌, ◌≡◌, refl, sym, ap, ◌∙◌, [], ◌∷◌, arith, length, All, append-injective,
  length-append,
}
use lvau.Base.Bytes.{
  Bytes, IsByte, to_le_bytes, from_le_bytes, length-to_le_bytes, to_le_bytes-IsByte,
  from_le_bytes-to_le_bytes, bit_xor-IsByte,
}
use lvau.Framing.{xor_prefix, xchacha_nonce, aes_nonce, chunk_aad}

xor_prefix_injective :
    (bs ks ls : Bytes)
    → All IsByte bs
    → All IsByte ks
    → All IsByte ls
    → length ks ≡ length ls
    → length ks ≤ length bs
    → xor_prefix bs ks ≡ xor_prefix bs ls
    → ks ≡ ls
unfolding xor_prefix
xor_prefix_injective bs [] [] hb hk hl e h p = refl
xor_prefix_injective bs [] (l ∷ ls) hb hk hl e h p = absurd (omega arith)
xor_prefix_injective bs (k ∷ ks) [] hb hk hl e h p = absurd (omega arith)
xor_prefix_injective [] (k ∷ ks) (l ∷ ls) hb hk hl e h p = absurd (omega arith)
xor_prefix_injective (b ∷ bs) (k ∷ ks) (l ∷ ls) (hb, hbs) (hk, hks) (hl, hls) e h p = ground (
  arith,
  bit_xor-IsByte b k hb hk,
  bit_xor-IsByte b l hb hl,
  xor_prefix_injective bs ks ls hbs hks hls,
)

to_le_bytes_injective :
    (i j : ℕ) → i < 2 ^ 64 → j < 2 ^ 64 → to_le_bytes 8 i ≡ to_le_bytes 8 j → i ≡ j
to_le_bytes_injective i j hi hj p =
    sym (from_le_bytes-to_le_bytes 8 i (omega arith))
    ∙ ap from_le_bytes p
    ∙ from_le_bytes-to_le_bytes 8 j (omega arith)

-- Two chunk indices below 2^64 that give one XChaCha nonce, over one base nonce of 24 bytes, are equal.
pub xchacha_nonce_injective :
    (base : Bytes) (i j : ℕ)
    → All IsByte base
    → length base ≡ 24
    → i < 2 ^ 64
    → j < 2 ^ 64
    → xchacha_nonce base i ≡ xchacha_nonce base j
    → i ≡ j
unfolding xchacha_nonce
xchacha_nonce_injective base i j hb hl hi hj p = to_le_bytes_injective i j hi hj (
    xor_prefix_injective base (to_le_bytes 8 i) (to_le_bytes 8 j) hb (to_le_bytes-IsByte 8 i)
      (to_le_bytes-IsByte 8 j) (omega (arith, length-to_le_bytes))
      (omega (arith, length-to_le_bytes)) p)

-- Two chunk indices below 2^64 that give one AES nonce, over one base nonce of 12 bytes, are equal.
pub aes_nonce_injective :
    (base : Bytes) (i j : ℕ)
    → All IsByte base
    → length base ≡ 12
    → i < 2 ^ 64
    → j < 2 ^ 64
    → aes_nonce base i ≡ aes_nonce base j
    → i ≡ j
unfolding aes_nonce
aes_nonce_injective base i j hb hl hi hj p = to_le_bytes_injective i j hi hj (
    xor_prefix_injective base (to_le_bytes 8 i) (to_le_bytes 8 j) hb (to_le_bytes-IsByte 8 i)
      (to_le_bytes-IsByte 8 j) (omega (arith, length-to_le_bytes))
      (omega (arith, length-to_le_bytes)) p)

-- The associated data of a chunk, from a commitment of 32 bytes and an index below 2^64, has 40 bytes and
-- determines both the commitment and the index.
pub chunk_aad_injective :
    (c d : Bytes) (i j : ℕ)
    → length c ≡ 32
    → length d ≡ 32
    → i < 2 ^ 64
    → j < 2 ^ 64
    → chunk_aad c i ≡ chunk_aad d j
    → (length (chunk_aad c i) ≡ 40) × (c ≡ d) × (i ≡ j)
unfolding chunk_aad
chunk_aad_injective c d i j hc hd hi hj p =
    let (same, index) = append-injective c d (hc ∙ sym hd) p in
    (
      omega (arith, length-append {0} c (to_le_bytes 8 i), length-to_le_bytes),
      same,
      to_le_bytes_injective i j hi hj index,
    )
