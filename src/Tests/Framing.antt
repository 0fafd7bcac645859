-- ===== src/Tests/Framing.antt =====
-- Nonces, associated data and labels.
use lvau.Base.{ℕ, zero, suc, ◌≡◌, refl, [], ◌∷◌, replicate, length, All, arith, take}
use lvau.Base.Bytes.{IsByte, to_le_bytes}
use lvau.Error.{err, validation}
use lvau.Framing.{xor_prefix, xchacha_nonce, chunk_aad, checked_next_chunk}
use lvau.Framing.Distinct.{xchacha_nonce_injective, aes_nonce_injective, chunk_aad_injective}
use lvau.Lco.{apply_lco}
use lvau.Lco.Involution.{apply_lco_involutive}
use lvau.KeySchedule.{key_wrap}
use lvau.KeySchedule.Labels.{label_injective}

same-All : (n : ℕ) → All IsByte (replicate n 165)
same-All zero = tt
same-All (suc n) = (omega arith, same-All n)

-- `nonce_and_aad_vectors_are_stable`
vector_xchacha :
    take 8 (xchacha_nonce (replicate 24 165) 72623859790382856)
    ≡ 173 ∷ 162 ∷ 163 ∷ 160 ∷ 161 ∷ 166 ∷ 167 ∷ 164 ∷ []
unfolding xchacha_nonce xor_prefix to_le_bytes
vector_xchacha = refl

-- `chunk_counter_overflow_fails_closed`
vector_overflow : checked_next_chunk 18446744073709551615 ≡ err (validation "Chunk index overflow")
unfolding checked_next_chunk
vector_overflow = refl

xchacha_nonce_injective_example : ◌≡◌ {A = ℕ} 5 5
xchacha_nonce_injective_example =
    xchacha_nonce_injective (replicate 24 165) 5 5 (same-All 24) refl (omega arith) (omega arith)
      refl

aes_nonce_injective_example : ◌≡◌ {A = ℕ} 5 5
aes_nonce_injective_example =
    aes_nonce_injective (replicate 12 165) 5 5 (same-All 12) refl (omega arith) (omega arith) refl

chunk_aad_injective_example :
    (length (chunk_aad (replicate 32 1) 7) ≡ 40)
    × (replicate {A = ℕ} 32 1 ≡ replicate 32 1)
    × (◌≡◌ {A = ℕ} 7 7)
chunk_aad_injective_example =
    chunk_aad_injective (replicate 32 1) (replicate 32 1) 7 7 refl refl (omega arith) (omega arith)
      refl

apply_lco_involutive_example :
    (apply_lco (apply_lco (1 ∷ 2 ∷ 255 ∷ []) (replicate 32 8) []) (replicate 32 8) []
      ≡ 1 ∷ 2 ∷ 255 ∷ [])
    × (length (apply_lco (1 ∷ 2 ∷ 255 ∷ []) (replicate 32 8) []) ≡ 3)
apply_lco_involutive_example =
    apply_lco_involutive (1 ∷ 2 ∷ 255 ∷ []) (replicate 32 8) []
      (omega arith, (omega arith, (omega arith, tt)))

label_injective_example : key_wrap ≡ key_wrap
label_injective_example = label_injective key_wrap key_wrap refl
