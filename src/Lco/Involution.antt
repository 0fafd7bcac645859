-- ===== src/Lco/Involution.antt =====
-- The obfuscation undoes itself, whatever the key and the nonce, and keeps the length.
use lvau.Base.{
  ℕ, zero, suc, ◌+◌, ◌%◌, ◌≡◌, refl, ap, [], ◌∷◌, length, get_or, set, All, arith, ltb, ltb→lt,
  true,
}
use lvau.Base.Bytes.{Bytes, IsByte, passes_to, passes_at, bit_xor-IsByte}
use lvau.Lco.{rotate_right, swap, mix_state, identity, apply_stream, apply_lco}

rotate_table : passes_to (λ b. passes_to (λ n. ltb (rotate_right b n) 256) 8) 256 ≡ true
unfolding passes_to rotate_right
rotate_table = refl

rotate_right-IsByte : (b n : ℕ) → IsByte b → IsByte (rotate_right b (n % 8))
rotate_right-IsByte b n h = ltb→lt _ _ (
    passes_at (λ m. ltb (rotate_right b m) 256) 8
      (passes_at (λ c. passes_to (λ m. ltb (rotate_right c m) 256) 8) 256 rotate_table b h) (n % 8)
      (omega arith))

get_or-IsByte : (xs : Bytes) (i : ℕ) → All IsByte xs → IsByte (get_or xs i 0)
get_or-IsByte [] i h = omega arith
get_or-IsByte (x ∷ xs) zero h = h.0
get_or-IsByte (x ∷ xs) (suc i) h = get_or-IsByte xs i h.1

set-IsByte : (xs : Bytes) (i v : ℕ) → All IsByte xs → IsByte v → All IsByte (set xs i v)
set-IsByte [] i v h b = tt
set-IsByte (x ∷ xs) zero v h b = (b, h.1)
set-IsByte (x ∷ xs) (suc i) v h b = (h.0, set-IsByte xs i v h.1 b)

swap-IsByte : (state : Bytes) (i j : ℕ) → All IsByte state → All IsByte (swap state i j)
unfolding swap
swap-IsByte state i j h =
    set-IsByte _ j _ (set-IsByte state i _ h (get_or-IsByte state j h)) (get_or-IsByte state i h)

mix_state-IsByte :
    (left i j : ℕ) (key nonce state : Bytes)
    → All IsByte state
    → All IsByte (mix_state left i j key nonce state)
unfolding mix_state
mix_state-IsByte zero i j key nonce state h = h
mix_state-IsByte (suc left) i j key nonce state h =
    mix_state-IsByte left (i + 1) _ key nonce _ (swap-IsByte state i _ h)

identity-IsByte : (left i : ℕ) → All IsByte (identity left i)
unfolding identity
identity-IsByte zero i = tt
identity-IsByte (suc left) i = (omega arith, identity-IsByte left (i + 1))

-- The stream depends on the state alone, never on the bytes that it covers.
apply_stream_twice :
    (i j : ℕ) (state bytes : Bytes)
    → All IsByte state
    → All IsByte bytes
    → apply_stream i j state (apply_stream i j state bytes) ≡ bytes
unfolding apply_stream
apply_stream_twice i j state [] h b = refl
apply_stream_twice i j state (byte ∷ rest) h (b, bs) =
    let i' = (i + 1) % 256 in
    let j' = (j + get_or state i' 0) % 256 in
    let state' = swap state i' j' in
    let h' = swap-IsByte state i' j' h in
    let k = (get_or state' i' 0 + get_or state' j' 0) % 256 in
    let byte_ok = rotate_right-IsByte (get_or state' k 0) j' (get_or-IsByte state' k h') in
    rw ((bit_xor-IsByte byte _ b byte_ok).0, apply_stream_twice i' j' state' rest h' bs)

length-apply_stream :
    (bytes : Bytes) (i j : ℕ) (state : Bytes) → length (apply_stream i j state bytes) ≡ length bytes
unfolding apply_stream
length-apply_stream [] i j state = refl
length-apply_stream (byte ∷ rest) i j state = ap suc (length-apply_stream rest _ _ _)

pub length-apply_lco : (bytes key nonce : Bytes) → length (apply_lco bytes key nonce) ≡ length bytes
unfolding apply_lco
length-apply_lco bytes key nonce = length-apply_stream bytes 0 0 _

-- Obfuscating a string of bytes twice under one key and nonce gives it back, for every key and nonce, empty
-- ones included, and the obfuscated string is as long as the original.
pub apply_lco_involutive :
    (bytes key nonce : Bytes)
    → All IsByte bytes
    → (apply_lco (apply_lco bytes key nonce) key nonce ≡ bytes)
      × (length (apply_lco bytes key nonce) ≡ length bytes)
unfolding apply_lco
apply_lco_involutive bytes key nonce b = (
  apply_stream_twice 0 0 (mix_state 256 0 0 key nonce (identity 256 0)) bytes
      (mix_state-IsByte 256 0 0 key nonce (identity 256 0) (identity-IsByte 256 0)) b,
  length-apply_stream bytes 0 0 _,
)
