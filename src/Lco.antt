-- ===== src/Lco.antt =====
-- crates/lvau-core/src/crypto/lco.rs: the LCO obfuscation layer. The state array of 256 bytes is a
-- list; `u8` arithmetic wraps at 256.
pub mod Involution
use lvau.Base.{
  ℕ, zero, suc, ◌+◌, ◌-◌, ◌*◌, ◌/◌, ◌%◌, ◌^◌, max, bit_xor, List, [], ◌∷◌, length, get_or, set,
}
use lvau.Base.Bytes.{Bytes}

-- `u8::rotate_left` and `u8::rotate_right` by less than 8.
abbrev rotate_left : ℕ → ℕ → ℕ
rotate_left b n = b * 2 ^ n % 256 + b / 2 ^ (8 - n)

rotate_right : ℕ → ℕ → ℕ
rotate_right b n = b / 2 ^ n + b * 2 ^ (8 - n) % 256

-- `state.swap(i, j)`
swap : Bytes → ℕ → ℕ → Bytes
swap state i j = set (set state i (get_or state j 0)) j (get_or state i 0)

-- The first loop: the rounds that are left, `i` and `j`.
mix_state : ℕ → ℕ → ℕ → Bytes → Bytes → Bytes → Bytes
mix_state zero i j key nonce state = state
mix_state (suc left) i j key nonce state =
    let key_byte = get_or key (i % 32) 0 in
    let nonce_byte = get_or nonce (i % max (length nonce) 1) 0 in
    let mix = rotate_left ((key_byte + nonce_byte) % 256) (i % 8) in
    let j' = ((j + get_or state i 0) % 256 + mix) % 256 in
    mix_state left (i + 1) j' key nonce (swap state i j')

-- 0, 1, …: `left` bytes from `i` on.
identity : ℕ → ℕ → Bytes
identity zero i = []
identity (suc left) i = (i % 256) ∷ identity left (i + 1)

-- The second loop.
apply_stream : ℕ → ℕ → Bytes → Bytes → Bytes
apply_stream i j state [] = []
apply_stream i j state (byte ∷ rest) =
    let i' = (i + 1) % 256 in
    let j' = (j + get_or state i' 0) % 256 in
    let state' = swap state i' j' in
    let k = (get_or state' i' 0 + get_or state' j' 0) % 256 in
    let obfuscated = rotate_right (get_or state' k 0) (j' % 8) in
    bit_xor byte obfuscated ∷ apply_stream i' j' state' rest

unfoldable pub apply_lco : Bytes → Bytes → Bytes → Bytes
unfolding mix_state identity apply_stream swap rotate_right
apply_lco bytes key nonce = apply_stream 0 0 (mix_state 256 0 0 key nonce (identity 256 0)) bytes
