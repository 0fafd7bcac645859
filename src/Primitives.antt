-- ===== src/Primitives.antt =====
-- The cryptographic crates that lvau-core calls, as a parameter: their functions, and the documented
-- behaviour that the proofs rely on. `none` is a crate's error.
use lvau.Base.{ℕ, ◌+◌, ◌*◌, ◌^◌, ◌≤◌, ◌≡◌, Option, some, length, All}
use lvau.Base.Bytes.{Bytes, IsByte}

-- An authenticated cipher of the `aead` traits: key, nonce, associated data, message.
pub record Aead : Type 0 where
  pub encrypt : Bytes → Bytes → Bytes → Bytes → Option Bytes
  pub decrypt : Bytes → Bytes → Bytes → Bytes → Option Bytes

-- Up to 2^36 bytes (the limit of AES-GCM; that of XChaCha20-Poly1305 is larger) encryption succeeds,
-- appends a tag of 16 bytes, and decryption under the same key, nonce and data undoes it.
pub record Seals (a : Aead) (key nonce aad msg : Bytes) : Type 0 where
  pub sealed : Bytes
  pub encrypted : a.encrypt key nonce aad msg ≡ some sealed
  pub decrypted : a.decrypt key nonce aad sealed ≡ some msg
  pub tagged : length sealed ≡ length msg + 16
  pub sealed_bytes : All IsByte sealed

abbrev pub AeadLaws : Aead → Type 0
AeadLaws a =
    (key nonce aad msg : Bytes) → All IsByte msg → length msg ≤ 2 ^ 36 → Seals a key nonce aad msg

-- `Hkdf::<Sha256>::new(salt, ikm)`, kept as its inputs.
pub record Hkdf : Type 0 where
  pub salt : Option Bytes
  pub ikm : Bytes

pub record Primitives : Type 0 where
  pub xchacha : Aead
  pub aes_gcm : Aead
  -- `hk.expand(info, out)`, for an output of the given length
  pub expand : Hkdf → Bytes → ℕ → Option Bytes
  pub sha256 : Bytes → Bytes

-- HKDF-SHA256 fails only beyond 255 blocks of 32 bytes.
abbrev pub ExpandLaw : Primitives → Type 0
ExpandLaw p =
    (hk : Hkdf) (info : Bytes) (n : ℕ)
    → n ≤ 255 * 32
    → (out : Bytes) × (p.expand hk info n ≡ some out) × (length out ≡ n)

pub record Laws (p : Primitives) : Type 0 where
  pub xchacha_laws : AeadLaws p.xchacha
  pub aes_gcm_laws : AeadLaws p.aes_gcm
  pub expand_law : ExpandLaw p
