-- ===== src/Capsule/Decrypt.antt =====
-- Decryption and verification in crates/lvau-core/src/crypto/mod.rs.
use lvau.Base.{Option, none, some, List, [], ◌∷◌, ◌++◌, replicate, if◌then◌else◌}
use lvau.Base.Bytes.{Bytes, codes}
use lvau.Error.{
  Result, ok, err, stuck, ◌>>=◌, ok_or, CryptoError, decryption_failed, missing_kdf_params,
}
use lvau.Envelope.{Envelope, EnvelopeHeader, Recipient, password, hybrid}
use lvau.Reader.{Reader, piece}
use lvau.Payload.Stream.{stream_decrypt_payload}
use lvau.Capsule.{Backend, read_envelope}
use lvau.Capsule.Encrypt.{hkdf, derive_master_key, derive_contributory_x25519, hybrid_wrap_label}

unfoldable pub unwrap_key_xchacha : Backend → Bytes → Bytes → Bytes → Result Bytes CryptoError
unwrap_key_xchacha b wrapped wrapping_key nonce =
    ok_or (b.prims.xchacha.decrypt wrapping_key nonce [] wrapped) decryption_failed

-- `.iter().find(|r| matches!(r, Recipient::Password { .. }))`: the nonce and the wrapped key.
unfoldable pub find_password : List Recipient → Option (Bytes × Bytes)
find_password [] = none
find_password (password nonce wrapped ∷ rs) = some (nonce, wrapped)
find_password (hybrid x m k ∷ rs) = find_password rs

-- The file key of a capsule, by its password.
unfoldable pub unwrap_password_file_key :
    Backend → Envelope → Bytes → Option Bytes → Result Bytes CryptoError
unwrap_password_file_key b e pass seed = do
  kdf ← ok_or e.header.kdf missing_kdf_params
  master ← derive_master_key b pass seed kdf
  kwk ← ok_or (b.prims.expand (hkdf master) (codes "Lvau-Key-Wrap") 32) decryption_failed
  (nonce, wrapped) ← ok_or (find_password e.header.recipients) decryption_failed
  unwrap_key_xchacha b wrapped kwk nonce

pub record HybridPrivateKey : Type 0 where
  pub x25519 : Bytes
  pub mlkem : Bytes

abbrev pub to_option : {A : Type 0} → Result A CryptoError → Option A
to_option (ok a) = some a
to_option (err e) = none
to_option stuck = none

infixl 5 ◌>>?◌
abbrev ◌>>?◌ : {A B : Type 0} → Option A → (A → Option B) → Option B
none >>? f = none
some a >>? f = f a

-- One round of the loop: `none` is `continue`.
unfoldable pub try_recipient : Backend → HybridPrivateKey → Recipient → Option Bytes
try_recipient b key (password n k) = none
try_recipient b key (hybrid ephemeral mlkem_ciphertext wrapped) =
    to_option (derive_contributory_x25519 b key.x25519 ephemeral) >>? λ x25519_ss.
    (if b.ciphertext_accepted mlkem_ciphertext
      then (b.prims.expand (hkdf (x25519_ss ++ b.decapsulate key.mlkem mlkem_ciphertext))
            hybrid_wrap_label 32
          >>? λ kwk. to_option (unwrap_key_xchacha b wrapped kwk (replicate 24 0)))
      else none)

-- The first recipient whose key opens.
unfoldable pub first_key : Backend → HybridPrivateKey → List Recipient → Result Bytes CryptoError
first_key b key [] = err decryption_failed
first_key b key (r ∷ rs) =
    let rest = first_key b key rs in elim (try_recipient b key r) [ none ↦ rest | some k ↦ ok k ]

unfoldable pub unwrap_keypair_file_key :
    Backend → Envelope → HybridPrivateKey → Result Bytes CryptoError
unwrap_keypair_file_key b e key = first_key b key e.header.recipients

-- The payload of an envelope whose file key is known.
unfoldable pub open_payload : Backend → Envelope → Bytes → Reader → Result Bytes CryptoError
open_payload b e fek r =
    stream_decrypt_payload b.prims e.header.algorithm e.header.version (hkdf fek) e.nonce
      e.secondary_nonce e.aad_hash e.plaintext_len r

-- The bytes that `write_decrypted_payload_atomic` persists.
unfoldable pub decrypt_file_password :
    Backend → Reader → Bytes → Option Bytes → Result Bytes CryptoError
decrypt_file_password b r pass seed = do
  (e, r') ← read_envelope b r
  fek ← unwrap_password_file_key b e pass seed
  open_payload b e fek r'

unfoldable pub decrypt_file_keypair : Backend → Reader → HybridPrivateKey → Result Bytes CryptoError
decrypt_file_keypair b r key = do
  (e, r') ← read_envelope b r
  fek ← unwrap_keypair_file_key b e key
  open_payload b e fek r'

-- Verification runs the stream into a sink. The function repeats the steps to the file key.
unfoldable pub verify_file_password :
    Backend → Reader → Bytes → Option Bytes → Result (Unit {0}) CryptoError
verify_file_password b r pass seed = do
  (e, r') ← read_envelope b r
  kdf ← ok_or e.header.kdf missing_kdf_params
  master ← derive_master_key b pass seed kdf
  kwk ← ok_or (b.prims.expand (hkdf master) (codes "Lvau-Key-Wrap") 32) decryption_failed
  (nonce, wrapped) ← ok_or (find_password e.header.recipients) decryption_failed
  fek ← unwrap_key_xchacha b wrapped kwk nonce
  written ← open_payload b e fek r'
  ok tt

unfoldable pub verify_file_keypair :
    Backend → Reader → HybridPrivateKey → Result (Unit {0}) CryptoError
verify_file_keypair b r key = do
  (e, r') ← read_envelope b r
  fek ← unwrap_keypair_file_key b e key
  written ← open_payload b e fek r'
  ok tt

pub inspect_envelope : Backend → Reader → Result EnvelopeHeader CryptoError
inspect_envelope b r = do (e, _) ← read_envelope b r; ok e.header

-- A cursor over bytes delivers them in one piece.
abbrev pub cursor : Bytes → Reader
cursor [] = []
cursor (x ∷ xs) = piece (x ∷ xs) ∷ []

-- This function repeats those steps too.
unfoldable pub decrypt_memory_password :
    Backend → Bytes → Bytes → Option Bytes → Result Bytes CryptoError
decrypt_memory_password b encoded pass seed = do
  (e, r') ← read_envelope b (cursor encoded)
  kdf ← ok_or e.header.kdf missing_kdf_params
  master ← derive_master_key b pass seed kdf
  kwk ← ok_or (b.prims.expand (hkdf master) (codes "Lvau-Key-Wrap") 32) decryption_failed
  (nonce, wrapped) ← ok_or (find_password e.header.recipients) decryption_failed
  fek ← unwrap_key_xchacha b wrapped kwk nonce
  open_payload b e fek r'

unfoldable pub decrypt_memory_keypair :
    Backend → Bytes → HybridPrivateKey → Result Bytes CryptoError
decrypt_memory_keypair b encoded key = do
  (e, r') ← read_envelope b (cursor encoded)
  fek ← unwrap_keypair_file_key b e key
  open_payload b e fek r'
