-- ===== src/KeySchedule.antt =====
-- crates/lvau-core/src/crypto/key_schedule.rs: one HKDF label for each purpose.
pub mod Labels
use lvau.Base.{ℕ, Option, none, some}
use lvau.Base.Bytes.{Bytes, codes}
use lvau.Error.{Result, ok_or, CryptoError, encryption_failed}
use lvau.Primitives.{Primitives, Hkdf}

pub data KeyPurpose : Type 0 where
  payload cascade_aes cascade_xchacha legacy_lco key_wrap : KeyPurpose
  envelope_commitment bundle_manifest padding : KeyPurpose

unfoldable pub label : KeyPurpose → Bytes
label payload = codes "Lvau-file-encryption"
label cascade_aes = codes "Lvau-Cascade-AES"
label cascade_xchacha = codes "Lvau-Cascade-XChaCha"
label legacy_lco = codes "Lvau-Cascade-LCO"
label key_wrap = codes "Lvau-Key-Wrap"
label envelope_commitment = codes "Lvau-v3-envelope-commitment"
label bundle_manifest = codes "Lvau-v3-bundle-manifest"
label padding = codes "Lvau-v3-padding"

unfoldable pub derive_subkey : Primitives → Hkdf → KeyPurpose → Result Bytes CryptoError
derive_subkey p hk purpose = ok_or (p.expand hk (label purpose) 32) encryption_failed
