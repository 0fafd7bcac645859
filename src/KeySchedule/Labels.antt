-- ===== src/KeySchedule/Labels.antt =====
-- Keys of different purposes are derived under different labels.
use lvau.Base.{◌≡◌, arith}
use lvau.KeySchedule.{KeyPurpose, payload, cascade_aes, label}

-- Two purposes with one HKDF label are the same purpose.
pub label_injective : (a b : KeyPurpose) → label a ≡ label b → a ≡ b
unfolding label
label_injective payload b h = ground arith
label_injective cascade_aes b h = ground arith
label_injective a b h = ground arith
