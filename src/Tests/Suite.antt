-- ===== src/Tests/Suite.antt =====
-- The registry at one algorithm.
use lvau.Base.{◌≡◌, is_some, some}
use lvau.Envelope.{cascade_aes_gcm_xchacha}
use lvau.Capsule.{is_payload_algorithm}
use lvau.Suite.{CryptoSuite, for_v2_algorithm}
use lvau.Suite.Agree.{Describes, for_v2_algorithm-Describes}

for_v2_algorithm-Describes_example :
    (is_some (for_v2_algorithm cascade_aes_gcm_xchacha)
      ≡ is_payload_algorithm cascade_aes_gcm_xchacha)
    × ((s : CryptoSuite)
        → for_v2_algorithm cascade_aes_gcm_xchacha ≡ some s
        → Describes cascade_aes_gcm_xchacha s)
for_v2_algorithm-Describes_example = for_v2_algorithm-Describes cascade_aes_gcm_xchacha
