-- ===== src/Recovery.antt =====
-- crates/lvau-core/src/recovery.rs: a secret split into shares, and the checks on shares before they are combined.
-- The secret sharing itself (the crate blahaj) is a parameter. The files of shares are not modelled, but for the
-- checks on what was decoded from one.
pub mod Combine
pub mod Split
use lvau.Base.{
  Among, ℕ, zero, suc, ◌≡◌, ◌≢◌, ◌⊎◌, ◌<◌, ◌≤◌, Bool, true, false, not, ◌&&◌, ◌||◌, Option, none,
  some, List, [], ◌∷◌, map, length, is_empty, leb, ltb, ◌==◌, any, all, All,
}
use lvau.Base.Bytes.{Bytes, bytes_eq}
use lvau.Error.{
  Result, ok, err, stuck, ◌>>=◌, ◌>>◌, require, ok_or, CryptoError, validation, decryption_failed,
}
use lvau.Envelope.{magic_real}

abbrev pub current_share_version : ℕ
current_share_version = 2

pub record RecoveryShare : Type 0 where
  pub magic : Bytes
  pub version : ℕ
  pub index : ℕ
  pub threshold : ℕ
  pub fingerprint : Bytes
  pub share_data : Bytes

-- `Sharks(threshold)`: the first shares of a dealer, which draws at random, whether bytes are a share, and the
-- recovery of a secret.
pub record Sharks : Type 0 where
  pub deal : ℕ → Bytes → Bytes → ℕ → List Bytes
  pub is_share : Bytes → Bool
  pub recover : ℕ → List Bytes → Option Bytes
  pub sha256 : Bytes → Bytes

-- No two entries are the same.
abbrev pub AreDistinct : List ℕ → Type 0
AreDistinct [] = Unit
AreDistinct (x ∷ xs) = All (λ y. y ≢ x) xs × AreDistinct xs

-- A share's first byte, its x coordinate.
abbrev pub first_byte : Bytes → Option ℕ
first_byte [] = none
first_byte (b ∷ bs) = some b

abbrev pub StartsWith : ℕ → Bytes → Type 0
StartsWith x d = first_byte d ≡ some x

-- The documented behaviour: a share is its coordinate and a byte for each of the secret's; bytes are taken for a
-- share where there are two or more of them; and as many shares of a secret that is not empty as the threshold, of
-- different coordinates, recover it.
pub record SharksLaws (k : Sharks) : Type 0 where
  pub sized :
      (t : ℕ) (draws secret : Bytes) (n : ℕ) (d : Bytes)
      → Among d (k.deal t draws secret n)
      → length d ≡ suc (length secret)
  pub accepts : (d : Bytes) → 2 ≤ length d → k.is_share d ≡ true
  pub refuses : (d : Bytes) → length d < 2 → k.is_share d ≡ false
  pub recovers :
      (t : ℕ) (draws secret : Bytes) (n : ℕ) (xs : List ℕ) (picked : List Bytes)
      → 0 < length secret
      → 0 < t
      → t ≤ length picked
      → All (λ d. Among d (k.deal t draws secret n)) picked
      → map first_byte picked ≡ map some xs
      → AreDistinct xs
      → k.recover t picked ≡ some secret

-- The loop that makes the records; `share_bytes[0]` panics on an empty share.
unfoldable pub make_shares : ℕ → Bytes → List Bytes → Result (List RecoveryShare) CryptoError
make_shares threshold fingerprint [] = ok []
make_shares threshold fingerprint ([] ∷ rest) = stuck
make_shares threshold fingerprint ((index ∷ bytes) ∷ rest) = do
  shares ← make_shares threshold fingerprint rest
  ok (
      record {
        magic = magic_real;
        version = current_share_version;
        index = index;
        threshold = threshold;
        fingerprint = fingerprint;
        share_data = index ∷ bytes;
      }
      ∷ shares)

-- What is drawn at random, the dealer's coefficients and the fingerprint, are the two byte strings before the secret.
unfoldable pub split_secret :
    Sharks → Bytes → Bytes → Bytes → ℕ → ℕ → Result (List RecoveryShare) CryptoError
split_secret k draws fingerprint secret num_shares threshold = do
  require (not (threshold == 0 || num_shares == 0 || ltb num_shares threshold))
      (validation "Invalid threshold or share count")
  make_shares threshold fingerprint (k.deal threshold draws secret num_shares)

pub starts_with : Bytes → ℕ → Bool
starts_with [] x = false
starts_with (b ∷ bs) x = b == x

-- The test of one share against the first one, and its index against those that were seen.
pub is_consistent : RecoveryShare → List ℕ → RecoveryShare → Bool
is_consistent first seen s =
    bytes_eq s.magic magic_real
    && (leb 1 s.version && leb s.version current_share_version)
    && (s.version == first.version)
    && (s.threshold == first.threshold)
    && bytes_eq s.fingerprint first.fingerprint
    && starts_with s.share_data s.index
    && not (any (λ i. i == s.index) seen)

pub check_shares : RecoveryShare → List ℕ → List RecoveryShare → Result (Unit {0}) CryptoError
check_shares first seen [] = ok tt
check_shares first seen (s ∷ ss) = do
  require (is_consistent first seen s)
      (validation "Mismatched, duplicate, or invalid recovery shares")
  check_shares first (s.index ∷ seen) ss

unfoldable pub combine_shares : Sharks → List RecoveryShare → Result Bytes CryptoError
combine_shares k [] = err (validation "No shares provided")
combine_shares k (first ∷ others) = do
  require (not (first.threshold == 0 || ltb (length (first ∷ others)) first.threshold))
      (validation "Not enough shares to reach threshold")
  check_shares first [] (first ∷ others)
  require (all (λ s. k.is_share s.share_data) (first ∷ others))
      (validation "Invalid share data format")
  recovered ←
      ok_or (k.recover first.threshold (map (λ s. s.share_data) (first ∷ others))) decryption_failed
  require (not (first.version == 1 && not (bytes_eq (k.sha256 recovered) first.fingerprint)))
      decryption_failed
  ok recovered

-- The checks of `RecoveryShare::from_file` on what the codec read.
unfoldable pub check_share_file : RecoveryShare → Bytes → Result RecoveryShare CryptoError
check_share_file share remaining = do
  require (is_empty remaining) (validation "Recovery share contains trailing data")
  require (bytes_eq share.magic magic_real) (validation "Invalid magic bytes in share")
  require (leb 1 share.version && leb share.version current_share_version)
      (validation "Unsupported recovery share version")
  require (not (share.threshold == 0 || not (starts_with share.share_data share.index)))
      (validation "Invalid recovery share metadata")
  ok share
