-- ===== src/Capsule/Password.antt =====
-- A file encrypted with a password is decrypted by it: encrypt_file_password and decrypt_file_password.
use lvau.Base.{
  ℕ, ◌^◌, ◌<◌, ◌≡◌, refl, Bool, true, false, not, Option, none, some, length, is_empty, arith, All,
}
use lvau.Base.Bytes.{Bytes, IsByte, bytes_eq}
use lvau.Error.{ok, require, >>=-eq-ok, require-eq-ok, validation}
use lvau.Envelope.{Envelope, ContentType, SecurityProfile, validate}
use lvau.Primitives.{Laws}
use lvau.KeySchedule.{derive_subkey, key_wrap}
use lvau.Reader.{Reader, content, IsSteady}
use lvau.Policy.{CapsulePolicy}
use lvau.Capsule.{Backend}
use lvau.Capsule.Encrypt.{
  Draws, hkdf, derive_master_key, wrap_key_xchacha, algorithm_for, secondary_for, kdf_for, draft,
  with_hash, seal, password_header, encrypt_file_password,
}
use lvau.Capsule.Decrypt.{find_password, unwrap_password_file_key, decrypt_file_password}
use lvau.Capsule.Keys.{wrap_label, unwrap-wrap}
use lvau.Capsule.RoundTrip.{Decodes, ready_lem, reopen}

-- The envelope of a password capsule, before its commitment.
abbrev pub password_draft :
    Draws → ℕ → SecurityProfile → Bool → Option ContentType → Bytes → Envelope
password_draft d len profile overridden content_type wrapped =
    draft (password_header profile d wrapped) len d.nonce
      (secondary_for (algorithm_for profile) d.secondary) content_type overridden

valid_draft :
    (d : Draws) (len : ℕ) (profile : SecurityProfile) (overridden : Bool) (ct : Option ContentType)
    (wrapped : Bytes)
    → validate (password_draft d len profile overridden ct wrapped) ≡ ok tt
unfolding validate bytes_eq
valid_draft d len profile overridden ct wrapped = refl

-- What an encryption with a password has passed, up to the sealing.
record Wrapped (b : Backend) (d : Draws) (len : ℕ) (r : Reader) (pass : Bytes) (seed : Option Bytes)
    (profile : SecurityProfile) (policy : Option CapsulePolicy) (overridden : Bool)
    (ct : Option ContentType) (file : Bytes) : Type 0 where
  pub nonempty : is_empty pass ≡ false
  pub master : Bytes
  pub derives : derive_master_key b pass seed (kdf_for profile d.salt) ≡ ok master
  pub kwk : Bytes
  pub subkey : derive_subkey b.prims (hkdf master) key_wrap ≡ ok kwk
  pub wrapped : Bytes
  pub wraps : wrap_key_xchacha b d.fek kwk d.wrap_nonce ≡ ok wrapped
  pub seals :
      seal b (password_draft d len profile overridden ct wrapped) d.fek policy overridden r
      ≡ ok file

encrypt-Wrapped :
    (b : Backend) (d : Draws) (len : ℕ) (r : Reader) (pass : Bytes) (seed : Option Bytes)
    (profile : SecurityProfile) (policy : Option CapsulePolicy) (overridden : Bool)
    (ct : Option ContentType) (file : Bytes)
    → encrypt_file_password b d len r pass seed profile policy overridden ct ≡ ok file
    → Wrapped b d len r pass seed profile policy overridden ct file
unfolding encrypt_file_password
encrypt-Wrapped b d len r pass seed profile policy overridden ct file h =
    let (_, asked, h1) = >>=-eq-ok (require (not (is_empty pass)) _) _ h in
    let (_, seeded, h2) =
      >>=-eq-ok
        (require (elim seed [ none ↦ true | some s ↦ not (is_empty s) ])
          (validation "Seed must not be empty"))
        _ h1 in
    let (master, derives, h3) =
      >>=-eq-ok (derive_master_key b pass seed (kdf_for profile d.salt)) _ h2 in
    let (kwk, subkey, h4) = >>=-eq-ok (derive_subkey b.prims (hkdf master) key_wrap) _ h3 in
    let (wrapped, wraps, h5) = >>=-eq-ok (wrap_key_xchacha b d.fek kwk d.wrap_nonce) _ h4 in
    let full = require-eq-ok (not (is_empty pass)) _ asked in
    record {
      nonempty = ground arith;
      master = master;
      derives = derives;
      kwk = kwk;
      subkey = subkey;
      wrapped = wrapped;
      wraps = wraps;
      seals = h5;
    }

-- The file key of a password capsule comes back by the password and the seed that made it.
unwrap_lem :
    (b : Backend) (d : Draws) (len : ℕ) (pass : Bytes) (seed : Option Bytes)
    (profile : SecurityProfile) (overridden : Bool) (ct : Option ContentType)
    (master kwk wrapped hash : Bytes)
    → Laws b.prims
    → All IsByte d.fek
    → length d.fek ≡ 32
    → derive_master_key b pass seed (kdf_for profile d.salt) ≡ ok master
    → derive_subkey b.prims (hkdf master) key_wrap ≡ ok kwk
    → wrap_key_xchacha b d.fek kwk d.wrap_nonce ≡ ok wrapped
    → unwrap_password_file_key b
        (with_hash (password_draft d len profile overridden ct wrapped) hash)
        pass
        seed
      ≡ ok d.fek
unfolding unwrap_password_file_key find_password
unwrap_lem b d len pass seed profile overridden ct master kwk wrapped hash laws bytes size derives
      subkey wraps =
    rw (derives, wrap_label b master kwk subkey)
      (unwrap-wrap b d.fek kwk d.wrap_nonce wrapped laws bytes (omega arith) wraps)

-- A file that the encryption with a password wrote, whatever the profile, seed, policy and content type, is
-- decrypted by the same password and seed to the plaintext that was encrypted, whatever pieces the two files are
-- read in. No read fails, the primitives keep their laws, the plaintext has fewer than 2^64 bytes, as many as the
-- length given, the file key has 32, and the codec gives back the envelope that it encoded.
pub decrypt_file-encrypt_file_password :
    (b : Backend) (d : Draws) (r r' : Reader) (pass : Bytes) (seed : Option Bytes)
    (profile : SecurityProfile) (policy : Option CapsulePolicy) (overridden : Bool)
    (ct : Option ContentType) (xs file : Bytes)
    → Laws b.prims
    → ((wrapped hash : Bytes)
        → Decodes b (with_hash (password_draft d (length xs) profile overridden ct wrapped) hash))
    → All IsByte d.fek
    → length d.fek ≡ 32
    → All IsByte xs
    → length xs < 2 ^ 64
    → IsSteady r
    → content r ≡ xs
    → encrypt_file_password b d (length xs) r pass seed profile policy overridden ct ≡ ok file
    → IsSteady r'
    → content r' ≡ file
    → decrypt_file_password b r' pass seed ≡ ok xs
unfolding decrypt_file_password
decrypt_file-encrypt_file_password b d r r' pass seed profile policy overridden ct xs file laws
      codec key_bytes key_size bytes bound st same enc st' same' =
    let w = encrypt-Wrapped b d (length xs) r pass seed profile policy overridden ct file enc in
    let o =
      reopen b (password_draft d (length xs) profile overridden ct w.wrapped) d.fek policy
        overridden xs file r r' laws (codec w.wrapped) (ready_lem profile d.secondary)
        (valid_draft d (length xs) profile overridden ct w.wrapped) refl bytes bound st same w.seals
        st' same' in
    rw
      (
        o.reads,
        unwrap_lem b d (length xs) pass seed profile overridden ct w.master w.kwk w.wrapped o.hash
            laws key_bytes key_size w.derives w.subkey w.wraps,
      )
      o.opens
