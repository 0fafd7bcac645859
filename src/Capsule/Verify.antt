-- ===== src/Capsule/Verify.antt =====
-- Verification of a password capsule, verify_file_password, on a file that encryption wrote.
use lvau.Base.{◌^◌, ◌<◌, ◌≡◌, refl, Bool, Option, length, All}
use lvau.Base.Bytes.{Bytes, IsByte, codes}
use lvau.Error.{ok, >>=-eq-ok, CryptoError, ok_or, decryption_failed, missing_kdf_params}
use lvau.Envelope.{Envelope, KdfParams, ContentType, SecurityProfile}
use lvau.Primitives.{Laws}
use lvau.Reader.{Reader, content, IsSteady}
use lvau.Policy.{CapsulePolicy}
use lvau.Capsule.{Backend, read_envelope}
use lvau.Capsule.Encrypt.{Draws, hkdf, derive_master_key, with_hash, encrypt_file_password}
use lvau.Capsule.Decrypt.{
  find_password, unwrap_key_xchacha, unwrap_password_file_key, open_payload, decrypt_file_password,
  verify_file_password,
}
use lvau.Capsule.Password.{password_draft, decrypt_file-encrypt_file_password}
use lvau.Capsule.RoundTrip.{Decodes}

-- The steps that led to a file key.
record Unwraps (b : Backend) (e : Envelope) (pass : Bytes) (seed : Option Bytes) (fek : Bytes)
    : Type 0 where
  pub kdf : KdfParams
  pub present : ok_or {E = CryptoError} e.header.kdf missing_kdf_params ≡ ok kdf
  pub master : Bytes
  pub derives : derive_master_key b pass seed kdf ≡ ok master
  pub kwk : Bytes
  pub expands :
      ok_or {E = CryptoError}
        (b.prims.expand (hkdf master) (codes "Lvau-Key-Wrap") 32)
        decryption_failed
      ≡ ok kwk
  pub nonce : Bytes
  pub wrapped : Bytes
  pub found :
      ok_or {E = CryptoError} (find_password e.header.recipients) decryption_failed
      ≡ ok (nonce, wrapped)
  pub opens : unwrap_key_xchacha b wrapped kwk nonce ≡ ok fek

unwrap-Unwraps :
    (b : Backend) (e : Envelope) (pass : Bytes) (seed : Option Bytes) (fek : Bytes)
    → unwrap_password_file_key b e pass seed ≡ ok fek
    → Unwraps b e pass seed fek
unfolding unwrap_password_file_key
unwrap-Unwraps b e pass seed fek h =
    let (kdf, k1, g1) = >>=-eq-ok (ok_or e.header.kdf missing_kdf_params) _ h in
    let (master, k2, g2) = >>=-eq-ok (derive_master_key b pass seed kdf) _ g1 in
    let (kwk, k3, g3) =
      >>=-eq-ok (ok_or (b.prims.expand (hkdf master) (codes "Lvau-Key-Wrap") 32) decryption_failed)
        _ g2 in
    let ((nonce, wrapped), k4, g4) =
      >>=-eq-ok (ok_or (find_password e.header.recipients) decryption_failed) _ g3 in
    record {
      kdf = kdf;
      present = k1;
      master = master;
      derives = k2;
      kwk = kwk;
      expands = k3;
      nonce = nonce;
      wrapped = wrapped;
      found = k4;
      opens = g4;
    }

-- A file whose envelope is read is accepted where those steps and the stream succeed.
steps_lem :
    (b : Backend) (r r' : Reader) (e : Envelope) (pass : Bytes) (seed : Option Bytes)
    (fek out : Bytes)
    → read_envelope b r ≡ ok (e, r')
    → Unwraps b e pass seed fek
    → open_payload b e fek r' ≡ ok out
    → verify_file_password b r pass seed ≡ ok tt
unfolding verify_file_password
steps_lem b r r' e pass seed fek out reads u opens =
    rw (reads, u.present, u.derives, u.expands, u.found, u.opens, opens) refl

-- A file is accepted where decryption gives an output.
accepts_lem :
    (b : Backend) (r : Reader) (pass : Bytes) (seed : Option Bytes) (out : Bytes)
    → decrypt_file_password b r pass seed ≡ ok out
    → verify_file_password b r pass seed ≡ ok tt
unfolding decrypt_file_password
accepts_lem b r pass seed out h =
    let ((e, r'), reads, h1) = >>=-eq-ok (read_envelope b r) _ h in
    let (fek, unwraps, opens) = >>=-eq-ok (unwrap_password_file_key b e pass seed) _ h1 in
    steps_lem b r r' e pass seed fek out reads (unwrap-Unwraps b e pass seed fek unwraps) opens

-- A file that the encryption with a password wrote is accepted by the verification with the same password and seed,
-- under the conditions of decryption: no read fails, the primitives keep their laws, the plaintext has fewer than
-- 2^64 bytes, as many as the length given, the file key has 32, and the codec gives back the envelope.
pub verify_file-encrypt_file_password :
    (b : Backend) (d : Draws) (r r' : Reader) (pass : Bytes) (seed : Option Bytes)
    (profile : SecurityProfile) (policy : Option CapsulePolicy) (overridden : Bool)
    (ct : Option ContentType) (xs file : Bytes)
    → Laws b.prims
    → ((wrapped hash : Bytes)
        → Decodes b (with_hash (password_draft d (length xs) profile overridden ct wrapped) hash))
    → All IsByte d.fek
    → length d.fek ≡ 32
    → All IsByte xs
    → length xs < 2 ^ 64
    → IsSteady r
    → content r ≡ xs
    → encrypt_file_password b d (length xs) r pass seed profile policy overridden ct ≡ ok file
    → IsSteady r'
    → content r' ≡ file
    → verify_file_password b r' pass seed ≡ ok tt
verify_file-encrypt_file_password b d r r' pass seed profile policy overridden ct xs file laws codec
      key_bytes key_size bytes bound st same enc st' same' =
    accepts_lem b r' pass seed xs (
      decrypt_file-encrypt_file_password b d r r' pass seed profile policy overridden ct xs file
        laws codec key_bytes key_size bytes bound st same enc st' same')
