-- ===== src/Tests/Capsule.antt =====
-- Whole capsules over the toy back end.
use lvau.Base.{
  ℕ, zero, suc, ◌≡◌, refl, false, none, some, [], ◌∷◌, ◌++◌, length, replicate, arith,
  length-append, sym, ap, ◌∙◌, All,
}
use lvau.Base.Bytes.{Bytes, IsByte}
use lvau.Error.{ok}
use lvau.Envelope.{extreme, single_file}
use lvau.Reader.{Reader, piece, content}
use lvau.Capsule.{Backend, wrapped_key}
use lvau.Capsule.Encrypt.{Draws, derive_master_key, encrypt_file_password, with_hash}
use lvau.Capsule.Decrypt.{cursor, decrypt_file_password, verify_file_password}
use lvau.Capsule.Password.{password_draft, decrypt_file-encrypt_file_password}
use lvau.Capsule.Verify.{verify_file-encrypt_file_password}
use lvau.Capsule.Total.{Encodes, encrypt_file_password_total}
use lvau.Capsule.RoundTrip.{Decodes}
use lvau.Tests.Toy.{
  toy-Laws, toy_backend, toy_take, toy_encode, toy_take_lem, first_wrapped, cursor-IsSteady,
  content-cursor,
}

abbrev draws : Draws
draws = record {
  salt = replicate 16 1;
  fek = replicate 32 2;
  wrap_nonce = replicate 24 3;
  nonce = replicate 24 4;
  secondary = replicate 12 5;
}

abbrev source : Reader
source = piece (10 ∷ []) ∷ piece (20 ∷ 30 ∷ []) ∷ []

abbrev plain : Bytes
plain = 10 ∷ 20 ∷ 30 ∷ []

plain_bytes : All IsByte plain
plain_bytes = (omega arith, (omega arith, (omega arith, tt)))

fek_bytes : (n : ℕ) → All IsByte (replicate n 2)
fek_bytes zero = tt
fek_bytes (suc n) = (omega arith, fek_bytes n)

abbrev password_bytes : Bytes
password_bytes = 112 ∷ 119 ∷ []

abbrev toy_password : Backend
toy_password = toy_backend (password_draft draws 3 extreme false (some single_file))

password-Encodes :
    (wrapped : Bytes)
    → length wrapped ≡ 48
    → Encodes toy_password (password_draft draws 3 extreme false (some single_file) wrapped)
unfolding toy_encode first_wrapped wrapped_key
password-Encodes wrapped h = record {
  aad = 2 ∷ [];
  encodes_aad = refl;
  encoded = length wrapped ∷ wrapped ++ replicate 32 9;
  encodes = refl;
  nonempty = omega arith;
  fits = omega (arith, h, length-append {0} wrapped (replicate 32 9));
}

password-Decodes :
    (wrapped hash : Bytes)
    → Decodes toy_password
        (with_hash (password_draft draws 3 extreme false (some single_file) wrapped) hash)
unfolding first_wrapped wrapped_key
password-Decodes wrapped hash bytes h =
    let same : toy_encode
          (with_hash (password_draft draws 3 extreme false (some single_file) wrapped) hash)
        ≡ bytes =
      cc in
    ap (toy_take _) (sym same)
    ∙ toy_take_lem (password_draft draws 3 extreme false (some single_file)) wrapped hash refl

encrypt_file_password_total_example :
    (file : Bytes) × (encrypt_file_password toy_password draws 3 source password_bytes none extreme
        none false
        (some single_file)
      ≡ ok file)
unfolding content derive_master_key
encrypt_file_password_total_example =
    encrypt_file_password_total toy_password draws source password_bytes none extreme none false
      (some single_file) (replicate 32 4) plain toy-Laws password-Encodes (λ wrapped hash. tt)
      (λ h. cc) (λ h. cc) refl (fek_bytes 32) refl plain_bytes (omega arith)
      (omega arith, (omega arith, tt)) refl

encrypt_file_password_total_run :
    (file : Bytes) × (encrypt_file_password toy_password draws 3 source password_bytes none extreme
        none false
        (some single_file)
      ≡ ok file)
unfolding content derive_master_key
encrypt_file_password_total_run =
    encrypt_file_password_total toy_password draws source password_bytes none extreme none false
      (some single_file) (replicate 32 4) plain toy-Laws password-Encodes (λ wrapped hash. tt)
      (λ h. cc) (λ h. cc) refl (fek_bytes 32) refl plain_bytes (omega arith)
      (omega arith, (omega arith, tt)) refl

decrypt_file-encrypt_file_password_example :
    decrypt_file_password toy_password
      (cursor encrypt_file_password_total_run.0)
      password_bytes
      none
    ≡ ok plain
unfolding content first_wrapped wrapped_key
decrypt_file-encrypt_file_password_example =
    decrypt_file-encrypt_file_password toy_password draws source
      (cursor encrypt_file_password_total_run.0) password_bytes none extreme none false
      (some single_file) plain encrypt_file_password_total_run.0 toy-Laws password-Decodes
      (fek_bytes 32) refl plain_bytes (omega arith) (omega arith, (omega arith, tt)) refl
      encrypt_file_password_total_run.1 (cursor-IsSteady encrypt_file_password_total_run.0)
      (content-cursor encrypt_file_password_total_run.0)

verify_file-encrypt_file_password_example :
    verify_file_password toy_password (cursor encrypt_file_password_total_run.0) password_bytes none
    ≡ ok tt
unfolding content first_wrapped wrapped_key
verify_file-encrypt_file_password_example =
    verify_file-encrypt_file_password toy_password draws source
      (cursor encrypt_file_password_total_run.0) password_bytes none extreme none false
      (some single_file) plain encrypt_file_password_total_run.0 toy-Laws password-Decodes
      (fek_bytes 32) refl plain_bytes (omega arith) (omega arith, (omega arith, tt)) refl
      encrypt_file_password_total_run.1 (cursor-IsSteady encrypt_file_password_total_run.0)
      (content-cursor encrypt_file_password_total_run.0)
