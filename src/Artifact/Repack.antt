-- ===== src/Artifact/Repack.antt =====
-- An envelope that is changed outside its committed fields is accepted as before, and its payload opens as before.
use lvau.Base.{
  take_front, drop_front, drop_first, ℕ, ◌+◌, ◌-◌, ◌^◌, ◌≤◌, ◌<◌, ◌≡◌, refl, sym, ap, ◌∙◌, true,
  not, ◌&&◌, Option, none, some, [], ◌∷◌, ◌++◌, String, length, take, drop, is_empty, leb, ltb,
  ltb→lt, ◌==◌, arith, take_eq, drop-drop, length-append,
}
use lvau.Base.Bytes.{
  Bytes, codes, to_le_bytes, from_le_bytes, length-to_le_bytes, from_le_bytes-to_le_bytes,
}
use lvau.Error.{
  Result, ok, ok_or, ◌>>=◌, CryptoError, decryption_failed, missing_kdf_params, map_err, require,
  >>=-eq-ok, map_err-eq-ok, require-eq-ok,
}
use lvau.Envelope.{Envelope, validate}
use lvau.Reader.{Reader}
use lvau.Capsule.{
  Backend, max_envelope_size, compute_aad_hash, validate_envelope_resources, decode_envelope_bytes,
}
use lvau.Capsule.Decrypt.{
  cursor, find_password, unwrap_key_xchacha, unwrap_keypair_file_key, HybridPrivateKey,
  open_payload, decrypt_memory_password, decrypt_memory_keypair,
}
use lvau.Capsule.Encrypt.{hkdf, derive_master_key}
use lvau.Capsule.Written.{decode_from}
use lvau.Capsule.Checked.{validate_envelope_resources_iff}
use lvau.Capsule.Policed.{decode_envelope_bytes-eq-ok}
use lvau.Artifact.{get_range, decode_capsule_envelope, encode_envelope_checked, encode_capsule}
use lvau.Artifact.Cursor.{read_envelope-decode}

-- The envelope without the fields that no commitment covers.
abbrev pub core : Envelope → Envelope
core e = record e {
  signature = none;
  approvals = [];
  release_metadata = none;
  recovery_metadata = none;
}

-- Two envelopes that differ in those fields at most.
abbrev pub Keeps : Envelope → Envelope → Type 0
Keeps e e' = core e' ≡ core e

validate-core : (e : Envelope) → validate (core e) ≡ validate e
unfolding validate
validate-core e = refl

resources-core :
    (e : Envelope) → validate_envelope_resources (core e) ≡ validate_envelope_resources e
unfolding validate_envelope_resources
resources-core e = refl

compute_aad_hash-core :
    (b : Backend) (e : Envelope) → compute_aad_hash b (core e) ≡ compute_aad_hash b e
unfolding compute_aad_hash
compute_aad_hash-core b e = refl

-- The decoder accepts such an envelope if it accepted the other.
pub decode-Keeps :
    (b : Backend) (bytes new : Bytes) (e e' : Envelope)
    → decode_envelope_bytes b bytes ≡ ok e
    → Keeps e e'
    → b.take_envelope new ≡ ok (e', [])
    → decode_envelope_bytes b new ≡ ok e'
decode-Keeps b bytes new e e' decoded same taken =
    let (_, valid, acceptable, hash) = decode_envelope_bytes-eq-ok b bytes e decoded in
    decode_from b new e' e.aad_hash taken
      (sym (validate-core e') ∙ ap validate same ∙ validate-core e ∙ valid)
      (sym (resources-core e')
        ∙ ap validate_envelope_resources same
        ∙ resources-core e
        ∙ (validate_envelope_resources_iff e).1 acceptable)
      (sym (compute_aad_hash-core b e')
        ∙ ap (compute_aad_hash b) same
        ∙ compute_aad_hash-core b e
        ∙ hash)
      (ap (λ x. x.aad_hash) (sym same))

after_read_password : Backend → Bytes → Option Bytes → Reader → Envelope → Result Bytes CryptoError
after_read_password b pass seed r e = do
  kdf ← ok_or e.header.kdf missing_kdf_params
  master ← derive_master_key b pass seed kdf
  kwk ← ok_or (b.prims.expand (hkdf master) (codes "Lvau-Key-Wrap") 32) decryption_failed
  (nonce, wrapped) ← ok_or (find_password e.header.recipients) decryption_failed
  fek ← unwrap_key_xchacha b wrapped kwk nonce
  open_payload b e fek r

after_read_keypair : Backend → HybridPrivateKey → Reader → Envelope → Result Bytes CryptoError
after_read_keypair b key r e = unwrap_keypair_file_key b e key >>= λ fek. open_payload b e fek r

password-core :
    (b : Backend) (pass : Bytes) (seed : Option Bytes) (r : Reader) (e : Envelope)
    → after_read_password b pass seed r (core e) ≡ after_read_password b pass seed r e
unfolding after_read_password open_payload
password-core b pass seed r e = refl

keypair-core :
    (b : Backend) (key : HybridPrivateKey) (r : Reader) (e : Envelope)
    → after_read_keypair b key r (core e) ≡ after_read_keypair b key r e
unfolding after_read_keypair unwrap_keypair_file_key open_payload
keypair-core b key r e = refl

-- Two capsules that decrypt alike, whatever is given to open them.
abbrev pub OpensAlike : Backend → Bytes → Bytes → Type 0
OpensAlike b file file' =
    ((pass : Bytes) (seed : Option Bytes)
      → decrypt_memory_password b file' pass seed ≡ decrypt_memory_password b file pass seed)
    × ((key : HybridPrivateKey)
        → decrypt_memory_keypair b file' key ≡ decrypt_memory_keypair b file key)

pub Keeps-OpensAlike :
    {E : Type 0} (b : Backend) (error : E) (file file' : Bytes) (e e' : Envelope) (end_ end' : ℕ)
    → decode_capsule_envelope b error file ≡ ok (e, end_)
    → decode_capsule_envelope b error file' ≡ ok (e', end')
    → Keeps e e'
    → drop end' file' ≡ drop end_ file
    → OpensAlike b file file'
unfolding decrypt_memory_password decrypt_memory_keypair after_read_password after_read_keypair
Keeps-OpensAlike b error file file' e e' end_ end' h h' same rest =
    let here = read_envelope-decode b error file e end_ h in
    let there = read_envelope-decode b error file' e' end' h' in
    (
      λ pass seed.
          let r = cursor (drop end_ file) in
          let alike : after_read_password b pass seed r e' ≡ after_read_password b pass seed r e =
            sym (password-core b pass seed r e')
            ∙ ap (after_read_password b pass seed r) same
            ∙ password-core b pass seed r e in
          rw (here, there, rest) alike,
      λ key.
          let r = cursor (drop end_ file) in
          let alike : after_read_keypair b key r e' ≡ after_read_keypair b key r e =
            sym (keypair-core b key r e')
            ∙ ap (after_read_keypair b key r) same
            ∙ keypair-core b key r e in
          rw (here, there, rest) alike,
    )

leb-true : (a b : ℕ) → a ≤ b → leb a b ≡ true
leb-true a b h = ground arith

-- The range where a part lies.
pub get_range_at :
    (xs ys zs : Bytes) (a c : ℕ)
    → length xs ≡ a
    → a + length ys ≡ c
    → get_range a c (xs ++ (ys ++ zs)) ≡ some ys
unfolding get_range
get_range_at xs ys zs a c h k =
    let inside : c ≤ length (xs ++ (ys ++ zs)) =
      omega (arith, h, k, length-append {0} xs (ys ++ zs), length-append {0} ys zs) in
    let part : take (c - a) (drop a (xs ++ (ys ++ zs))) ≡ ys =
      ap (take (c - a)) (drop_first xs (ys ++ zs) a h)
      ∙ take_eq (c - a) (length ys) (ys ++ zs) (omega (arith, k))
      ∙ take_front ys zs in
    rw (leb-true a c (omega (arith, k)), leb-true c (length (xs ++ (ys ++ zs))) inside, part) refl

-- What was put together is taken apart again.
pub decode-encode_capsule :
    {E E' : Type 0} (b : Backend) (serialization : String → E) (error : E) (error' : E')
    (e : Envelope) (rest file : Bytes)
    → encode_capsule b serialization error e rest ≡ ok file
    → ((bytes : Bytes) → b.encode_envelope e ≡ ok bytes → decode_envelope_bytes b bytes ≡ ok e)
    → (end_ : ℕ) × (decode_capsule_envelope b error' file ≡ ok (e, end_)) × (drop end_ file ≡ rest)
unfolding encode_capsule encode_envelope_checked decode_capsule_envelope
decode-encode_capsule b serialization error error' e rest file h decodes =
    let (bytes, c1, h1) = >>=-eq-ok (encode_envelope_checked b serialization error e) _ h in
    let (bytes', c2, h2) = >>=-eq-ok (map_err serialization (b.encode_envelope e)) _ c1 in
    let (_, c3, h3) =
      >>=-eq-ok (require (not (is_empty bytes') && leb (length bytes') max_envelope_size) error) _
        h2 in
    let (_, c4, h4) = >>=-eq-ok (require (ltb (length bytes) (2 ^ 32)) error) _ h1 in
    let same : bytes' ≡ bytes = cc in
    let whole : to_le_bytes 4 (length bytes) ++ (bytes ++ rest) ≡ file = cc in
    let sized : (not (is_empty bytes) && leb (length bytes) max_envelope_size) ≡ true =
      ap (λ z. not (is_empty z) && leb (length z) max_envelope_size) (sym same)
      ∙ require-eq-ok (not (is_empty bytes') && leb (length bytes') max_envelope_size) error c3 in
    let decoded =
      decodes bytes (map_err-eq-ok serialization (b.encode_envelope e) c2 ∙ ap ok same) in
    parts_of bytes rest file (ltb→lt _ _ (require-eq-ok (ltb (length bytes) (2 ^ 32)) error c4))
      sized whole decoded
  where
    nonempty :
        (xs : Bytes)
        → (not (is_empty xs) && leb (length xs) max_envelope_size) ≡ true
        → (not (length xs == 0) && leb (length xs) max_envelope_size) ≡ true
    nonempty [] k = absurd (cc)
    nonempty (x ∷ xs) k = ground arith

    parts_of :
        (bytes rest file : Bytes)
        → length bytes < 2 ^ 32
        → (not (is_empty bytes) && leb (length bytes) max_envelope_size) ≡ true
        → to_le_bytes 4 (length bytes) ++ (bytes ++ rest) ≡ file
        → decode_envelope_bytes b bytes ≡ ok e
        → (end_ : ℕ) × (decode_capsule_envelope b error' file ≡ ok (e, end_))
          × (drop end_ file ≡ rest)
    parts_of bytes rest file small sized whole decoded =
        let field = to_le_bytes 4 (length bytes) in
        let four : length field ≡ 4 = length-to_le_bytes 4 (length bytes) in
        let first : get_range 0 4 file ≡ some field =
          ap (get_range 0 4) (sym whole)
          ∙ get_range_at [] field (bytes ++ rest) 0 4 refl (omega (arith, four)) in
        let second : get_range 4 (4 + length bytes) file ≡ some bytes =
          ap (get_range 4 (4 + length bytes)) (sym whole)
          ∙ get_range_at field bytes rest 4 (4 + length bytes) four refl in
        let value : from_le_bytes field ≡ length bytes =
          from_le_bytes-to_le_bytes 4 (length bytes) (omega (arith, small)) in
        let after : drop (4 + length bytes) file ≡ rest =
          sym (drop-drop (length bytes) 4 file)
          ∙ ap (drop (length bytes))
              (ap (drop 4) (sym whole) ∙ drop_first field (bytes ++ rest) 4 four)
          ∙ drop_front bytes rest in
        (4 + length bytes, rw (first, value, nonempty bytes sized, second, decoded) refl, after)
