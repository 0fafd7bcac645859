-- ===== src/Capsule/RoundTrip.antt =====
-- What either encryption seals, the reader and the payload stream open again.
use lvau.Base.{
  ℕ, ◌^◌, ◌<◌, ◌≡◌, refl, sym, ap, ◌∙◌, Bool, true, false, not, ◌&&◌, Option, [], ◌++◌, length,
  is_empty, leb, ltb, ltb→lt, arith, All,
}
use lvau.Base.Bytes.{Bytes, IsByte, to_le_bytes}
use lvau.Error.{
  Result, ok, require, map_err, >>=-eq-ok, map_err-eq-ok, require-eq-ok, serialization,
}
use lvau.Envelope.{Envelope, SecurityProfile, fast, balanced, archive, paranoid, extreme, validate}
use lvau.Primitives.{Laws}
use lvau.Reader.{Reader, content, IsSteady}
use lvau.Payload.Chunk.{IsReady}
use lvau.Payload.Stream.{stream_encrypt_payload, stream_decrypt_payload}
use lvau.Payload.Stream.RoundTrip.{stream_decrypt-stream_encrypt}
use lvau.Policy.{CapsulePolicy}
use lvau.Capsule.{
  Backend, max_envelope_size, compute_aad_hash, validate_envelope_resources, needs_secondary_nonce,
  read_envelope,
}
use lvau.Capsule.Encrypt.{
  hkdf, algorithm_for, secondary_for, with_hash, check_policy, write_envelope_and_payload, seal,
}
use lvau.Capsule.Decrypt.{open_payload}
use lvau.Capsule.Written.{decode_from, read_written}

-- `take_from_bytes` undoes `to_allocvec` on this envelope.
abbrev pub Decodes : Backend → Envelope → Type 0
Decodes b e = (bytes : Bytes) → b.encode_envelope e ≡ ok bytes → b.take_envelope bytes ≡ ok (e, [])

-- What a successful sealing has passed.
record Passed (b : Backend) (d : Envelope) (fek : Bytes) (r : Reader) (file : Bytes) : Type 0 where
  pub hash : Bytes
  pub computed : compute_aad_hash b d ≡ ok hash
  pub resources : validate_envelope_resources (with_hash d hash) ≡ ok tt
  pub encoded : Bytes
  pub encodes : b.encode_envelope (with_hash d hash) ≡ ok encoded
  pub nonempty : is_empty encoded ≡ false
  pub fits : leb (length encoded) max_envelope_size ≡ true
  pub small : length encoded < 2 ^ 32
  pub payload : Bytes
  pub count : ℕ
  pub encrypts :
      stream_encrypt_payload b.prims d.header.algorithm d.header.version
        (hkdf fek)
        d.nonce
        d.secondary_nonce
        hash
        r
      ≡ ok (payload, count)
  pub whole : file ≡ to_le_bytes 4 (length encoded) ++ (encoded ++ payload)

unit-eq : {E : Type 0} (m : Result (Unit {0}) E) {u : Unit {0}} → m ≡ ok u → m ≡ ok tt
unit-eq m h = h

seal-Passed :
    (b : Backend) (d : Envelope) (fek : Bytes) (policy : Option CapsulePolicy) (overridden : Bool)
    (r : Reader) (file : Bytes)
    → seal b d fek policy overridden r ≡ ok file
    → Passed b d fek r file
unfolding seal write_envelope_and_payload
seal-Passed b d fek policy overridden r file h =
    let (hash, computed, h1) = >>=-eq-ok (compute_aad_hash b d) _ h in
    let (_, resources, h2) = >>=-eq-ok (validate_envelope_resources (with_hash d hash)) _ h1 in
    let (_, allowed, h3) = >>=-eq-ok (check_policy policy overridden (with_hash d hash)) _ h2 in
    let (encoded, enc, h4) =
      >>=-eq-ok (map_err serialization (b.encode_envelope (with_hash d hash))) _ h3 in
    let (_, size, h5) =
      >>=-eq-ok (require (not (is_empty encoded) && leb (length encoded) max_envelope_size) _) _
        h4 in
    let (_, width, h6) = >>=-eq-ok (require (ltb (length encoded) (2 ^ 32)) _) _ h5 in
    let ((payload, count), encrypts, h7) =
      >>=-eq-ok
        (stream_encrypt_payload b.prims d.header.algorithm d.header.version (hkdf fek) d.nonce
          d.secondary_nonce hash r)
        _ h6 in
    let sized =
      require-eq-ok (not (is_empty encoded) && leb (length encoded) max_envelope_size) _ size in
    record {
      hash = hash;
      computed = computed;
      resources = resources;
      encoded = encoded;
      encodes = map_err-eq-ok serialization _ enc;
      nonempty = ground arith;
      fits = ground arith;
      small = ltb→lt _ _ (require-eq-ok (ltb (length encoded) (2 ^ 32)) _ width);
      payload = payload;
      count = count;
      encrypts = encrypts;
      whole = cc;
    }

-- Every profile selects a payload algorithm, and draws the second nonce that it needs.
pub ready_lem :
    (profile : SecurityProfile) (sn : Bytes)
    → IsReady (algorithm_for profile) (secondary_for (algorithm_for profile) sn)
unfolding algorithm_for needs_secondary_nonce
ready_lem fast sn = tt
ready_lem balanced sn = tt
ready_lem archive sn = tt
ready_lem paranoid sn = (sn, refl)
ready_lem extreme sn = (sn, refl)

same_hash :
    (b : Backend) (d : Envelope) (hash : Bytes)
    → compute_aad_hash b (with_hash d hash) ≡ compute_aad_hash b d
unfolding compute_aad_hash
same_hash b d hash = refl

same_check : (d : Envelope) (hash : Bytes) → validate (with_hash d hash) ≡ validate d
unfolding validate
same_check d hash = refl

-- A sealed file, read back: the envelope, and the payload under its file key.
pub record Reopened (b : Backend) (d : Envelope) (fek xs : Bytes) (r : Reader) : Type 0 where
  pub hash : Bytes
  pub left : Reader
  pub reads : read_envelope b r ≡ ok (with_hash d hash, left)
  pub opens : open_payload b (with_hash d hash) fek left ≡ ok xs

pub reopen :
    (b : Backend) (d : Envelope) (fek : Bytes) (policy : Option CapsulePolicy) (overridden : Bool)
    (xs file : Bytes) (r r' : Reader)
    → Laws b.prims
    → ((hash : Bytes) → Decodes b (with_hash d hash))
    → IsReady d.header.algorithm d.secondary_nonce
    → validate d ≡ ok tt
    → d.plaintext_len ≡ length xs
    → All IsByte xs
    → length xs < 2 ^ 64
    → IsSteady r
    → content r ≡ xs
    → seal b d fek policy overridden r ≡ ok file
    → IsSteady r'
    → content r' ≡ file
    → Reopened b d fek xs r'
unfolding open_payload
reopen b d fek policy overridden xs file r r' laws codec ready valid len bytes bound st same sealed
      st' same' =
    let p = seal-Passed b d fek policy overridden r file sealed in
    let e = with_hash d p.hash in
    let decoded =
      decode_from b p.encoded e p.hash (codec p.hash p.encoded p.encodes)
        (same_check d p.hash ∙ valid) p.resources (same_hash b d p.hash ∙ p.computed) refl in
    let o =
      read_written b e p.encoded p.payload r' decoded p.nonempty p.fits p.small st'
        (same' ∙ p.whole) in
    let (count, back) =
      stream_decrypt-stream_encrypt b.prims d.header.algorithm d.header.version (hkdf fek) d.nonce
        d.secondary_nonce p.hash xs p.payload p.count r o.left laws ready bytes bound st same
        p.encrypts o.steady o.rest_eq in
    record {
      hash = p.hash;
      left = o.left;
      reads = o.returned;
      opens =
          ap
            (λ n.
              stream_decrypt_payload b.prims d.header.algorithm d.header.version (hkdf fek) d.nonce
                d.secondary_nonce p.hash n o.left)
            (len ∙ sym count)
          ∙ back;
    }
