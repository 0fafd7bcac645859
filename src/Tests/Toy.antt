-- ===== src/Tests/Toy.antt =====
-- Small functions in place of the cryptographic crates: they satisfy the laws, and hide nothing.
use lvau.Base.{
  ℕ, zero, suc, ◌-◌, ◌≡◌, refl, ap, ◌∙◌, true, some, List, [], ◌∷◌, ◌++◌, String, length, take,
  drop, replicate, length-replicate, drop-append, drop_of_length_le, take-append, take_of_length_le,
  length-append, All, All-append, append-nil, arith,
}
use lvau.Base.Bytes.{Bytes, IsByte}
use lvau.Error.{Result, ok, err}
use lvau.Envelope.{Envelope, Recipient}
use lvau.Primitives.{Aead, AeadLaws, Primitives, Laws}
use lvau.Reader.{content, IsSteady}
use lvau.Capsule.Decrypt.{cursor}
use lvau.Capsule.{Backend, wrapped_key}

-- Sixteen zeros are the tag.
abbrev pub toy_aead : Aead
toy_aead = record {
  encrypt = λ key nonce aad msg. some (msg ++ replicate 16 0);
  decrypt = λ key nonce aad msg. some (take (length msg - 16) msg);
}

zeros : (n : ℕ) → All IsByte (replicate n 0)
zeros zero = tt
zeros (suc n) = (omega arith, zeros n)

untag : (msg : Bytes) → take (length (msg ++ replicate 16 0) - 16) (msg ++ replicate 16 0) ≡ msg
untag msg =
    let size : length (msg ++ replicate 16 0) - 16 ≡ length msg =
      omega (arith, length-append {0} msg (replicate 16 0), length-replicate {A = ℕ} 16 0) in
    ap (λ n. take n (msg ++ replicate 16 0)) size
    ∙ take-append (length msg) msg (replicate 16 0) (omega arith)
    ∙ take_of_length_le (length msg) msg (omega arith)

pub toy_aead-AeadLaws : AeadLaws toy_aead
toy_aead-AeadLaws key nonce aad msg bytes small = record {
  sealed = msg ++ replicate 16 0;
  encrypted = refl;
  decrypted = ap some (untag msg);
  tagged = omega (arith, length-append {0} msg (replicate 16 0), length-replicate {A = ℕ} 16 0);
  sealed_bytes = All-append IsByte msg (replicate 16 0) bytes (zeros 16);
}

abbrev pub toy_primitives : Primitives
toy_primitives = record {
  xchacha = toy_aead;
  aes_gcm = toy_aead;
  expand = λ hk info n. some (replicate n 7);
  sha256 = λ bytes. replicate 32 9;
}

pub toy-Laws : Laws toy_primitives
toy-Laws = record {
  xchacha_laws = toy_aead-AeadLaws;
  aes_gcm_laws = toy_aead-AeadLaws;
  expand_law = λ hk info n small. (replicate n 7, refl, length-replicate n 7);
}

unfoldable pub first_wrapped : List Recipient → Bytes
first_wrapped [] = []
first_wrapped (r ∷ rs) = wrapped_key r

-- The codec of envelopes that differ from a template in one wrapped key and the commitment.
unfoldable pub toy_encode : Envelope → Bytes
toy_encode e = let w = first_wrapped e.header.recipients in length w ∷ w ++ e.aad_hash

unfoldable pub toy_take : (Bytes → Envelope) → Bytes → Result (Envelope × Bytes) String
toy_take template [] = err "empty"
toy_take template (n ∷ rest) = ok (record (template (take n rest)) { aad_hash = drop n rest }, [])

abbrev pub toy_backend : (Bytes → Envelope) → Backend
toy_backend template = record {
  prims = toy_primitives;
  encode_envelope = λ e. ok (toy_encode e);
  encode_header = λ h. ok (1 ∷ []);
  encode_aad = λ a. ok (2 ∷ []);
  take_envelope = toy_take template;
  take_legacy = λ bytes. err "no legacy envelope";
  bad_encoding = "trailing bytes";
  params_accepted = λ m t p. true;
  secret_accepted = λ s. true;
  argon2id = λ kdf seed pass. some (replicate 32 4);
  x25519_public = λ s. 1 ∷ s;
  diffie_hellman = λ s p. replicate 32 5;
  was_contributory = λ s. true;
  encapsulate = λ key random. (random, 6 ∷ random);
  ciphertext_accepted = λ c. true;
  decapsulate = λ key c. 6 ∷ c;
}

pub toy_take_lem :
    (template : Bytes → Envelope) (w hash : Bytes)
    → first_wrapped (template w).header.recipients ≡ w
    → toy_take template (toy_encode (record (template w) { aad_hash = hash }))
      ≡ ok (record (template w) { aad_hash = hash }, [])
unfolding toy_take toy_encode
toy_take_lem template w hash same =
    let front : take (length w) (w ++ hash) ≡ w =
      take-append (length w) w hash (omega arith) ∙ take_of_length_le (length w) w (omega arith) in
    let back : drop (length w) (w ++ hash) ≡ hash =
      rw (
        drop-append (length w) w hash (omega arith),
        drop_of_length_le (length w) w (omega arith),
      ) in
    rw (same, front, back) refl

-- A cursor is a steady reader of its bytes.
pub cursor-IsSteady : (xs : Bytes) → IsSteady (cursor xs)
cursor-IsSteady [] = tt
cursor-IsSteady (x ∷ xs) = (omega arith, tt)

pub content-cursor : (xs : Bytes) → content (cursor xs) ≡ xs
unfolding content
content-cursor [] = refl
content-cursor (x ∷ xs) = append-nil (x ∷ xs)
