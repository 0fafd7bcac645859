-- ===== src/Capsule/Keypair.antt =====
-- A file encrypted for key pairs is decrypted by each of them: encrypt_file_keypairs and decrypt_file_keypair.
use lvau.Base.{
  ℕ, ◌^◌, ◌<◌, ◌≡◌, refl, sym, ap, ◌∙◌, Bool, Option, none, some, List, [], ◌∷◌, ◌++◌, length,
  arith, All,
}
use lvau.Base.Bytes.{Bytes, IsByte, bytes_eq}
use lvau.Error.{ok, >>=-eq-ok}
use lvau.Envelope.{Envelope, Recipient, ContentType, SecurityProfile, validate}
use lvau.Primitives.{Laws}
use lvau.Reader.{Reader, content, IsSteady}
use lvau.Policy.{CapsulePolicy}
use lvau.Capsule.{Backend}
use lvau.Capsule.Encrypt.{
  Draws, algorithm_for, secondary_for, draft, with_hash, HybridPublicKey, RecipientDraws, wrap_for,
  wrap_all, hybrid_header, encrypt_file_keypairs,
}
use lvau.Capsule.Decrypt.{
  HybridPrivateKey, try_recipient, first_key, unwrap_keypair_file_key, decrypt_file_keypair,
}
use lvau.Capsule.Keys.{Agree, try_recipient-wrap_for, first_key_lem}
use lvau.Capsule.RoundTrip.{Decodes, ready_lem, reopen}

abbrev pub keypair_draft :
    Draws → ℕ → SecurityProfile → Bool → Option ContentType → List Recipient → Envelope
keypair_draft d len profile overridden content_type recipients =
    draft (hybrid_header profile recipients) len d.nonce
      (secondary_for (algorithm_for profile) d.secondary) content_type overridden

valid_draft :
    (d : Draws) (len : ℕ) (profile : SecurityProfile) (overridden : Bool) (ct : Option ContentType)
    (rs : List Recipient)
    → validate (keypair_draft d len profile overridden ct rs) ≡ ok tt
unfolding validate bytes_eq
valid_draft d len profile overridden ct rs = refl

-- The loop's recipients, with the one of a chosen key in the middle.
record Middle (b : Backend) (fek : Bytes) (earlier : List (HybridPublicKey × RecipientDraws))
    (key : HybridPublicKey) (d : RecipientDraws) (recipients : List Recipient) : Type 0 where
  pub before : List Recipient
  pub made : wrap_all b fek earlier ≡ ok before
  pub r : Recipient
  pub wraps : wrap_for b fek key d ≡ ok r
  pub after : List Recipient
  pub whole : recipients ≡ before ++ r ∷ after

wrap_all-Middle :
    (b : Backend) (fek : Bytes) (earlier : List (HybridPublicKey × RecipientDraws))
    (key : HybridPublicKey) (d : RecipientDraws) (later : List (HybridPublicKey × RecipientDraws))
    (recipients : List Recipient)
    → wrap_all b fek (earlier ++ (key, d) ∷ later) ≡ ok recipients
    → Middle b fek earlier key d recipients
unfolding wrap_all
wrap_all-Middle b fek [] key d later recipients h =
    let (r, wraps, h1) = >>=-eq-ok (wrap_for b fek key d) _ h in
    let (after, rest, h2) = >>=-eq-ok (wrap_all b fek later) _ h1 in
    record { before = []; made = refl; r = r; wraps = wraps; after = after; whole = cc }
wrap_all-Middle b fek ((k, e) ∷ earlier) key d later recipients h =
    let (q, wrapped, h1) = >>=-eq-ok (wrap_for b fek k e) _ h in
    let (others, rest, h2) = >>=-eq-ok (wrap_all b fek (earlier ++ (key, d) ∷ later)) _ h1 in
    let m = wrap_all-Middle b fek earlier key d later others rest in
    let heads : q ∷ others ≡ recipients = cc in
    let split : recipients ≡ q ∷ m.before ++ m.r ∷ m.after = sym heads ∙ ap (◌∷◌ q) m.whole in
    record {
      before = q ∷ m.before;
      made = rw (wrapped, m.made);
      r = m.r;
      wraps = m.wraps;
      after = m.after;
      whole = split;
    }

unwrap_lem :
    (b : Backend) (e : Envelope) (private : HybridPrivateKey) (before : List Recipient)
    (r : Recipient) (after : List Recipient) (fek : Bytes)
    → e.header.recipients ≡ before ++ r ∷ after
    → All (λ q. try_recipient b private q ≡ none) before
    → try_recipient b private r ≡ some fek
    → unwrap_keypair_file_key b e private ≡ ok fek
unfolding unwrap_keypair_file_key
unwrap_lem b e private before r after fek whole refused opens =
    ap (first_key b private) whole ∙ first_key_lem b private before r after fek refused opens

-- A file encrypted for a list of public keys is decrypted to its plaintext by a private key that fits one of
-- them, wherever that stands in the list, if it opens no earlier recipient: under the conditions of the decryption
-- with a password, and where the two sides of both key exchanges agree.
pub decrypt_file-encrypt_file_keypairs :
    (b : Backend) (d : Draws) (r r' : Reader)
    (earlier later : List (HybridPublicKey × RecipientDraws)) (public : HybridPublicKey)
    (draws : RecipientDraws) (private : HybridPrivateKey) (profile : SecurityProfile)
    (policy : Option CapsulePolicy) (overridden : Bool) (ct : Option ContentType) (xs file : Bytes)
    → Laws b.prims
    → ((rs : List Recipient) (hash : Bytes)
        → wrap_all b d.fek (earlier ++ (public, draws) ∷ later) ≡ ok rs
        → Decodes b (with_hash (keypair_draft d (length xs) profile overridden ct rs) hash))
    → Agree b public private draws
    → ((before : List Recipient)
        → wrap_all b d.fek earlier ≡ ok before
        → All (λ q. try_recipient b private q ≡ none) before)
    → All IsByte d.fek
    → length d.fek ≡ 32
    → All IsByte xs
    → length xs < 2 ^ 64
    → IsSteady r
    → content r ≡ xs
    → encrypt_file_keypairs b d
        (length xs)
        r
        (earlier ++ (public, draws) ∷ later)
        profile
        policy
        overridden
        ct
      ≡ ok file
    → IsSteady r'
    → content r' ≡ file
    → decrypt_file_keypair b r' private ≡ ok xs
unfolding decrypt_file_keypair encrypt_file_keypairs
decrypt_file-encrypt_file_keypairs b d r r' earlier later public draws private profile policy
      overridden ct xs file laws codec agree refused key_bytes key_size bytes bound st same enc st'
      same' =
    let (rs, wraps, seals) =
      >>=-eq-ok (wrap_all b d.fek (earlier ++ (public, draws) ∷ later)) _ enc in
    let m = wrap_all-Middle b d.fek earlier public draws later rs wraps in
    let o =
      reopen b (keypair_draft d (length xs) profile overridden ct rs) d.fek policy overridden xs
        file r r' laws (λ hash. codec rs hash wraps) (ready_lem profile d.secondary)
        (valid_draft d (length xs) profile overridden ct rs) refl bytes bound st same seals st'
        same' in
    let opens =
      try_recipient-wrap_for b d.fek public private draws m.r laws key_bytes (omega arith) agree
        m.wraps in
    let key =
      unwrap_lem b (with_hash (keypair_draft d (length xs) profile overridden ct rs) o.hash) private
        m.before m.r m.after d.fek m.whole (refused m.before m.made) opens in
    rw (o.reads, key) o.opens
