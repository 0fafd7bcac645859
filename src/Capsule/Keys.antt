-- ===== src/Capsule/Keys.antt =====
-- A wrapped file key comes back under the key that wrapped it: for a password, and for a key pair.
use lvau.Base.{
  ◌^◌, ◌≤◌, ◌≡◌, refl, sym, true, false, not, Option, none, some, List, [], ◌∷◌, ◌++◌, length,
  replicate, All,
}
use lvau.Base.Bytes.{Bytes, IsByte, codes}
use lvau.Error.{ok, ok_or, require, >>=-eq-ok, encryption_failed, validation}
use lvau.Envelope.{Recipient, hybrid}
use lvau.Primitives.{Laws}
use lvau.KeySchedule.{derive_subkey, label, key_wrap}
use lvau.Capsule.{Backend}
use lvau.Capsule.Encrypt.{
  hkdf, wrap_key_xchacha, derive_contributory_x25519, HybridPublicKey, RecipientDraws,
  hybrid_wrap_label, wrap_for, all_zero,
}
use lvau.Capsule.Decrypt.{unwrap_key_xchacha, HybridPrivateKey, try_recipient, first_key}

pub ok_or-eq-ok : {A E : Type 0} (o : Option A) (e : E) {a : A} → ok_or o e ≡ ok a → o ≡ some a
ok_or-eq-ok none e h = absurd (cc)
ok_or-eq-ok (some a) e h = cc

-- The label is the same for encryption and decryption.
pub wrap_label :
    (b : Backend) (master kwk : Bytes)
    → derive_subkey b.prims (hkdf master) key_wrap ≡ ok kwk
    → b.prims.expand (hkdf master) (codes "Lvau-Key-Wrap") 32 ≡ some kwk
unfolding derive_subkey label
wrap_label b master kwk h = ok_or-eq-ok _ _ h

pub unwrap-wrap :
    (b : Backend) (fek wrapping_key nonce wrapped : Bytes)
    → Laws b.prims
    → All IsByte fek
    → length fek ≤ 2 ^ 36
    → wrap_key_xchacha b fek wrapping_key nonce ≡ ok wrapped
    → unwrap_key_xchacha b wrapped wrapping_key nonce ≡ ok fek
unfolding wrap_key_xchacha unwrap_key_xchacha
unwrap-wrap b fek k n wrapped laws bytes small h =
    let s = laws.xchacha_laws k n [] fek bytes small in
    let given = ok_or-eq-ok _ _ h in
    let same : s.sealed ≡ wrapped = cc in rw (sym same, s.decrypted)

-- A key pair whose halves fit, with what is drawn for the recipient: both sides of each exchange agree.
pub record Agree (b : Backend) (public : HybridPublicKey) (private : HybridPrivateKey)
    (d : RecipientDraws) : Type 0 where
  pub exchange :
      b.diffie_hellman private.x25519 (b.x25519_public d.ephemeral)
      ≡ b.diffie_hellman d.ephemeral public.x25519
  pub ephemeral_nonzero : all_zero (b.x25519_public d.ephemeral) ≡ false
  pub accepted : b.ciphertext_accepted (b.encapsulate public.mlkem d.encapsulation).0 ≡ true
  pub same_secret :
      b.decapsulate private.mlkem (b.encapsulate public.mlkem d.encapsulation).0
      ≡ (b.encapsulate public.mlkem d.encapsulation).1

contributory :
    (b : Backend) (s1 p1 s2 p2 shared : Bytes)
    → b.diffie_hellman s1 p1 ≡ b.diffie_hellman s2 p2
    → all_zero p1 ≡ false
    → derive_contributory_x25519 b s2 p2 ≡ ok shared
    → derive_contributory_x25519 b s1 p1 ≡ ok shared
unfolding derive_contributory_x25519
contributory b s1 p1 s2 p2 shared same zero h =
    let (_, checked, h1) =
      >>=-eq-ok
        (require (not (all_zero p2)) (validation "Recipient X25519 public key is non-contributory"))
        _ h in
    rw (zero, same, h1)

pub try_recipient-wrap_for :
    (b : Backend) (fek : Bytes) (public : HybridPublicKey) (private : HybridPrivateKey)
    (d : RecipientDraws) (r : Recipient)
    → Laws b.prims
    → All IsByte fek
    → length fek ≤ 2 ^ 36
    → Agree b public private d
    → wrap_for b fek public d ≡ ok r
    → try_recipient b private r ≡ some fek
unfolding wrap_for try_recipient
try_recipient-wrap_for b fek public private d r laws bytes small agree h =
    let (ss, shared, h1) = >>=-eq-ok (derive_contributory_x25519 b d.ephemeral public.x25519) _ h in
    let (kwk, key, h2) =
      >>=-eq-ok
        (ok_or
          (b.prims.expand (hkdf (ss ++ (b.encapsulate public.mlkem d.encapsulation).1))
            hybrid_wrap_label 32)
          encryption_failed)
        _ h1 in
    let (wrapped, wrap, h3) = >>=-eq-ok (wrap_key_xchacha b fek kwk (replicate 24 0)) _ h2 in
    let made : hybrid (b.x25519_public d.ephemeral) (b.encapsulate public.mlkem d.encapsulation).0
          wrapped
        ≡ r =
      cc in
    rw (
      sym made,
      contributory b private.x25519 (b.x25519_public d.ephemeral) d.ephemeral public.x25519 ss
          agree.exchange agree.ephemeral_nonzero shared,
      agree.accepted,
      agree.same_secret,
      ok_or-eq-ok _ _ key,
      unwrap-wrap b fek kwk (replicate 24 0) wrapped laws bytes small wrap,
    )

-- The loop over the recipients stops at the first that opens.
pub first_key_lem :
    (b : Backend) (key : HybridPrivateKey) (before : List Recipient) (r : Recipient)
    (after : List Recipient) (fek : Bytes)
    → All (λ q. try_recipient b key q ≡ none) before
    → try_recipient b key r ≡ some fek
    → first_key b key (before ++ r ∷ after) ≡ ok fek
unfolding first_key
first_key_lem b key [] r after fek refused opens = rw (first_key, opens) refl
first_key_lem b key (q ∷ before) r after fek (closed, refused) opens =
    rw (first_key, closed) (first_key_lem b key before r after fek refused opens)
