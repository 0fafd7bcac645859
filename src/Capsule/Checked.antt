-- ===== src/Capsule/Checked.antt =====
-- What the resource check of an envelope accepts, said without its guards.
use lvau.Base.{
  ℕ, ◌-◌, ◌≤◌, ◌<◌, ◌≡◌, ◌↔◌, ◌⊎◌, inl, inr, refl, sym, ap, ◌∙◌, true, false, not, ◌&&◌, ◌||◌,
  Option, none, some, is_some, List, [], ◌∷◌, length, is_empty, leb, leb→le, ltb, ◌==◌, ==_iff,
  arith, All,
}
use lvau.Base.Bytes.{Bytes}
use lvau.Error.{ok, require, >>=-eq-ok, require-eq-ok, validation}
use lvau.Envelope.{
  Envelope, EnvelopeHeader, KdfParams, Recipient, password, hybrid, SecurityProfile, AlgorithmId,
  xchacha20_poly1305, cascade_aes_gcm_xchacha, triple_cascade_aes_xchacha_lco, x25519, ed25519,
  x25519_mlkem_hybrid, ed25519_mldsa_hybrid,
}
use lvau.Capsule.{
  max_recipients, expected_argon2_costs, is_payload_algorithm, needs_secondary_nonce, is_password,
  count_passwords, wrapped_key, check_wrapped_keys, check_kdf, same_bool,
  validate_envelope_resources,
}

-- The payload algorithms, each with the second nonce that it uses or without one.
abbrev pub IsFitting : AlgorithmId → Option Bytes → Type 0
IsFitting xchacha20_poly1305 second = second ≡ none
IsFitting cascade_aes_gcm_xchacha second = is_some second ≡ true
IsFitting triple_cascade_aes_xchacha_lco second = is_some second ≡ true
IsFitting _ second = ⊥

abbrev pub HasCosts : SecurityProfile → Option KdfParams → Type 0
HasCosts profile none = ⊥
HasCosts profile (some k) =
    let (m, t, p) = expected_argon2_costs profile in
    (k.m_cost ≡ m) × (k.t_cost ≡ t) × (k.p_cost ≡ p)

-- Passwords only, with the profile's costs, or key pairs only, without a derivation.
abbrev pub IsUniform : EnvelopeHeader → Type 0
IsUniform h =
    (All (λ r. is_password r ≡ true) h.recipients × HasCosts h.profile h.kdf)
    ⊎ (All (λ r. is_password r ≡ false) h.recipients × (h.kdf ≡ none))

pub record Acceptable (e : Envelope) : Type 0 where
  pub inhabited : 0 < length e.header.recipients
  pub bounded : length e.header.recipients ≤ 64
  pub wrapped : All (λ r. length (wrapped_key r) ≡ 48) e.header.recipients
  pub uniform : IsUniform e.header
  pub fitting : IsFitting e.header.algorithm e.secondary_nonce

check_wrapped_keys_iff :
    (rs : List Recipient)
    → (check_wrapped_keys rs ≡ ok tt) ↔ All (λ r. length (wrapped_key r) ≡ 48) rs
unfolding check_wrapped_keys
check_wrapped_keys_iff [] = (λ h. tt, λ h. refl)
check_wrapped_keys_iff (r ∷ rs) =
    let rest = check_wrapped_keys_iff rs in
    (
      λ h.
          let (_, here, later) =
            >>=-eq-ok
              (require (length (wrapped_key r) == 48)
                (validation "Invalid wrapped file-key length"))
              _ h in
          ((==_iff (length (wrapped_key r)) 48).0 (require-eq-ok _ _ here), rest.0 later),
      λ (here, later). rw ((==_iff (length (wrapped_key r)) 48).1 here, rest.1 later) refl,
    )

count_le : (rs : List Recipient) → count_passwords rs ≤ length rs
unfolding count_passwords is_password
count_le [] = omega arith
count_le (password n k ∷ rs) = omega (arith, count_le rs)
count_le (hybrid x m k ∷ rs) = omega (arith, count_le rs)

count_none : (rs : List Recipient) → (count_passwords rs ≡ 0) ↔ All (λ r. is_password r ≡ false) rs
unfolding count_passwords is_password
count_none [] = (λ h. tt, λ h. refl)
count_none (password n k ∷ rs) = (λ h. absurd (omega arith), λ (h, t). absurd (cc))
count_none (hybrid x m k ∷ rs) =
    (λ h. (refl, (count_none rs).0 (omega arith)), λ (h, t). omega (arith, (count_none rs).1 t))

count-All :
    (rs : List Recipient) → (count_passwords rs ≡ length rs) ↔ All (λ r. is_password r ≡ true) rs
unfolding count_passwords is_password
count-All [] = (λ h. tt, λ h. refl)
count-All (password n k ∷ rs) =
    (λ h. (refl, (count-All rs).0 (omega arith)), λ (h, t). omega (arith, (count-All rs).1 t))
count-All (hybrid x m k ∷ rs) =
    let below = count_le rs in (λ h. absurd (omega arith), λ (h, t). absurd (cc))

needs_none : (second : Option Bytes) → (same_bool false (is_some second) ≡ true) ↔ (second ≡ none)
needs_none none = (λ h. refl, λ h. refl)
needs_none (some sn) = (λ h. absurd (cc), λ h. absurd (cc))

IsFitting-iff :
    (a : AlgorithmId) (second : Option Bytes)
    → ((is_payload_algorithm a ≡ true)
        × (same_bool (needs_secondary_nonce a) (is_some second) ≡ true))
      ↔ IsFitting a second
unfolding is_payload_algorithm needs_secondary_nonce
IsFitting-iff xchacha20_poly1305 second =
    (λ h. (needs_none second).0 h.1, λ h. (refl, (needs_none second).1 h))
IsFitting-iff cascade_aes_gcm_xchacha second = (λ h. h.1, λ h. (refl, h))
IsFitting-iff triple_cascade_aes_xchacha_lco second = (λ h. h.1, λ h. (refl, h))
IsFitting-iff x25519 second = (λ h. absurd (cc), λ h. absurd h)
IsFitting-iff ed25519 second = (λ h. absurd (cc), λ h. absurd h)
IsFitting-iff x25519_mlkem_hybrid second = (λ h. absurd (cc), λ h. absurd h)
IsFitting-iff ed25519_mldsa_hybrid second = (λ h. absurd (cc), λ h. absurd h)

costs_iff :
    (profile : SecurityProfile) (kdf : Option KdfParams)
    → (check_kdf true kdf profile ≡ ok tt) ↔ HasCosts profile kdf
unfolding check_kdf
costs_iff profile none = (λ h. absurd (cc), λ h. absurd h)
costs_iff profile (some k) =
    let (m, t, p) = expected_argon2_costs profile in
    let same = k.m_cost == m && (k.t_cost == t && k.p_cost == p) in
    (
      λ h.
          let all =
            require-eq-ok same (validation "Argon2id parameters do not match the security profile")
              h in
          ground arith,
      λ (hm, ht, hp).
          rw ((==_iff k.m_cost m).1 hm, (==_iff k.t_cost t).1 ht, (==_iff k.p_cost p).1 hp) refl,
    )

no_kdf_iff :
    (profile : SecurityProfile) (kdf : Option KdfParams)
    → (check_kdf false kdf profile ≡ ok tt) ↔ (kdf ≡ none)
unfolding check_kdf
no_kdf_iff profile none = (λ h. refl, λ h. refl)
no_kdf_iff profile (some k) = (λ h. absurd (cc), λ h. absurd (cc))

not_empty : (rs : List Recipient) → not (is_empty rs) ≡ true → 0 < length rs
not_empty [] h = absurd (cc)
not_empty (r ∷ rs) h = omega arith

inhabited_not_empty : (rs : List Recipient) → 0 < length rs → is_empty rs ≡ false
inhabited_not_empty [] h = absurd (omega arith)
inhabited_not_empty (r ∷ rs) h = refl

le_few : (n : ℕ) → n ≤ 64 → leb n 64 ≡ true
le_few n h = ground arith

one_kind :
    (c n : ℕ)
    → c ≤ n
    → 0 < n
    → (c == 0 || n - c == 0) ≡ true
    → ((c ≡ 0) × (ltb 0 c ≡ false)) ⊎ ((c ≡ n) × (ltb 0 c ≡ true))
one_kind c n le pos h = ground arith

is_all : (c n : ℕ) → 0 < n → c ≡ n → ((c == 0 || n - c == 0) ≡ true) × (ltb 0 c ≡ true)
is_all c n pos h = ground arith

is_none_kind : (c n : ℕ) → c ≡ 0 → ((c == 0 || n - c == 0) ≡ true) × (ltb 0 c ≡ false)
is_none_kind c n h = ground arith

abbrev KindChecked : EnvelopeHeader → Type 0
KindChecked h =
    ((count_passwords h.recipients == 0 || length h.recipients - count_passwords h.recipients == 0)
      ≡ true)
    × (check_kdf (ltb 0 (count_passwords h.recipients)) h.kdf h.profile ≡ ok tt)

kind-IsUniform : (h : EnvelopeHeader) → 0 < length h.recipients → KindChecked h → IsUniform h
kind-IsUniform h pos (kind, kdf) =
    elim (one_kind (count_passwords h.recipients) (length h.recipients) (count_le h.recipients) pos
      kind) [
        | inl (zero_, flag) ↦ inr (
          (count_none h.recipients).0 zero_,
          (no_kdf_iff h.profile h.kdf).0 (ap (λ f. check_kdf f h.kdf h.profile) (sym flag) ∙ kdf),
        )
        | inr (full, flag) ↦ inl (
          (count-All h.recipients).0 full,
          (costs_iff h.profile h.kdf).0 (ap (λ f. check_kdf f h.kdf h.profile) (sym flag) ∙ kdf),
        )
      ]

IsUniform-kind : (h : EnvelopeHeader) → 0 < length h.recipients → IsUniform h → KindChecked h
IsUniform-kind h pos (inl (passwords, costs)) =
    let (kind, flag) =
      is_all (count_passwords h.recipients) (length h.recipients) pos
        ((count-All h.recipients).1 passwords) in
    (kind, ap (λ f. check_kdf f h.kdf h.profile) flag ∙ (costs_iff h.profile h.kdf).1 costs)
IsUniform-kind h pos (inr (pairs, without)) =
    let (kind, flag) =
      is_none_kind (count_passwords h.recipients) (length h.recipients)
        ((count_none h.recipients).1 pairs) in
    (kind, ap (λ f. check_kdf f h.kdf h.profile) flag ∙ (no_kdf_iff h.profile h.kdf).1 without)

-- The resource check accepts an envelope exactly where its recipients are 1 to 64, all their wrapped keys are 48
-- bytes, they are all of one kind, with the profile's Argon2id costs for passwords and no derivation for key pairs,
-- and the algorithm is one for payloads and has a second nonce exactly if it needs one.
pub validate_envelope_resources_iff :
    (e : Envelope) → (validate_envelope_resources e ≡ ok tt) ↔ Acceptable e
unfolding validate_envelope_resources
validate_envelope_resources_iff e = (there, back)
  where
    rs : List Recipient
    rs = e.header.recipients

    there : validate_envelope_resources e ≡ ok tt → Acceptable e
    there h =
        let (_, c1, h1) =
          >>=-eq-ok (require (not (is_empty rs)) (validation "Envelope has no recipients")) _ h in
        let (_, c2, h2) =
          >>=-eq-ok
            (require (leb (length rs) max_recipients)
              (validation "Envelope has too many recipients"))
            _ h1 in
        let (_, c3, h3) =
          >>=-eq-ok
            (require (is_payload_algorithm e.header.algorithm)
              (validation "Unsupported payload encryption algorithm"))
            _ h2 in
        let (_, c4, h4) =
          >>=-eq-ok
            (require (count_passwords rs == 0 || length rs - count_passwords rs == 0)
              (validation "Mixed password and key-pair recipients are unsupported"))
            _ h3 in
        let (_, c5, h5) = >>=-eq-ok (check_wrapped_keys rs) _ h4 in
        let (_, c6, h6) =
          >>=-eq-ok (check_kdf (ltb 0 (count_passwords rs)) e.header.kdf e.header.profile) _ h5 in
        let pos = not_empty rs (require-eq-ok _ _ c1) in
        record {
          inhabited = pos;
          bounded = leb→le _ _ (require-eq-ok _ _ c2);
          wrapped = (check_wrapped_keys_iff rs).0 c5;
          uniform = kind-IsUniform e.header pos (require-eq-ok _ _ c4, c6);
          fitting =
              (IsFitting-iff e.header.algorithm e.secondary_nonce).0
                (require-eq-ok _ _ c3, require-eq-ok _ _ h6);
        }

    back : Acceptable e → validate_envelope_resources e ≡ ok tt
    back a =
        let (kind, kdf) = IsUniform-kind e.header a.inhabited a.uniform in
        let (algorithm, nonce) = (IsFitting-iff e.header.algorithm e.secondary_nonce).1 a.fitting in
        rw
          (
            inhabited_not_empty rs a.inhabited,
            le_few (length rs) a.bounded,
            algorithm,
            kind,
            (check_wrapped_keys_iff rs).1 a.wrapped,
            kdf,
            nonce,
          )
          refl
