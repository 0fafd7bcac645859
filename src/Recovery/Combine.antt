-- ===== src/Recovery/Combine.antt =====
-- When shares are combined, and that a secret's own shares give it back.
use lvau.Base.{
  ℕ, ◌≡◌, ◌≢◌, ◌↔◌, ◌⊎◌, inl, inr, subst, ◌<◌, ◌≤◌, refl, sym, ap, ◌∙◌, Bool, true, false, not,
  ◌&&◌, ◌||◌, Option, none, some, List, [], ◌∷◌, map, length, leb, ltb, ◌==◌, ==_iff, any, all, All,
  arith,
}
use lvau.Base.Bytes.{Bytes, bytes_eq, bytes_eq_iff}
use lvau.Error.{
  ok, require, ok_or, >>=-eq-ok, require-eq-ok, CryptoError, validation, decryption_failed,
}
use lvau.Envelope.{magic_real}
use lvau.Recovery.{
  RecoveryShare, Sharks, AreDistinct, StartsWith, starts_with, is_consistent, check_shares,
  combine_shares,
}

-- A share that fits the first of a list.
pub record Fits (first s : RecoveryShare) : Type 0 where
  pub magic : s.magic ≡ magic_real
  pub known : (1 ≤ s.version) × (s.version ≤ 2)
  pub version : s.version ≡ first.version
  pub threshold : s.threshold ≡ first.threshold
  pub fingerprint : s.fingerprint ≡ first.fingerprint
  pub coordinate : StartsWith s.index s.share_data

abbrev pub Fresh : List ℕ → ℕ → Type 0
Fresh seen i = All (λ j. j ≢ i) seen

starts_with_iff : (d : Bytes) (x : ℕ) → (starts_with d x ≡ true) ↔ StartsWith x d
unfolding starts_with
starts_with_iff [] x = (λ h. absurd (cc), λ h. absurd (cc))
starts_with_iff (b ∷ bs) x = (λ h. ap some ((==_iff b x).0 h), λ h. (==_iff b x).1 (cc))

Fresh-iff : (seen : List ℕ) (i : ℕ) → (any (λ j. j == i) seen ≡ false) ↔ Fresh seen i
Fresh-iff [] i = (λ h. tt, λ h. refl)
Fresh-iff (j ∷ seen) i = ground (arith, Fresh-iff seen i)

consistent-Fits :
    (first : RecoveryShare) (seen : List ℕ) (s : RecoveryShare)
    → is_consistent first seen s ≡ true
    → Fits first s × Fresh seen s.index
unfolding is_consistent
consistent-Fits first seen s h =
    let (m0, m1) = bytes_eq_iff s.magic magic_real in
    let (f0, f1) = bytes_eq_iff s.fingerprint first.fingerprint in
    let (d0, d1) = starts_with_iff s.share_data s.index in
    let (n0, n1) = Fresh-iff seen s.index in
    (
      record {
        magic = ground (arith, m0);
        known = ground arith;
        version = ground arith;
        threshold = ground arith;
        fingerprint = ground (arith, f0);
        coordinate = ground (arith, d0);
      },
      ground (arith, n0),
    )

Fits-consistent :
    (first : RecoveryShare) (seen : List ℕ) (s : RecoveryShare)
    → Fits first s
    → Fresh seen s.index
    → is_consistent first seen s ≡ true
unfolding is_consistent
Fits-consistent first seen s f n =
    let m = (bytes_eq_iff s.magic magic_real).1 f.magic in
    let p = (bytes_eq_iff s.fingerprint first.fingerprint).1 f.fingerprint in
    let d = (starts_with_iff s.share_data s.index).1 f.coordinate in
    let q = (Fresh-iff seen s.index).1 n in
    let v = f.version in
    let t = f.threshold in
    let (low, high) = f.known in
    rw
      (
        m,
        p,
        d,
        q,
        (==_iff s.version first.version).1 v,
        (==_iff s.threshold first.threshold).1 t,
        in_range s.version low high,
      )
      refl
  where
    in_range : (n : ℕ) → 1 ≤ n → n ≤ 2 → (leb 1 n && leb n 2) ≡ true
    in_range n low high = ground arith

split-Fresh :
    (i : ℕ) (seen : List ℕ) (ss : List RecoveryShare)
    → All (λ s. Fresh (i ∷ seen) s.index) ss
    → All (λ j. j ≢ i) (map (λ s. s.index) ss) × All (λ s. Fresh seen s.index) ss
split-Fresh i seen [] h = (tt, tt)
split-Fresh i seen (s ∷ ss) ((other, fresh), rest) =
    let (a, b) = split-Fresh i seen ss rest in (((λ e. other (sym e)), a), (fresh, b))

join-Fresh :
    (i : ℕ) (seen : List ℕ) (ss : List RecoveryShare)
    → All (λ j. j ≢ i) (map (λ s. s.index) ss)
    → All (λ s. Fresh seen s.index) ss
    → All (λ s. Fresh (i ∷ seen) s.index) ss
join-Fresh i seen [] h g = tt
join-Fresh i seen (s ∷ ss) (other, rest) (fresh, more) =
    (((λ e. other (sym e)), fresh), join-Fresh i seen ss rest more)

abbrev Checked : RecoveryShare → List ℕ → List RecoveryShare → Type 0
Checked first seen ss =
    All (Fits first) ss × AreDistinct (map (λ s. s.index) ss) × All (λ s. Fresh seen s.index) ss

pub check_shares_iff :
    (first : RecoveryShare) (seen : List ℕ) (ss : List RecoveryShare)
    → (check_shares first seen ss ≡ ok tt) ↔ Checked first seen ss
unfolding check_shares
check_shares_iff first seen [] = (λ h. (tt, tt, tt), λ h. refl)
check_shares_iff first seen (s ∷ ss) =
    let rest = check_shares_iff first (s.index ∷ seen) ss in
    (
      λ h.
          let (_, here, later) =
            >>=-eq-ok
              (require (is_consistent first seen s)
                (validation "Mismatched, duplicate, or invalid recovery shares"))
              _ h in
          let (fits, fresh) = consistent-Fits first seen s (require-eq-ok _ _ here) in
          let (All-fit, distinct, All-fresh) = rest.0 later in
          let (others, older) = split-Fresh s.index seen ss All-fresh in
          ((fits, All-fit), (others, distinct), (fresh, older)),
      λ ((fits, All-fit), (others, distinct), (fresh, older)).
          rw
            (
              Fits-consistent first seen s fits fresh,
              rest.1 (All-fit, distinct, join-Fresh s.index seen ss others older),
            )
            refl,
    )

-- What combining shares asks of them, and what it returns.
pub record Combines (k : Sharks) (first : RecoveryShare) (others : List RecoveryShare) (out : Bytes)
    : Type 0 where
  pub positive : 0 < first.threshold
  pub enough : first.threshold ≤ length (first ∷ others)
  pub fits : All (Fits first) (first ∷ others)
  pub distinct : AreDistinct (map (λ s. s.index) (first ∷ others))
  pub accepted : all (λ s. k.is_share s.share_data) (first ∷ others) ≡ true
  pub recovered : k.recover first.threshold (map (λ s. s.share_data) (first ∷ others)) ≡ some out
  pub legacy : (first.version ≢ 1) ⊎ (k.sha256 out ≡ first.fingerprint)

pub threshold_iff : (t n : ℕ) → (not (t == 0 || ltb n t) ≡ true) ↔ ((0 < t) × (t ≤ n))
threshold_iff t n = ground arith

pub never-Fresh : (ss : List RecoveryShare) → All (λ s. Fresh [] s.index) ss
never-Fresh [] = tt
never-Fresh (s ∷ ss) = (tt, never-Fresh ss)

legacy-true :
    (version : ℕ) (d p : Bytes)
    → (version ≢ 1) ⊎ (d ≡ p)
    → not (version == 1 && not (bytes_eq d p)) ≡ true
legacy-true version d p (inl h) = ground arith
legacy-true version d p (inr h) = rw ((bytes_eq_iff d p).1 h) (both (version == 1))
  where
    both : (b : Bool) → not (b && false) ≡ true
    both true = refl
    both false = refl

true-legacy :
    (version : ℕ) (d p : Bytes)
    → not (version == 1 && not (bytes_eq d p)) ≡ true
    → (version ≢ 1) ⊎ (d ≡ p)
true-legacy version d p h = let (there, back) = bytes_eq_iff d p in ground (arith, there)

option-eq : {A : Type 0} (o : Option A) (e : CryptoError) {a : A} → ok_or o e ≡ ok a → o ≡ some a
option-eq none e h = absurd (cc)
option-eq (some a) e h = cc

-- Shares are combined to a secret exactly where there are at least as many as the positive threshold of the first
-- one, all have the magic bytes, a known version and the first one's version, threshold and fingerprint, their
-- indices differ from one another and start their data, the data are shares, these recover the secret, and for
-- version 1 the fingerprint is the secret's hash.
pub combine_shares_iff :
    (k : Sharks) (first : RecoveryShare) (others : List RecoveryShare) (out : Bytes)
    → (combine_shares k (first ∷ others) ≡ ok out) ↔ Combines k first others out
unfolding combine_shares
combine_shares_iff k first others out = (there, back)
  where
    shares : List RecoveryShare
    shares = first ∷ others

    there : combine_shares k (first ∷ others) ≡ ok out → Combines k first others out
    there h =
        let (_, c1, h1) =
          >>=-eq-ok
            (require (not (first.threshold == 0 || ltb (length shares) first.threshold))
              (validation "Not enough shares to reach threshold"))
            _ h in
        let (_, c2, h2) = >>=-eq-ok (check_shares first [] shares) _ h1 in
        let (_, c3, h3) =
          >>=-eq-ok
            (require (all (λ s. k.is_share s.share_data) shares)
              (validation "Invalid share data format"))
            _ h2 in
        let (got, c4, h4) =
          >>=-eq-ok
            (ok_or (k.recover first.threshold (map (λ s. s.share_data) shares)) decryption_failed) _
            h3 in
        let (_, c5, h5) =
          >>=-eq-ok
            (require (not (first.version == 1 && not (bytes_eq (k.sha256 got) first.fingerprint)))
              decryption_failed)
            _ h4 in
        let (positive, enough) =
          (threshold_iff first.threshold (length shares)).0 (require-eq-ok _ _ c1) in
        let (fits, distinct, _) = (check_shares_iff first [] shares).0 c2 in
        let same : got ≡ out = cc in
        record {
          positive = positive;
          enough = enough;
          fits = fits;
          distinct = distinct;
          accepted = require-eq-ok _ _ c3;
          recovered = option-eq _ decryption_failed c4 ∙ ap some same;
          legacy = true-legacy first.version (k.sha256 out) first.fingerprint (
              require-eq-ok _ _ (
                subst
                  (λ o.
                    require
                      (not (first.version == 1 && not (bytes_eq (k.sha256 o) first.fingerprint)))
                      decryption_failed
                    ≡ ok tt)
                  same c5));
        }

    back : Combines k first others out → combine_shares k (first ∷ others) ≡ ok out
    back c =
        rw
          (
            (threshold_iff first.threshold (length shares)).1 (c.positive, c.enough),
            (check_shares_iff first [] shares).1 (c.fits, c.distinct, never-Fresh shares),
            c.accepted,
            c.recovered,
            legacy-true first.version (k.sha256 out) first.fingerprint c.legacy,
          )
          refl
