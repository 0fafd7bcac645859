-- ===== src/Recovery/Split.antt =====
-- A secret's own shares give it back.
use lvau.Base.{
  Among, ℕ, suc, ◌≡◌, inl, inr, ◌<◌, ◌≤◌, refl, sym, ap, ◌∙◌, subst, Bool, true, false, not, ◌||◌,
  some, List, [], ◌∷◌, map, length, ltb, ◌==◌, all, All, arith,
}
use lvau.Base.Bytes.{Bytes}
use lvau.Error.{Result, ok, err, require, >>=-eq-ok, require-eq-ok, CryptoError, validation}
use lvau.Envelope.{magic_real}
use lvau.Recovery.{
  RecoveryShare, Sharks, SharksLaws, AreDistinct, first_byte, StartsWith, current_share_version,
  make_shares, split_secret, check_shares, combine_shares,
}
use lvau.Recovery.Combine.{Fits, check_shares_iff, never-Fresh, threshold_iff, combine_shares_iff}

-- A share that the splitting made.
record Made (t : ℕ) (fingerprint : Bytes) (ds : List Bytes) (s : RecoveryShare) : Type 0 where
  pub magic : s.magic ≡ magic_real
  pub version : s.version ≡ 2
  pub threshold : s.threshold ≡ t
  pub same_set : s.fingerprint ≡ fingerprint
  pub coordinate : StartsWith s.index s.share_data
  pub dealt : Among s.share_data ds

abbrev share_of : ℕ → Bytes → ℕ → Bytes → RecoveryShare
share_of t fp index bytes = record {
  magic = magic_real;
  version = current_share_version;
  index = index;
  threshold = t;
  fingerprint = fp;
  share_data = index ∷ bytes;
}

made_lem :
    (t : ℕ) (fp : Bytes) (ds : List Bytes) (shares : List RecoveryShare) (s : RecoveryShare)
    → make_shares t fp ds ≡ ok shares
    → Among s shares
    → Made t fp ds s
unfolding make_shares
made_lem t fp [] shares s h m = absurd (subst (Among s) (empty shares h) m)
  where
    empty :
        (xs : List RecoveryShare)
        → ◌≡◌ {A = Result (List RecoveryShare) CryptoError} (ok []) (ok xs)
        → xs ≡ []
    empty xs e = cc
made_lem t fp ([] ∷ ds) shares s h m = absurd (cc)
made_lem t fp ((index ∷ bytes) ∷ ds) shares s h m =
    let (rest, made, h1) = >>=-eq-ok (make_shares t fp ds) _ h in
    let whole : shares ≡ share_of t fp index bytes ∷ rest = cc in
    let among : Among s (share_of t fp index bytes ∷ rest) = subst (Among s) whole m in
    elim among [
      | inl e ↦ subst (Made t fp ((index ∷ bytes) ∷ ds)) (sym e) (record {
        magic = refl;
        version = refl;
        threshold = refl;
        same_set = refl;
        coordinate = refl;
        dealt = inl refl;
      })
      | inr later ↦
          let r = made_lem t fp ds rest s made later in
          record {
            magic = r.magic;
            version = r.version;
            threshold = r.threshold;
            same_set = r.same_set;
            coordinate = r.coordinate;
            dealt = inr r.dealt;
          }
    ]

All-Made :
    (t : ℕ) (fp : Bytes) (ds : List Bytes) (shares picked : List RecoveryShare)
    → make_shares t fp ds ≡ ok shares
    → All (λ s. Among s shares) picked
    → All (Made t fp ds) picked
All-Made t fp ds shares [] made among = tt
All-Made t fp ds shares (s ∷ picked) made (here, among) =
    (made_lem t fp ds shares s made here, All-Made t fp ds shares picked made among)

Fits-first :
    (t : ℕ) (fp : Bytes) (ds : List Bytes) (first s : RecoveryShare)
    → Made t fp ds first
    → Made t fp ds s
    → Fits first s
Fits-first t fp ds first s f m = record {
  magic = m.magic;
  known = (omega (arith, m.version), omega (arith, m.version));
  version = m.version ∙ sym f.version;
  threshold = m.threshold ∙ sym f.threshold;
  fingerprint = m.same_set ∙ sym f.same_set;
  coordinate = m.coordinate;
}

All-fit :
    (t : ℕ) (fp : Bytes) (ds : List Bytes) (first : RecoveryShare) (ss : List RecoveryShare)
    → Made t fp ds first
    → All (Made t fp ds) ss
    → All (Fits first) ss
All-fit t fp ds first [] f h = tt
All-fit t fp ds first (s ∷ ss) f (m, h) =
    (Fits-first t fp ds first s f m, All-fit t fp ds first ss f h)

all_accepted :
    (t : ℕ) (fp : Bytes) (ds : List Bytes) (p : Bytes → Bool) (ss : List RecoveryShare)
    → ((d : Bytes) → Among d ds → p d ≡ true)
    → All (Made t fp ds) ss
    → all (λ s. p s.share_data) ss ≡ true
all_accepted t fp ds p [] law h = refl
all_accepted t fp ds p (s ∷ ss) law (m, h) =
    rw (law s.share_data m.dealt) (all_accepted t fp ds p ss law h)

All-dealt :
    (t : ℕ) (fp : Bytes) (ds : List Bytes) (ss : List RecoveryShare)
    → All (Made t fp ds) ss
    → All (λ d. Among d ds) (map (λ s. s.share_data) ss)
      × (map first_byte (map (λ s. s.share_data) ss) ≡ map some (map (λ s. s.index) ss))
      × (length (map (λ s. s.share_data) ss) ≡ length ss)
All-dealt t fp ds [] h = (tt, refl, refl)
All-dealt t fp ds (s ∷ ss) (m, h) =
    let (dealt, starts, size) = All-dealt t fp ds ss h in
    ((m.dealt, dealt), rw (m.coordinate, starts) refl, ap suc size)

-- What a split has passed.
split_secret-Splits :
    (k : Sharks) (draws fp secret : Bytes) (n t : ℕ) (shares : List RecoveryShare)
    → split_secret k draws fp secret n t ≡ ok shares
    → (0 < t) × (make_shares t fp (k.deal t draws secret n) ≡ ok shares)
unfolding split_secret
split_secret-Splits k draws fp secret n t shares split =
    let (_, valid, made) =
      >>=-eq-ok
        (require (not (t == 0 || n == 0 || ltb n t))
          (validation "Invalid threshold or share count"))
        _ split in
    (positive t n (require-eq-ok _ _ valid), made)
  where
    positive : (t n : ℕ) → not (t == 0 || n == 0 || ltb n t) ≡ true → 0 < t
    positive t n h = ground arith

-- As many of a secret's own shares as the threshold, or more, of different indices and in any order, are combined
-- to the secret, where the secret has a byte at least and the secret-sharing crate keeps its laws.
pub combine_shares-split_secret :
    (k : Sharks) (draws fingerprint secret : Bytes) (n t : ℕ) (shares : List RecoveryShare)
    (first : RecoveryShare) (others : List RecoveryShare)
    → SharksLaws k
    → 0 < length secret
    → split_secret k draws fingerprint secret n t ≡ ok shares
    → All (λ s. Among s shares) (first ∷ others)
    → AreDistinct (map (λ s. s.index) (first ∷ others))
    → t ≤ length (first ∷ others)
    → combine_shares k (first ∷ others) ≡ ok secret
combine_shares-split_secret k draws fp secret n t shares first others laws nonempty split among
      distinct enough =
    let (pos, made) = split_secret-Splits k draws fp secret n t shares split in
    let ds = k.deal t draws secret n in
    let ms = All-Made t fp ds shares (first ∷ others) made among in
    let (dealt, starts, size) = All-dealt t fp ds (first ∷ others) ms in
    let f = ms.0 in
    (combine_shares_iff k first others secret).1 (record {
      positive = omega (arith, f.threshold);
      enough = omega (arith, f.threshold);
      fits = All-fit t fp ds first (first ∷ others) f ms;
      distinct = distinct;
      accepted =
          all_accepted t fp ds k.is_share (first ∷ others)
            (λ d m. laws.accepts d (omega (arith, laws.sized t draws secret n d m))) ms;
      recovered = rw f.threshold (
          laws.recovers t draws secret n (map (λ s. s.index) (first ∷ others))
            (map (λ s. s.share_data) (first ∷ others)) nonempty pos (omega (arith, size)) dealt
            starts distinct);
      legacy = inl (λ e. omega (arith, f.version));
    })

-- The shares of the empty secret, which `split_secret` makes without complaint, are refused: as many of them as the
-- threshold, or more, of different indices, give the error of a bad share's data, where the crate keeps its laws.
pub combine_shares-split_empty :
    (k : Sharks) (draws fingerprint : Bytes) (n t : ℕ) (shares : List RecoveryShare)
    (first : RecoveryShare) (others : List RecoveryShare)
    → SharksLaws k
    → split_secret k draws fingerprint [] n t ≡ ok shares
    → All (λ s. Among s shares) (first ∷ others)
    → AreDistinct (map (λ s. s.index) (first ∷ others))
    → t ≤ length (first ∷ others)
    → combine_shares k (first ∷ others) ≡ err (validation "Invalid share data format")
unfolding combine_shares
combine_shares-split_empty k draws fp n t shares first others laws split among distinct enough =
    let (pos, made) = split_secret-Splits k draws fp [] n t shares split in
    let ds = k.deal t draws [] n in
    let ms = All-Made t fp ds shares (first ∷ others) made among in
    let f = ms.0 in
    let room : (0 < first.threshold) × (first.threshold ≤ length (first ∷ others)) =
      (omega (arith, f.threshold), omega (arith, f.threshold)) in
    let checked : check_shares first [] (first ∷ others) ≡ ok tt =
      (check_shares_iff first [] (first ∷ others)).1
        (All-fit t fp ds first (first ∷ others) f ms, distinct, never-Fresh (first ∷ others)) in
    let short : k.is_share first.share_data ≡ false =
      laws.refuses first.share_data
        (omega (arith, laws.sized t draws [] n first.share_data f.dealt)) in
    rw ((threshold_iff first.threshold (length (first ∷ others))).1 room, checked, short) refl
