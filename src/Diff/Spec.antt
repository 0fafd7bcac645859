-- ===== src/Diff/Spec.antt =====
-- What a comparison has to find for each entry, in terms of the two lists of entries alone.
use lvau.Base.{
  ◌<◌, ◌≡◌, ◌≢◌, ◌⊎◌, inl, inr, refl, sym, ap, subst, Bool-cases, true, false, none, some, List, [],
  ◌∷◌, ◌++◌, String, All, ltb→lt, ◌==◌, ==_iff,
}
use lvau.Base.Bytes.{Bytes, codes, bytes_eq, bytes_eq_iff}
use lvau.Envelope.{BundleEntry}
use lvau.Diff.{added, removed, modified, unchanged, FileDiff, get, old_diff, new_diff, path_le}

-- No entry has the path.
abbrev pub Lacks : String → List BundleEntry → Type 0
Lacks path entries = All (λ e. codes e.relative_path ≢ codes path) entries

-- The last entry that has the path.
pub record IsLast (path : String) (entries : List BundleEntry) (e : BundleEntry) : Type 0 where
  pub before : List BundleEntry
  pub after : List BundleEntry
  pub whole : entries ≡ before ++ e ∷ after
  pub named : codes e.relative_path ≡ codes path
  pub last : Lacks path after

-- An old entry is unchanged where the last new entry of its path has its hash, and modified where that has another.
pub record IsKept (e f : BundleEntry) (d : FileDiff) : Type 0 where
  pub path_eq : d.path ≡ e.relative_path
  pub old_size_eq : d.old_size ≡ some e.size
  pub new_size_eq : d.new_size ≡ some f.size
  pub status_eq :
      ((e.blake3_hash ≡ f.blake3_hash) × (d.status ≡ unchanged))
      ⊎ ((e.blake3_hash ≢ f.blake3_hash) × (d.status ≡ modified))

-- An old entry is removed where no new entry has its path.
pub record IsRemoved (e : BundleEntry) (d : FileDiff) : Type 0 where
  pub path_eq : d.path ≡ e.relative_path
  pub old_size_eq : d.old_size ≡ some e.size
  pub new_size_eq : d.new_size ≡ none
  pub status_eq : d.status ≡ removed

pub record IsAdded (e : BundleEntry) (d : FileDiff) : Type 0 where
  pub path_eq : d.path ≡ e.relative_path
  pub old_size_eq : d.old_size ≡ none
  pub new_size_eq : d.new_size ≡ some e.size
  pub status_eq : d.status ≡ added

abbrev pub IsOldDiff : List BundleEntry → BundleEntry → FileDiff → Type 0
IsOldDiff new e d =
    (Lacks e.relative_path new × IsRemoved e d)
    ⊎ ((f : BundleEntry) × IsLast e.relative_path new f × IsKept e f d)

-- One difference for each old entry, in their order.
abbrev pub AreOldDiffs : List BundleEntry → List BundleEntry → List FileDiff → Type 0
AreOldDiffs new [] ds = ds ≡ []
AreOldDiffs new (e ∷ es) ds =
    (d : FileDiff) × (rest : List FileDiff) × (ds ≡ d ∷ rest)
    × IsOldDiff new e d
    × AreOldDiffs new es rest

-- One difference for each new entry whose path no old entry has, in their order, and none for another.
abbrev pub AreNewDiffs : List BundleEntry → List BundleEntry → List FileDiff → Type 0
AreNewDiffs old [] ds = ds ≡ []
AreNewDiffs old (e ∷ es) ds =
    (Lacks e.relative_path old
      × ((d : FileDiff) × (rest : List FileDiff) × (ds ≡ d ∷ rest)
          × IsAdded e d
          × AreNewDiffs old es rest))
    ⊎ (((f : BundleEntry) × IsLast e.relative_path old f) × AreNewDiffs old es ds)

-- The order of two texts, by their code points.
abbrev pub IsAtMost : Bytes → Bytes → Type 0
IsAtMost [] ys = Unit {0}
IsAtMost (x ∷ xs) [] = ⊥
IsAtMost (x ∷ xs) (y ∷ ys) = (x < y) ⊎ ((x ≡ y) × IsAtMost xs ys)

pub path_le-IsAtMost : (xs ys : Bytes) → path_le xs ys ≡ true → IsAtMost xs ys
unfolding path_le
path_le-IsAtMost [] ys h = tt
path_le-IsAtMost (x ∷ xs) [] h = absurd (cc)
path_le-IsAtMost (x ∷ xs) (y ∷ ys) h = elim (Bool-cases (x == y)) [
  | inl same ↦ inr ((==_iff x y).0 same, path_le-IsAtMost xs ys (rw same at h))
  | inr other ↦ inl (ltb→lt x y (rw other at h))
]

-- What the code's lookup finds.
pub get_cases :
    (es : List BundleEntry) (path : String)
    → ((get es path ≡ none) × Lacks path es)
      ⊎ ((f : BundleEntry) × (get es path ≡ some f) × IsLast path es f)
unfolding get
get_cases [] path = inl (refl, tt)
get_cases (e ∷ es) path = elim (get_cases es path) [
  | inr (f, there, l) ↦ inr (
    f,
    rw there refl,
    record {
      before = e ∷ l.before;
      after = l.after;
      whole = ap (◌∷◌ e) l.whole;
      named = l.named;
      last = l.last;
    },
  )
  | inl (nothing, lacks) ↦ elim (Bool-cases (bytes_eq (codes e.relative_path) (codes path))) [
    | inl same ↦ inr (
      e,
      rw (nothing, same) refl,
      record {
        before = [];
        after = es;
        whole = refl;
        named = (bytes_eq_iff (codes e.relative_path) (codes path)).0 same;
        last = lacks;
      },
    )
    | inr other ↦
        inl (rw (nothing, other) refl, (differ (codes e.relative_path) (codes path) other, lacks))
  ]
]
  where
    differ : (xs ys : Bytes) → bytes_eq xs ys ≡ false → xs ≢ ys
    differ xs ys no_ k = let t = (bytes_eq_iff xs ys).1 k in cc

kept_lem : (e f : BundleEntry) → IsKept e f (old_diff e (some f))
unfolding old_diff
kept_lem e f = record {
  path_eq = refl;
  old_size_eq = refl;
  new_size_eq = refl;
  status_eq = elim (Bool-cases (bytes_eq e.blake3_hash f.blake3_hash)) [
    | inl same ↦ inl ((bytes_eq_iff e.blake3_hash f.blake3_hash).0 same, rw same refl)
    | inr other ↦
        inr (λ k. let t = (bytes_eq_iff e.blake3_hash f.blake3_hash).1 k in cc, rw other refl)
  ];
}

removed_lem : (e : BundleEntry) → IsRemoved e (old_diff e none)
unfolding old_diff
removed_lem e = record { path_eq = refl; old_size_eq = refl; new_size_eq = refl; status_eq = refl }

pub added_lem : (e : BundleEntry) → IsAdded e (new_diff e)
unfolding new_diff
added_lem e = record { path_eq = refl; old_size_eq = refl; new_size_eq = refl; status_eq = refl }

pub old_diff-IsOldDiff :
    (new : List BundleEntry) (e : BundleEntry)
    → IsOldDiff new e (old_diff e (get new e.relative_path))
old_diff-IsOldDiff new e = elim (get_cases new e.relative_path) [
  | inl (nothing, lacks) ↦
      inl (lacks, subst (λ o. IsRemoved e (old_diff e o)) (sym nothing) (removed_lem e))
  | inr (f, there, l) ↦
      inr (f, l, subst (λ o. IsKept e f (old_diff e o)) (sym there) (kept_lem e f))
]
