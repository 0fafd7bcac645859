-- ===== src/Bundle/Layout.antt =====
-- The layout that is accepted: safe paths, files inside the plaintext, and no two of them on one byte.
use lvau.Base.{
  ℕ, ◌+◌, ◌≡◌, ◌≢◌, ◌⊎◌, inl, inr, refl, sym, ap, subst, ◌∙◌, Bool, true, false, ◌||◌, Bool-cases,
  List, [], ◌∷◌, any, ◌==◌, ==_iff, arith, All,
}
use lvau.Base.Bytes.{Bytes, bytes_eq, bytes_eq_iff}
use lvau.Error.{ok_injective, ok, >>=-eq-ok}
use lvau.Envelope.{BundleEntry, BundleManifest}
use lvau.Bundle.Manifest.{BundleBackend, Range, check_entries, sort_ranges, validate_layout}
use lvau.Bundle.Disjoint.{
  Pairwise, Apart, IsRange, windows-Pairwise, sort_ranges-All, Pairwise-sort_ranges,
}
use lvau.Bundle.Round.{key_of, IsInside, Separate, range_of, with_range, round_lem}

-- What holds of every range holds of every entry with bytes, for its own.
entries_of_ranges :
    (b : BundleBackend) (data_start payload_len : ℕ) (seen : List Bytes) (P : Range → Type 0)
    (entries : List BundleEntry) (ranges : List Range)
    → check_entries b data_start payload_len seen entries ≡ ok ranges
    → All P ranges
    → All (λ e. (e.size ≡ 0) ⊎ P (range_of data_start e)) entries
entries_of_ranges b data_start payload_len seen P [] ranges h k = tt
entries_of_ranges b data_start payload_len seen P (e ∷ rest) ranges h k =
    let r = round_lem b data_start payload_len seen e rest ranges h in
    let (here, later) = one_lem e r.later (subst (All P) (r.ranges_eq) k) in
    (
      here,
      entries_of_ranges b data_start payload_len (key_of b e ∷ seen) P rest r.later r.goes_on later,
    )
  where
    one_lem :
        (e : BundleEntry) (later : List Range)
        → All P (with_range data_start e later)
        → ((e.size ≡ 0) ⊎ P (range_of data_start e)) × All P later
    one_lem e later k =
        elim (Bool-cases (data_start + e.offset == data_start + e.offset + e.size)) [
          | inl same ↦
              let none_ : e.size ≡ 0 =
                omega (
                  arith,
                  (==_iff (data_start + e.offset) (data_start + e.offset + e.size)).0 same,
                ) in
              (inl none_, rw same at k)
          | inr differ ↦
              let there : P (range_of data_start e) × All P later = rw differ at k in
              (inr there.0, there.1)
        ]

ranges-IsRange :
    (b : BundleBackend) (data_start payload_len : ℕ) (seen : List Bytes)
    (entries : List BundleEntry) (ranges : List Range)
    → check_entries b data_start payload_len seen entries ≡ ok ranges
    → All IsRange ranges
unfolding check_entries
ranges-IsRange b data_start payload_len seen [] ranges h =
    subst (All IsRange) (ok_injective (ok []) refl h) tt
ranges-IsRange b data_start payload_len seen (e ∷ rest) ranges h =
    let r = round_lem b data_start payload_len seen e rest ranges h in
    let later =
      ranges-IsRange b data_start payload_len (key_of b e ∷ seen) rest r.later r.goes_on in
    subst (All IsRange) (sym r.ranges_eq)
      (elim (Bool-cases (data_start + e.offset == data_start + e.offset + e.size)) [
        | inl same ↦ rw same later
        | inr differ ↦ rw differ (ground arith, later)
      ])

separate_lem :
    (data_start : ℕ) (e : BundleEntry) (fs : List BundleEntry)
    → All (λ f. (f.size ≡ 0) ⊎ Apart (range_of data_start e) (range_of data_start f)) fs
    → All (Separate e) fs
separate_lem data_start e [] h = tt
separate_lem data_start e (f ∷ fs) (inl none_, later) =
    (inr (inl none_), separate_lem data_start e fs later)
separate_lem data_start e (f ∷ fs) (inr (inl before), later) =
    (inr (inr (inl (omega (arith, before)))), separate_lem data_start e fs later)
separate_lem data_start e (f ∷ fs) (inr (inr after), later) =
    (inr (inr (inr (omega (arith, after)))), separate_lem data_start e fs later)

empty_lem : (e : BundleEntry) (fs : List BundleEntry) → e.size ≡ 0 → All (Separate e) fs
empty_lem e [] h = tt
empty_lem e (f ∷ fs) h = (inl h, empty_lem e fs h)

entries-Separate :
    (b : BundleBackend) (data_start payload_len : ℕ) (seen : List Bytes)
    (entries : List BundleEntry) (ranges : List Range)
    → check_entries b data_start payload_len seen entries ≡ ok ranges
    → Pairwise Apart ranges
    → Pairwise Separate entries
entries-Separate b data_start payload_len seen [] ranges h k = tt
entries-Separate b data_start payload_len seen (e ∷ rest) ranges h k =
    let r = round_lem b data_start payload_len seen e rest ranges h in
    let seen' = key_of b e ∷ seen in
    let pairs : Pairwise Apart (with_range data_start e r.later) =
      subst (Pairwise Apart) r.ranges_eq k in
    elim (Bool-cases (data_start + e.offset == data_start + e.offset + e.size)) [
      | inl same ↦
          let none_ : e.size ≡ 0 =
            omega
              (arith, (==_iff (data_start + e.offset) (data_start + e.offset + e.size)).0 same) in
          (
            empty_lem e rest none_,
            entries-Separate b data_start payload_len seen' rest r.later r.goes_on
                (rw same at pairs),
          )
      | inr differ ↦
          let there : All (Apart (range_of data_start e)) r.later × Pairwise Apart r.later =
            rw differ at pairs in
          (
            separate_lem data_start e rest (
                entries_of_ranges b data_start payload_len seen' (Apart (range_of data_start e))
                  rest r.later r.goes_on there.0),
            entries-Separate b data_start payload_len seen' rest r.later r.goes_on there.1,
          )
    ]

-- A key that was seen is no later entry's key.
keys_differ :
    (b : BundleBackend) (data_start payload_len : ℕ) (seen : List Bytes) (key : Bytes)
    (entries : List BundleEntry) (ranges : List Range)
    → any (bytes_eq key) seen ≡ true
    → check_entries b data_start payload_len seen entries ≡ ok ranges
    → All (λ f. key ≢ key_of b f) entries
keys_differ b data_start payload_len seen key [] ranges has h = tt
keys_differ b data_start payload_len seen key (e ∷ rest) ranges has h =
    let r = round_lem b data_start payload_len seen e rest ranges h in
    (
      λ same.
          let wrong : any (bytes_eq key) seen ≡ false =
            ap (λ k. any (bytes_eq k) seen) same ∙ r.fresh in
          absurd (cc),
      keys_differ b data_start payload_len (key_of b e ∷ seen) key rest r.later
          (or_right (bytes_eq key (key_of b e)) (any (bytes_eq key) seen) has) r.goes_on,
    )
  where
    or_right : (a c : Bool) → c ≡ true → (a || c) ≡ true
    or_right a c h = ground arith

-- All that a layout check which passes establishes.
pub record HasLayout (b : BundleBackend) (data_start payload_len : ℕ) (entries : List BundleEntry)
    : Type 0 where
  pub inside : All (IsInside data_start payload_len) entries
  pub separate : Pairwise Separate entries
  pub distinct : Pairwise (λ e f. key_of b e ≢ key_of b f) entries

entries-IsInside :
    (b : BundleBackend) (data_start payload_len : ℕ) (seen : List Bytes)
    (entries : List BundleEntry) (ranges : List Range)
    → check_entries b data_start payload_len seen entries ≡ ok ranges
    → All (IsInside data_start payload_len) entries
      × Pairwise (λ e f. key_of b e ≢ key_of b f) entries
unfolding bytes_eq
entries-IsInside b data_start payload_len seen [] ranges h = (tt, tt)
entries-IsInside b data_start payload_len seen (e ∷ rest) ranges h =
    let r = round_lem b data_start payload_len seen e rest ranges h in
    let seen' = key_of b e ∷ seen in
    let (inside, distinct) =
      entries-IsInside b data_start payload_len seen' rest r.later r.goes_on in
    let has : any (bytes_eq (key_of b e)) seen' ≡ true =
      ap (λ t. t || any (bytes_eq (key_of b e)) seen)
        ((bytes_eq_iff (key_of b e) (key_of b e)).1 refl) in
    (
      (r.inside, inside),
      (
        keys_differ b data_start payload_len seen' (key_of b e) rest r.later has r.goes_on,
        distinct,
      ),
    )

-- A manifest whose layout is accepted has safe paths only, no two of them the same in lower case; every file lies
-- inside the plaintext; and no two files share a byte, in whatever order the manifest lists them.
pub validate_layout-HasLayout :
    (b : BundleBackend) (manifest : BundleManifest) (data_start payload_len : ℕ)
    → validate_layout b manifest data_start payload_len ≡ ok tt
    → HasLayout b data_start payload_len manifest.entries
unfolding validate_layout
validate_layout-HasLayout b manifest data_start payload_len h =
    let entries = manifest.entries in
    let (ranges, c, h1) = >>=-eq-ok (check_entries b data_start payload_len [] entries) _ h in
    let sorted =
      sort_ranges-All IsRange ranges
        (ranges-IsRange b data_start payload_len [] entries ranges c) in
    let apart = Pairwise-sort_ranges ranges (windows-Pairwise (sort_ranges ranges) sorted h1) in
    let (inside, distinct) = entries-IsInside b data_start payload_len [] entries ranges c in
    record {
      inside = inside;
      separate = entries-Separate b data_start payload_len [] entries ranges c apart;
      distinct = distinct;
    }
