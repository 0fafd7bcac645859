-- ===== src/Bundle/Laid.antt =====
-- The layout that `build_manifest` makes: one file behind the other, which the layout check accepts.
use lvau.Base.{
  ℕ, ◌+◌, ◌≤◌, ◌<◌, ◌≡◌, ◌≢◌, inl, inr, refl, sym, ap, ◌∙◌, true, false, Bool-cases, List, [], ◌∷◌,
  ◌++◌, String, length, any, leb, lt→ltb, ◌==◌, ==_iff, arith, All, ◌^◌, length-append,
}
use lvau.Base.Bytes.{Bytes, codes, bytes_eq, bytes_eq_iff}
use lvau.Error.{ok_injective, ok, require, >>=-eq-ok, require-eq-ok}
use lvau.Envelope.{BundleEntry}
use lvau.Bundle.{manifest_error, validate_relative_path}
use lvau.Bundle.Manifest.{
  BundleBackend, SourceFile, Range, checked_sum, build_entries, copy_source_checked, copy_sources,
  check_entries, insert_range, sort_ranges, check_windows,
}
use lvau.Bundle.Disjoint.{Pairwise}
use lvau.Bundle.Round.{with_bounds, checked_sum-eq-ok}
use Prim.Native.String

abbrev pub entry_of : ℕ → SourceFile → BundleEntry
entry_of offset s = record {
  relative_path = s.relative_path;
  size = s.size;
  blake3_hash = s.blake3_hash;
  offset = offset;
}

abbrev pub entries_from : ℕ → List SourceFile → List BundleEntry
entries_from offset [] = []
entries_from offset (s ∷ ss) = entry_of offset s ∷ entries_from (offset + s.size) ss

abbrev pub contents_of : List SourceFile → Bytes
contents_of [] = []
contents_of (s ∷ ss) = s.bytes ++ contents_of ss

-- The size and the hash that were collected are those of the bytes.
abbrev pub IsCollected : BundleBackend → SourceFile → Type 0
IsCollected b s = (length s.bytes ≡ s.size) × (b.blake3 s.bytes ≡ s.blake3_hash)

pub build_entries-eq-ok :
    (offset : ℕ) (sources : List SourceFile) (entries : List BundleEntry)
    → build_entries offset sources ≡ ok entries
    → entries ≡ entries_from offset sources
unfolding build_entries
build_entries-eq-ok offset [] entries h = ok_injective (ok entries) refl (sym h)
build_entries-eq-ok offset (s ∷ ss) entries h =
    let (next, c, h1) = >>=-eq-ok (checked_sum offset s.size "Bundle size overflow") _ h in
    let (later, c2, h2) = >>=-eq-ok (build_entries next ss) _ h1 in
    let next_eq = checked_sum-eq-ok offset s.size next "Bundle size overflow" c in
    ok_injective (ok entries) refl (sym h2)
    ∙ ap (λ es. entry_of offset s ∷ es)
        (build_entries-eq-ok next ss later c2 ∙ ap (λ n. entries_from n ss) next_eq)

pub copy_sources-eq-ok :
    (b : BundleBackend) (sources : List SourceFile) (contents : Bytes)
    → copy_sources b sources ≡ ok contents
    → (contents ≡ contents_of sources) × All (IsCollected b) sources
unfolding copy_sources copy_source_checked
copy_sources-eq-ok b [] contents h = (ok_injective (ok contents) refl (sym h), tt)
copy_sources-eq-ok b (s ∷ ss) contents h =
    let (bytes, c, h1) = >>=-eq-ok (copy_source_checked b s) _ h in
    let (others, c2, h2) = >>=-eq-ok (copy_sources b ss) _ h1 in
    let (_, d1, k1) =
      >>=-eq-ok
        (require (length s.bytes == s.size)
          (manifest_error (String.◌++◌ "Input size changed during packing: " s.absolute_path)))
        _ c in
    let (_, d2, k2) =
      >>=-eq-ok
        (require (bytes_eq (b.blake3 s.bytes) s.blake3_hash)
          (manifest_error (String.◌++◌ "Input changed during packing: " s.absolute_path)))
        _ k1 in
    let (rest, collected) = copy_sources-eq-ok b ss others c2 in
    let same : bytes ≡ s.bytes = ok_injective (ok bytes) refl (sym k2) in
    (
      ok_injective (ok contents) refl (sym h2)
          ∙ ap (λ t. t ++ others) same
          ∙ ap (λ t. s.bytes ++ t) rest,
      (
        (
          (==_iff (length s.bytes) s.size).0 (require-eq-ok _ _ d1),
          (bytes_eq_iff (b.blake3 s.bytes) s.blake3_hash).0 (require-eq-ok _ _ d2),
        ),
        collected,
      ),
    )

-- The ranges of the files, in their order.
abbrev pub ranges_from : ℕ → ℕ → List SourceFile → List Range
ranges_from data_start offset [] = []
ranges_from data_start offset (s ∷ ss) =
    with_bounds (data_start + offset) (data_start + offset + s.size) s.relative_path
      (ranges_from data_start (offset + s.size) ss)

abbrev pub key_of_source : BundleBackend → SourceFile → Bytes
key_of_source b s = codes (b.lower s.relative_path)

-- A path that `collect_sources` has accepted.
abbrev pub IsAccepted : SourceFile → Type 0
IsAccepted s = (cs : Bytes) × (validate_relative_path s.relative_path ≡ ok cs)

pub checked_sum_lem :
    (a b : ℕ) (message : String) → a + b < 2 ^ 64 → checked_sum a b message ≡ ok (a + b)
unfolding checked_sum
checked_sum_lem a b message h = rw (lt→ltb (a + b) (2 ^ 64) h) refl

abbrev IsFresh : BundleBackend → List Bytes → SourceFile → Type 0
IsFresh b seen s = any (bytes_eq (key_of_source b s)) seen ≡ false

IsFresh-cons :
    (b : BundleBackend) (seen : List Bytes) (s : SourceFile) (ss : List SourceFile)
    → All (λ t. key_of_source b s ≢ key_of_source b t) ss
    → All (IsFresh b seen) ss
    → All (IsFresh b (key_of_source b s ∷ seen)) ss
IsFresh-cons b seen s [] h k = tt
IsFresh-cons b seen s (t ∷ ts) (differs, h) (fresh, k) =
    let no : bytes_eq (key_of_source b t) (key_of_source b s) ≡ false =
      elim (Bool-cases (bytes_eq (key_of_source b t) (key_of_source b s))) [
        | inl same ↦
            absurd (differs (sym ((bytes_eq_iff (key_of_source b t) (key_of_source b s)).0 same)))
        | inr other ↦ other
      ] in
    (rw (no, fresh) refl, IsFresh-cons b seen s ts h k)

pub checks_lem :
    (b : BundleBackend) (data_start payload_len offset : ℕ) (seen : List Bytes)
    (sources : List SourceFile)
    → All IsAccepted sources
    → All (IsCollected b) sources
    → All (IsFresh b seen) sources
    → Pairwise (λ s t. key_of_source b s ≢ key_of_source b t) sources
    → data_start + offset + length (contents_of sources) ≤ payload_len
    → payload_len < 2 ^ 64
    → check_entries b data_start payload_len seen (entries_from offset sources)
      ≡ ok (ranges_from data_start offset sources)
unfolding check_entries
checks_lem b data_start payload_len offset seen [] accepted collected fresh distinct fits small =
    refl
checks_lem b data_start payload_len offset seen (s ∷ ss) ((cs, accepted), accepteds)
      ((sized, hashed), collecteds) (fresh, freshes) (differs, distincts) fits small =
    let len = length-append s.bytes (contents_of ss) in
    let start =
      checked_sum_lem data_start offset "File offset overflow" (omega (arith, fits, small)) in
    let end_ =
      checked_sum_lem (data_start + offset) s.size "File size overflow"
        (omega (arith, fits, small, len, sized)) in
    let inside : leb (data_start + offset + s.size) payload_len ≡ true =
      let le : data_start + offset + s.size ≤ payload_len = omega (arith, fits, len, sized) in
      ground arith in
    let rest =
      checks_lem b data_start payload_len (offset + s.size) (key_of_source b s ∷ seen) ss accepteds
        collecteds (IsFresh-cons b seen s ss differs freshes) distincts
        (omega (arith, fits, len, sized)) small in
    rw (accepted, fresh, start, end_, inside, rest) refl

-- Every range lies at or behind the offset where the list begins.
abbrev Behind : ℕ → Range → Type 0
Behind n r = n ≤ r.start

weaken : (m n : ℕ) (rs : List Range) → m ≤ n → All (Behind n) rs → All (Behind m) rs
weaken m n [] h k = tt
weaken m n (r ∷ rs) h (here, later) = (omega (arith, h, here), weaken m n rs h later)

ranges-Behind :
    (data_start offset : ℕ) (sources : List SourceFile)
    → All (Behind (data_start + offset)) (ranges_from data_start offset sources)
ranges-Behind data_start offset [] = tt
ranges-Behind data_start offset (s ∷ ss) =
    let later =
      weaken (data_start + offset) (data_start + (offset + s.size))
        (ranges_from data_start (offset + s.size) ss) (omega arith)
        (ranges-Behind data_start (offset + s.size) ss) in
    elim (Bool-cases (data_start + offset == data_start + offset + s.size)) [
      | inl same ↦ rw same later
      | inr differ ↦ rw differ (omega arith, later)
    ]

insert_front : (r : Range) (rs : List Range) → All (Behind r.start) rs → insert_range r rs ≡ r ∷ rs
unfolding insert_range
insert_front r [] h = refl
insert_front r (s ∷ ss) (here, later) =
    let le : leb r.start s.start ≡ true = ground arith in rw le refl

windows_cons :
    (r : Range) (rs : List Range)
    → All (Behind r.end_) rs
    → check_windows rs ≡ ok tt
    → check_windows (r ∷ rs) ≡ ok tt
unfolding check_windows
windows_cons r [] h k = refl
windows_cons r (s ∷ ss) (here, later) k =
    let le : leb r.end_ s.start ≡ true = ground arith in rw le k

later_of :
    (data_start offset : ℕ) (s : SourceFile) (ss : List SourceFile)
    → All (Behind (data_start + offset + s.size)) (ranges_from data_start (offset + s.size) ss)
later_of data_start offset s ss =
    weaken (data_start + offset + s.size) (data_start + (offset + s.size))
      (ranges_from data_start (offset + s.size) ss) (omega arith)
      (ranges-Behind data_start (offset + s.size) ss)

abbrev range_of_source : ℕ → ℕ → SourceFile → Range
range_of_source data_start offset s = record {
  start = data_start + offset;
  end_ = data_start + offset + s.size;
  path = s.relative_path;
}

-- The ranges are in order already.
sort_ranges-ranges_from :
    (data_start offset : ℕ) (sources : List SourceFile)
    → sort_ranges (ranges_from data_start offset sources) ≡ ranges_from data_start offset sources
unfolding sort_ranges
sort_ranges-ranges_from data_start offset [] = refl
sort_ranges-ranges_from data_start offset (s ∷ ss) =
    let sorted = sort_ranges-ranges_from data_start (offset + s.size) ss in
    elim (Bool-cases (data_start + offset == data_start + offset + s.size)) [
      | inl same ↦ rw same sorted
      | inr differ ↦
          rw (differ, sorted)
            (insert_front (range_of_source data_start offset s)
              (ranges_from data_start (offset + s.size) ss)
              (weaken (data_start + offset) (data_start + offset + s.size)
                (ranges_from data_start (offset + s.size) ss) (omega arith)
                (later_of data_start offset s ss)))
    ]

windows_in_order :
    (data_start offset : ℕ) (sources : List SourceFile)
    → check_windows (ranges_from data_start offset sources) ≡ ok tt
unfolding check_windows
windows_in_order data_start offset [] = refl
windows_in_order data_start offset (s ∷ ss) =
    let windows = windows_in_order data_start (offset + s.size) ss in
    elim (Bool-cases (data_start + offset == data_start + offset + s.size)) [
      | inl same ↦ rw same windows
      | inr differ ↦ rw differ (
          windows_cons (range_of_source data_start offset s)
            (ranges_from data_start (offset + s.size) ss) (later_of data_start offset s ss) windows)
    ]

pub windows_from :
    (data_start offset : ℕ) (sources : List SourceFile)
    → check_windows (sort_ranges (ranges_from data_start offset sources)) ≡ ok tt
windows_from data_start offset sources =
    ap check_windows (sort_ranges-ranges_from data_start offset sources)
    ∙ windows_in_order data_start offset sources
