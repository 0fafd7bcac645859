-- ===== src/Bundle/Disjoint.antt =====
-- Ranges that pass the check of the sorted windows are apart, whatever order they came in.
use lvau.Base.{
  ℕ, ◌≤◌, ◌<◌, ◌≡◌, ◌⊎◌, inl, inr, refl, Bool-cases, List, [], ◌∷◌, leb, leb→le, arith, All,
}
use Prim.Native.String
use lvau.Error.{ok, require, >>=-eq-ok, require-eq-ok}
use lvau.Bundle.{manifest_error}
use lvau.Bundle.Manifest.{Range, insert_range, sort_ranges, check_windows}

-- A relation holds between any two members at different places, the earlier one first.
abbrev pub Pairwise : {A : Type 0} → (A → A → Type 0) → List A → Type 0
Pairwise R [] = Unit {0}
Pairwise R (x ∷ xs) = All (R x) xs × Pairwise R xs

abbrev pub Apart : Range → Range → Type 0
Apart r s = (r.end_ ≤ s.start) ⊎ (s.end_ ≤ r.start)

abbrev pub IsRange : Range → Type 0
IsRange r = r.start < r.end_

swap : (r s : Range) → Apart r s → Apart s r
swap r s (inl h) = inr h
swap r s (inr h) = inl h

-- What lies behind the next range lies behind this one too.
behind :
    (r : Range) (e : ℕ) (rs : List Range)
    → e ≤ r.end_
    → All (λ s. r.end_ ≤ s.start) rs
    → All (λ s. e ≤ s.start) rs
behind r e [] h k = tt
behind r e (s ∷ ss) h (here, later) = (omega (arith, h, here), behind r e ss h later)

windows_lem :
    (r : Range) (rs : List Range)
    → All IsRange (r ∷ rs)
    → check_windows (r ∷ rs) ≡ ok tt
    → All (λ s. r.end_ ≤ s.start) rs
unfolding check_windows
windows_lem r [] ranges h = tt
windows_lem r (s ∷ ss) (hr, (hs, hss)) h =
    let (_, c, h1) =
      >>=-eq-ok
        (require (leb r.end_ s.start) (
          manifest_error (
            String.◌++◌ "Overlapping file ranges: "
              (String.◌++◌ r.path (String.◌++◌ " and " s.path)))))
        _ h in
    let le = leb→le r.end_ s.start (require-eq-ok _ _ c) in
    (le, behind s r.end_ ss (omega (arith, le, hs)) (windows_lem s ss (hs, hss) h1))

windows_tail :
    (r : Range) (rs : List Range) → check_windows (r ∷ rs) ≡ ok tt → check_windows rs ≡ ok tt
unfolding check_windows
windows_tail r [] h = refl
windows_tail r (s ∷ ss) h =
    let (_, c, h1) =
      >>=-eq-ok
        (require (leb r.end_ s.start) (
          manifest_error (
            String.◌++◌ "Overlapping file ranges: "
              (String.◌++◌ r.path (String.◌++◌ " and " s.path)))))
        _ h in
    h1

ahead : (r : Range) (rs : List Range) → All (λ s. r.end_ ≤ s.start) rs → All (Apart r) rs
ahead r [] h = tt
ahead r (s ∷ ss) (here, later) = (inl here, ahead r ss later)

pub windows-Pairwise :
    (rs : List Range) → All IsRange rs → check_windows rs ≡ ok tt → Pairwise Apart rs
windows-Pairwise [] ranges h = tt
windows-Pairwise (r ∷ rs) (hr, hrs) h =
    (ahead r rs (windows_lem r rs (hr, hrs) h), windows-Pairwise rs hrs (windows_tail r rs h))

insert_range-All :
    (P : Range → Type 0) (r : Range) (rs : List Range) → P r → All P rs → All P (insert_range r rs)
unfolding insert_range
insert_range-All P r [] h k = (h, tt)
insert_range-All P r (s ∷ ss) h (here, later) = elim (Bool-cases (leb r.start s.start)) [
  | inl le ↦ rw le (h, (here, later))
  | inr gt ↦ rw gt (here, insert_range-All P r ss h later)
]

pub sort_ranges-All : (P : Range → Type 0) (rs : List Range) → All P rs → All P (sort_ranges rs)
unfolding sort_ranges
sort_ranges-All P [] h = tt
sort_ranges-All P (r ∷ rs) (here, later) =
    insert_range-All P r (sort_ranges rs) here (sort_ranges-All P rs later)

-- Back from the inserted list to the range and the list.
All-insert_range :
    (P : Range → Type 0) (r : Range) (rs : List Range) → All P (insert_range r rs) → P r × All P rs
unfolding insert_range
All-insert_range P r [] (h, k) = (h, tt)
All-insert_range P r (s ∷ ss) h = elim (Bool-cases (leb r.start s.start)) [
  | inl le ↦ rw le at h
  | inr gt ↦
      let there : P s × All P (insert_range r ss) = rw gt at h in
      let (mine, rest) = All-insert_range P r ss there.1 in (mine, (there.0, rest))
]

All-sort_ranges : (P : Range → Type 0) (rs : List Range) → All P (sort_ranges rs) → All P rs
unfolding sort_ranges
All-sort_ranges P [] h = tt
All-sort_ranges P (r ∷ rs) h =
    let (here, later) = All-insert_range P r (sort_ranges rs) h in
    (here, All-sort_ranges P rs later)

Pairwise-insert_range :
    (r : Range) (rs : List Range)
    → Pairwise Apart (insert_range r rs)
    → All (Apart r) rs × Pairwise Apart rs
unfolding insert_range
Pairwise-insert_range r [] h = (tt, tt)
Pairwise-insert_range r (s ∷ ss) h = elim (Bool-cases (leb r.start s.start)) [
  | inl le ↦ rw le at h
  | inr gt ↦
      let there : All (Apart s) (insert_range r ss) × Pairwise Apart (insert_range r ss) =
        rw gt at h in
      let (to_r, rest) = All-insert_range (Apart s) r ss there.0 in
      let (from_r, pairs) = Pairwise-insert_range r ss there.1 in
      ((swap s r to_r, from_r), (rest, pairs))
]

pub Pairwise-sort_ranges : (rs : List Range) → Pairwise Apart (sort_ranges rs) → Pairwise Apart rs
unfolding sort_ranges
Pairwise-sort_ranges [] h = tt
Pairwise-sort_ranges (r ∷ rs) h =
    let (here, later) = Pairwise-insert_range r (sort_ranges rs) h in
    (All-sort_ranges (Apart r) rs here, Pairwise-sort_ranges rs later)
