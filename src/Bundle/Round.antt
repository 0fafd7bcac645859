-- ===== src/Bundle/Round.antt =====
-- One round of the layout check over the entries, and what it establishes.
use lvau.Base.{
  ℕ, ◌+◌, ◌≤◌, ◌≡◌, ◌⊎◌, refl, sym, ap, ◌∙◌, Bool, true, false, not, List, ◌∷◌, String, any, leb,
  leb→le, ltb, ◌==◌, arith, if◌then◌else◌, ◌^◌,
}
use Prim.Native.String
use lvau.Base.Bytes.{Bytes, codes, bytes_eq}
use lvau.Error.{ok_injective, ok, require, >>=-eq-ok, require-eq-ok}
use lvau.Envelope.{BundleEntry}
use lvau.Bundle.{manifest_error, validate_relative_path}
use lvau.Bundle.Path.{IsSafe, validate_relative_path-IsSafe}
use lvau.Bundle.Manifest.{BundleBackend, Range, checked_sum, check_entries}

abbrev pub key_of : BundleBackend → BundleEntry → Bytes
key_of b e = codes (b.lower e.relative_path)

-- The entry's path is safe, and its bytes lie inside the plaintext.
abbrev pub IsInside : ℕ → ℕ → BundleEntry → Type 0
IsInside data_start payload_len e =
    IsSafe (codes e.relative_path) × (data_start + e.offset + e.size ≤ payload_len)

-- Two entries share no byte.
abbrev pub Separate : BundleEntry → BundleEntry → Type 0
Separate e f =
    (e.size ≡ 0)
    ⊎ ((f.size ≡ 0) ⊎ ((e.offset + e.size ≤ f.offset) ⊎ (f.offset + f.size ≤ e.offset)))

abbrev pub range_of : ℕ → BundleEntry → Range
range_of data_start e = record {
  start = data_start + e.offset;
  end_ = data_start + e.offset + e.size;
  path = e.relative_path;
}

abbrev pub with_bounds : ℕ → ℕ → String → List Range → List Range
with_bounds s t path ranges =
    if s == t then ranges else record { start = s; end_ = t; path = path } ∷ ranges

abbrev pub with_range : ℕ → BundleEntry → List Range → List Range
with_range data_start e =
    with_bounds (data_start + e.offset) (data_start + e.offset + e.size) e.relative_path

pub checked_sum-eq-ok : (a b v : ℕ) (message : String) → checked_sum a b message ≡ ok v → v ≡ a + b
unfolding checked_sum
checked_sum-eq-ok a b v message h =
    let (_, c, h1) = >>=-eq-ok (require (ltb (a + b) (2 ^ 64)) (manifest_error message)) _ h in
    ok_injective (ok v) refl (sym h1)

-- One round of the loop over the entries.
pub record Round (b : BundleBackend) (data_start payload_len : ℕ) (seen : List Bytes)
    (e : BundleEntry) (rest : List BundleEntry) (ranges : List Range) : Type 0 where
  pub inside : IsInside data_start payload_len e
  pub fresh : any (bytes_eq (key_of b e)) seen ≡ false
  pub later : List Range
  pub goes_on : check_entries b data_start payload_len (key_of b e ∷ seen) rest ≡ ok later
  pub ranges_eq : ranges ≡ with_range data_start e later

false_of : (b : Bool) → not b ≡ true → b ≡ false
false_of b h = ground arith

pub round_lem :
    (b : BundleBackend) (data_start payload_len : ℕ) (seen : List Bytes) (e : BundleEntry)
    (rest : List BundleEntry) (ranges : List Range)
    → check_entries b data_start payload_len seen (e ∷ rest) ≡ ok ranges
    → Round b data_start payload_len seen e rest ranges
unfolding check_entries
round_lem b data_start payload_len seen e rest ranges h =
    let (cs, c1, h1) = >>=-eq-ok (validate_relative_path e.relative_path) _ h in
    let (_, c2, h2) =
      >>=-eq-ok
        (require (not (any (bytes_eq (key_of b e)) seen)) (
          manifest_error
            (String.◌++◌ "Duplicate or cross-platform-colliding path: " e.relative_path)))
        _ h1 in
    let (start, c3, h3) = >>=-eq-ok (checked_sum data_start e.offset "File offset overflow") _ h2 in
    let (end_, c4, h4) = >>=-eq-ok (checked_sum start e.size "File size overflow") _ h3 in
    let (_, c5, h5) =
      >>=-eq-ok
        (require (leb end_ payload_len)
          (manifest_error (String.◌++◌ "File data truncated for: " e.relative_path)))
        _ h4 in
    let (later, c6, h6) =
      >>=-eq-ok (check_entries b data_start payload_len (key_of b e ∷ seen) rest) _ h5 in
    let start_eq = checked_sum-eq-ok data_start e.offset start "File offset overflow" c3 in
    let end_eq = checked_sum-eq-ok start e.size end_ "File size overflow" c4 in
    let le = leb→le end_ payload_len (require-eq-ok _ _ c5) in
    record {
      inside = (
        (validate_relative_path-IsSafe e.relative_path cs c1).1,
        omega (arith, le, start_eq, end_eq),
      );
      fresh = false_of (any (bytes_eq (key_of b e)) seen) (require-eq-ok _ _ c2);
      later = later;
      goes_on = c6;
      ranges_eq =
          ok_injective (ok ranges) refl (sym h6)
          ∙ ap (λ s. with_bounds s end_ e.relative_path later) start_eq
          ∙ ap (λ t. with_bounds (data_start + e.offset) t e.relative_path later)
              (end_eq ∙ ap (λ s. s + e.size) start_eq);
    }
