-- ===== src/Tests/Bundle.antt =====
-- A bundle of two files, packed and extracted.
use lvau.Base.{ℕ, ◌≡◌, ◌≢◌, refl, none, List, [], ◌∷◌, arith}
use lvau.Base.Bytes.{Bytes, codes, bytes_eq, to_le_bytes}
use lvau.Error.{ok}
use lvau.Envelope.{BundleManifest}
use lvau.Bundle.{
  bucket, fixed, split_on, component_of, first_component, later_components, components_of,
  components, starts_with, is_drive, validate_relative_path,
}
use lvau.Bundle.Path.{IsSafe, validate_relative_path-IsSafe}
use lvau.Bundle.Manifest.{
  BundleBackend, SourceFile, checked_sum, build_entries, build_manifest, copy_source_checked,
  copy_sources, padding_target, pack_sources, check_entries, insert_range, sort_ranges,
  check_windows, validate_layout, extract_plaintext,
}
use lvau.Bundle.Layout.{HasLayout, validate_layout-HasLayout}
use lvau.Bundle.Reads.{files_of}
use lvau.Bundle.RoundTrip.{extract_plaintext-pack_sources}
use lvau.Bundle.Padding.{IsTarget, padding_target-IsTarget}

abbrev first_file : SourceFile
first_file = record {
  relative_path = "a/b";
  absolute_path = "/in/a/b";
  bytes = 10 ∷ 20 ∷ [];
  size = 2;
  blake3_hash = 8 ∷ [];
}

abbrev second_file : SourceFile
second_file = record {
  relative_path = "c";
  absolute_path = "/in/c";
  bytes = 30 ∷ [];
  size = 1;
  blake3_hash = 8 ∷ [];
}

abbrev sources : List SourceFile
sources = first_file ∷ second_file ∷ []

abbrev two_files : BundleManifest
two_files = record {
  entries =
      record { relative_path = "a/b"; size = 2; blake3_hash = 8 ∷ []; offset = 0 }
      ∷ record { relative_path = "c"; size = 1; blake3_hash = 8 ∷ []; offset = 2 }
      ∷ [];
  created_at = none;
  tool_version = none;
}

abbrev toy_bundle : BundleBackend
toy_bundle = record {
  blake3 = λ bytes. 8 ∷ [];
  lower = λ path. path;
  encode_manifest = λ m. ok (77 ∷ []);
  take_manifest = λ bytes. ok (two_files, []);
}

abbrev packed : Bytes
packed = 1 ∷ 0 ∷ 0 ∷ 0 ∷ 77 ∷ 10 ∷ 20 ∷ 30 ∷ 0 ∷ 0 ∷ []

accepts_first : validate_relative_path "a/b" ≡ ok (codes "a/b")
unfolding validate_relative_path components split_on first_component component_of later_components
    components_of starts_with is_drive bytes_eq
accepts_first = refl

accepts_second : validate_relative_path "c" ≡ ok (codes "c")
unfolding validate_relative_path components split_on first_component component_of later_components
    components_of starts_with is_drive bytes_eq
accepts_second = refl

-- A path upwards and a doubled separator at the front are refused.
refuses_up : validate_relative_path "a/../b" ≢ ok (codes "a/../b")
unfolding validate_relative_path components split_on first_component component_of later_components
    components_of starts_with is_drive bytes_eq
refuses_up h = cc

packs : pack_sources toy_bundle (fixed 10) none none sources ≡ ok (two_files, packed)
unfolding pack_sources build_manifest build_entries checked_sum copy_sources copy_source_checked
    padding_target bytes_eq to_le_bytes
packs = refl

keys_differ : codes "a/b" ≢ codes "c"
keys_differ h = absurd (cc)

validate_relative_path-IsSafe_example : (codes "a/b" ≡ codes "a/b") × IsSafe (codes "a/b")
validate_relative_path-IsSafe_example =
    validate_relative_path-IsSafe "a/b" (codes "a/b") accepts_first

extract_plaintext-pack_sources_example :
    extract_plaintext toy_bundle packed ≡ ok (two_files, files_of sources)
extract_plaintext-pack_sources_example =
    extract_plaintext-pack_sources toy_bundle (fixed 10) none none sources two_files packed
      ((codes "a/b", accepts_first), ((codes "c", accepts_second), tt))
      ((keys_differ, tt), (tt, tt)) (λ bytes h. refl) (omega arith) packs

lays_out : validate_layout toy_bundle two_files 5 10 ≡ ok tt
unfolding validate_layout check_entries checked_sum insert_range sort_ranges check_windows bytes_eq
lays_out = rw (accepts_first, accepts_second) refl

validate_layout-HasLayout_example : HasLayout toy_bundle 5 10 two_files.entries
validate_layout-HasLayout_example = validate_layout-HasLayout toy_bundle two_files 5 10 lays_out

padding_target-IsTarget_example :
    (target : ℕ) × (padding_target 5 bucket ≡ ok target) × IsTarget bucket 5 target
padding_target-IsTarget_example = padding_target-IsTarget 5 bucket (omega arith)
