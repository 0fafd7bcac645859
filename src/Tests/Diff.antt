-- ===== src/Tests/Diff.antt =====
-- Two manifests that differ in every way.
use lvau.Base.{◌≡◌, refl, none, List, [], ◌∷◌, String}
use lvau.Base.Bytes.{Bytes, codes, bytes_eq}
use lvau.Envelope.{BundleEntry, BundleManifest}
use lvau.Diff.{
  FileDiff, get, old_diff, new_diff, count_file, push_file, visit_old, visit_new, path_le,
  insert_file, sort_files, diff_manifests,
}
use lvau.Diff.Counts.{Reports, diff_manifests-Reports}

abbrev entry : String → Bytes → BundleEntry
entry path hash = record { relative_path = path; size = 1; blake3_hash = hash; offset = 0 }

abbrev old : BundleManifest
old = record {
  entries = entry "gone" (1 ∷ []) ∷ entry "same" (2 ∷ []) ∷ entry "edited" (3 ∷ []) ∷ [];
  created_at = none;
  tool_version = none;
}

abbrev new : BundleManifest
new = record {
  entries = entry "same" (2 ∷ []) ∷ entry "edited" (4 ∷ []) ∷ entry "fresh" (5 ∷ []) ∷ [];
  created_at = none;
  tool_version = none;
}

paths : List FileDiff → List Bytes
paths [] = []
paths (f ∷ fs) = codes f.path ∷ paths fs

diff_paths :
    paths (diff_manifests old new).files
    ≡ codes "edited" ∷ codes "fresh" ∷ codes "gone" ∷ codes "same" ∷ []
unfolding diff_manifests visit_old visit_new get old_diff new_diff count_file push_file path_le
    insert_file sort_files bytes_eq paths
diff_paths = refl

diff_manifests-Reports_example : Reports old.entries new.entries (diff_manifests old new)
diff_manifests-Reports_example = diff_manifests-Reports old new
