-- ===== src/Diff.antt =====
-- crates/lvau-core/src/diff.rs: the comparison of two manifests. A map from paths to entries is looked up in the
-- list that it was filled from, where the last entry of a path counts.
pub mod Counts
pub mod Spec
pub mod Sorted
use lvau.Base.{
  ℕ, suc, ◌+◌, Bool, true, false, not, Option, none, some, List, [], ◌∷◌, ◌++◌, String, is_some,
  ltb, ◌==◌, if◌then◌else◌,
}
use lvau.Base.Bytes.{Bytes, codes, bytes_eq}
use lvau.Envelope.{BundleEntry, BundleManifest}

pub data DiffStatus : Type 0 where
  added removed modified unchanged : DiffStatus

pub record FileDiff : Type 0 where
  pub path : String
  pub status : DiffStatus
  pub old_size : Option ℕ
  pub new_size : Option ℕ

pub record DiffReport : Type 0 where
  pub files : List FileDiff
  pub added_count : ℕ
  pub removed_count : ℕ
  pub modified_count : ℕ
  pub unchanged_count : ℕ

-- `map.get(path)` after the loop that inserts every entry.
unfoldable pub get : List BundleEntry → String → Option BundleEntry
get [] path = none
get (e ∷ es) path =
    let later = get es path in
    elim later [
      | none ↦ if bytes_eq (codes e.relative_path) (codes path) then some e else none
      | some f ↦ some f
    ]

-- The difference that an old entry makes, with what the new map has under its path.
unfoldable pub old_diff : BundleEntry → Option BundleEntry → FileDiff
old_diff entry (some new_entry) = record {
  path = entry.relative_path;
  status = if not (bytes_eq entry.blake3_hash new_entry.blake3_hash) then modified else unchanged;
  old_size = some entry.size;
  new_size = some new_entry.size;
}
old_diff entry none = record {
  path = entry.relative_path;
  status = removed;
  old_size = some entry.size;
  new_size = none;
}

unfoldable pub new_diff : BundleEntry → FileDiff
new_diff entry = record {
  path = entry.relative_path;
  status = added;
  old_size = none;
  new_size = some entry.size;
}

unfoldable pub count_file : DiffStatus → DiffReport → DiffReport
count_file added r = record r { added_count = r.added_count + 1 }
count_file removed r = record r { removed_count = r.removed_count + 1 }
count_file modified r = record r { modified_count = r.modified_count + 1 }
count_file unchanged r = record r { unchanged_count = r.unchanged_count + 1 }

-- `files.push(…)`, and the counter of its status.
unfoldable pub push_file : DiffReport → FileDiff → DiffReport
push_file report file =
    count_file file.status (record report { files = report.files ++ (file ∷ []) })

-- The two loops.
unfoldable pub visit_old : List BundleEntry → List BundleEntry → DiffReport → DiffReport
visit_old new [] report = report
visit_old new (e ∷ es) report =
    visit_old new es (push_file report (old_diff e (get new e.relative_path)))

unfoldable pub visit_new : List BundleEntry → List BundleEntry → DiffReport → DiffReport
visit_new old [] report = report
visit_new old (e ∷ es) report =
    visit_new old es
      (if not (is_some (get old e.relative_path)) then push_file report (new_diff e) else report)

-- `a.path.cmp(&b.path)` is not greater: the order of the bytes of UTF-8 is that of the code points.
unfoldable pub path_le : Bytes → Bytes → Bool
path_le [] ys = true
path_le (x ∷ xs) [] = false
path_le (x ∷ xs) (y ∷ ys) = let rest = path_le xs ys in if x == y then rest else ltb x y

-- `sort_by`, which is stable.
unfoldable pub insert_file : FileDiff → List FileDiff → List FileDiff
insert_file f [] = f ∷ []
insert_file f (g ∷ gs) =
    let rest = insert_file f gs in
    if path_le (codes f.path) (codes g.path) then f ∷ g ∷ gs else g ∷ rest

unfoldable pub sort_files : List FileDiff → List FileDiff
sort_files [] = []
sort_files (f ∷ fs) = insert_file f (sort_files fs)

abbrev pub empty_report : DiffReport
empty_report = record {
  files = [];
  added_count = 0;
  removed_count = 0;
  modified_count = 0;
  unchanged_count = 0;
}

unfoldable pub diff_manifests : BundleManifest → BundleManifest → DiffReport
diff_manifests old_manifest new_manifest =
    let visited =
      visit_new old_manifest.entries new_manifest.entries
        (visit_old new_manifest.entries old_manifest.entries empty_report) in
    record visited { files = sort_files visited.files }
