-- ===== src/Diff/Counts.antt =====
-- What a report says of two manifests.
use lvau.Base.{
  ◌+◌, ◌≡◌, refl, sym, ap, ◌∙◌, Bool, true, false, not, Bool-cases, inl, inr, List, [], ◌∷◌, ◌++◌,
  append-nil, append_assoc, is_some, if◌then◌else◌, arith,
}
use lvau.Envelope.{BundleEntry, BundleManifest}
use lvau.Diff.Sorted.{count, IsSorted, sort_files-IsSorted, count-sort_files}
use lvau.Diff.Spec.{AreOldDiffs, AreNewDiffs, get_cases, old_diff-IsOldDiff, added_lem}
use lvau.Diff.{
  DiffStatus, added, removed, modified, unchanged, FileDiff, DiffReport, get, old_diff, new_diff,
  count_file, push_file, visit_old, visit_new, empty_report, diff_manifests,
}

abbrev pub is_added : FileDiff → Bool
is_added f = elim f.status [ added ↦ true | _ ↦ false ]

abbrev pub is_removed : FileDiff → Bool
is_removed f = elim f.status [ removed ↦ true | _ ↦ false ]

abbrev pub is_modified : FileDiff → Bool
is_modified f = elim f.status [ modified ↦ true | _ ↦ false ]

abbrev pub is_unchanged : FileDiff → Bool
is_unchanged f = elim f.status [ unchanged ↦ true | _ ↦ false ]

-- What the two loops push.
abbrev old_diffs : List BundleEntry → List BundleEntry → List FileDiff
old_diffs new [] = []
old_diffs new (e ∷ es) = old_diff e (get new e.relative_path) ∷ old_diffs new es

abbrev new_diffs : List BundleEntry → List BundleEntry → List FileDiff
new_diffs old [] = []
new_diffs old (e ∷ es) =
    if not (is_some (get old e.relative_path))
    then new_diff e ∷ new_diffs old es
    else new_diffs old es

abbrev differences : List BundleEntry → List BundleEntry → List FileDiff
differences old new = old_diffs new old ++ new_diffs old new

-- The counters are those of the files.
pub record Tallies (r : DiffReport) : Type 0 where
  pub added_eq : r.added_count ≡ count is_added r.files
  pub removed_eq : r.removed_count ≡ count is_removed r.files
  pub modified_eq : r.modified_count ≡ count is_modified r.files
  pub unchanged_eq : r.unchanged_count ≡ count is_unchanged r.files

count-append :
    (p : FileDiff → Bool) (xs ys : List FileDiff) → count p (xs ++ ys) ≡ count p xs + count p ys
count-append p [] ys = omega arith
count-append p (x ∷ xs) ys = omega (arith, count-append p xs ys)

one_more :
    (p : FileDiff → Bool) (fs : List FileDiff) (f : FileDiff)
    → p f ≡ true
    → count p (fs ++ (f ∷ [])) ≡ count p fs + 1
one_more p fs f h = count-append p fs (f ∷ []) ∙ rw h (omega arith)

no_more :
    (p : FileDiff → Bool) (fs : List FileDiff) (f : FileDiff)
    → p f ≡ false
    → count p (fs ++ (f ∷ [])) ≡ count p fs
no_more p fs f h = count-append p fs (f ∷ []) ∙ rw h (omega arith)

count_file-files : (s : DiffStatus) (r : DiffReport) → (count_file s r).files ≡ r.files
unfolding count_file
count_file-files added r = refl
count_file-files removed r = refl
count_file-files modified r = refl
count_file-files unchanged r = refl

push_file-files : (r : DiffReport) (f : FileDiff) → (push_file r f).files ≡ r.files ++ (f ∷ [])
unfolding push_file
push_file-files r f = count_file-files f.status (record r { files = r.files ++ (f ∷ []) })

count_file-Tallies :
    (s : DiffStatus) (r : DiffReport) (f : FileDiff)
    → f.status ≡ s
    → Tallies r
    → Tallies (count_file s (record r { files = r.files ++ (f ∷ []) }))
unfolding count_file
count_file-Tallies added r f h t = record {
  added_eq = ap (λ n. n + 1) t.added_eq ∙ sym (one_more is_added r.files f (rw h refl));
  removed_eq = t.removed_eq ∙ sym (no_more is_removed r.files f (rw h refl));
  modified_eq = t.modified_eq ∙ sym (no_more is_modified r.files f (rw h refl));
  unchanged_eq = t.unchanged_eq ∙ sym (no_more is_unchanged r.files f (rw h refl));
}
count_file-Tallies removed r f h t = record {
  added_eq = t.added_eq ∙ sym (no_more is_added r.files f (rw h refl));
  removed_eq = ap (λ n. n + 1) t.removed_eq ∙ sym (one_more is_removed r.files f (rw h refl));
  modified_eq = t.modified_eq ∙ sym (no_more is_modified r.files f (rw h refl));
  unchanged_eq = t.unchanged_eq ∙ sym (no_more is_unchanged r.files f (rw h refl));
}
count_file-Tallies modified r f h t = record {
  added_eq = t.added_eq ∙ sym (no_more is_added r.files f (rw h refl));
  removed_eq = t.removed_eq ∙ sym (no_more is_removed r.files f (rw h refl));
  modified_eq = ap (λ n. n + 1) t.modified_eq ∙ sym (one_more is_modified r.files f (rw h refl));
  unchanged_eq = t.unchanged_eq ∙ sym (no_more is_unchanged r.files f (rw h refl));
}
count_file-Tallies unchanged r f h t = record {
  added_eq = t.added_eq ∙ sym (no_more is_added r.files f (rw h refl));
  removed_eq = t.removed_eq ∙ sym (no_more is_removed r.files f (rw h refl));
  modified_eq = t.modified_eq ∙ sym (no_more is_modified r.files f (rw h refl));
  unchanged_eq = ap (λ n. n + 1) t.unchanged_eq ∙ sym (one_more is_unchanged r.files f (rw h refl));
}

push_file-Tallies : (r : DiffReport) (f : FileDiff) → Tallies r → Tallies (push_file r f)
unfolding push_file
push_file-Tallies r f t = count_file-Tallies f.status r f refl t

-- What a loop has done to a report: pushed these files.
record Pushed (r r' : DiffReport) (fs : List FileDiff) : Type 0 where
  pub files_eq : r'.files ≡ r.files ++ fs
  pub keeps : Tallies r → Tallies r'

Pushed-cons :
    (r r' : DiffReport) (f : FileDiff) (fs : List FileDiff)
    → Pushed (push_file r f) r' fs
    → Pushed r r' (f ∷ fs)
Pushed-cons r r' f fs p = record {
  files_eq =
      p.files_eq ∙ ap (λ t. t ++ fs) (push_file-files r f) ∙ append_assoc r.files (f ∷ []) fs;
  keeps = λ t. p.keeps (push_file-Tallies r f t);
}

visit_old-Pushed :
    (new es : List BundleEntry) (r : DiffReport) → Pushed r (visit_old new es r) (old_diffs new es)
unfolding visit_old
visit_old-Pushed new [] r = record { files_eq = sym (append-nil r.files); keeps = λ t. t }
visit_old-Pushed new (e ∷ es) r =
    let f = old_diff e (get new e.relative_path) in
    Pushed-cons r (visit_old new es (push_file r f)) f (old_diffs new es)
      (visit_old-Pushed new es (push_file r f))

visit_new-Pushed :
    (old es : List BundleEntry) (r : DiffReport) → Pushed r (visit_new old es r) (new_diffs old es)
unfolding visit_new
visit_new-Pushed old [] r = record { files_eq = sym (append-nil r.files); keeps = λ t. t }
visit_new-Pushed old (e ∷ es) r = elim (Bool-cases (is_some (get old e.relative_path))) [
  | inl there ↦ rw there (visit_new-Pushed old es r)
  | inr not_there ↦ rw not_there (
      Pushed-cons r (visit_new old es (push_file r (new_diff e))) (new_diff e) (new_diffs old es)
        (visit_new-Pushed old es (push_file r (new_diff e))))
]

old_diffs-AreOldDiffs : (new es : List BundleEntry) → AreOldDiffs new es (old_diffs new es)
old_diffs-AreOldDiffs new [] = refl
old_diffs-AreOldDiffs new (e ∷ es) = (
  old_diff e (get new e.relative_path),
  old_diffs new es,
  refl,
  old_diff-IsOldDiff new e,
  old_diffs-AreOldDiffs new es,
)

new_diffs-AreNewDiffs : (old es : List BundleEntry) → AreNewDiffs old es (new_diffs old es)
new_diffs-AreNewDiffs old [] = refl
new_diffs-AreNewDiffs old (e ∷ es) = elim (get_cases old e.relative_path) [
  | inl (nothing, lacks) ↦ inl (
    lacks,
    (new_diff e, new_diffs old es, rw nothing refl, added_lem e, new_diffs-AreNewDiffs old es),
  )
  | inr (f, there, last) ↦ inr ((f, last), rw there (new_diffs-AreNewDiffs old es))
]

-- A report's files, in any order, its counters and its order.
pub record Reports (old new : List BundleEntry) (r : DiffReport) : Type 0 where
  pub of_old : List FileDiff
  pub of_new : List FileDiff
  pub of_old_eq : AreOldDiffs new old of_old
  pub of_new_eq : AreNewDiffs old new of_new
  pub same_files : (p : FileDiff → Bool) → count p r.files ≡ count p (of_old ++ of_new)
  pub tallies : Tallies r
  pub sorted : IsSorted r.files

-- A report has one difference for each old entry and one for each new entry whose path no old entry has, and no
-- other: every test holds of equally many. An old entry is removed where no new entry has its path; otherwise the
-- last new entry of that path decides, the entry is unchanged if the two hashes are the same and modified if not.
-- Each difference has the path and the sizes of its entries. The files stand in the order of the code points of
-- their paths, and the four counters are the numbers of files with each status.
pub diff_manifests-Reports :
    (old new : BundleManifest) → Reports old.entries new.entries (diff_manifests old new)
unfolding diff_manifests
diff_manifests-Reports old new =
    let first = visit_old new.entries old.entries empty_report in
    let last = visit_new old.entries new.entries first in
    let p = visit_old-Pushed new.entries old.entries empty_report in
    let q = visit_new-Pushed old.entries new.entries first in
    let t = q.keeps (
      p.keeps
        (record { added_eq = refl; removed_eq = refl; modified_eq = refl; unchanged_eq = refl })) in
    record {
      of_old = old_diffs new.entries old.entries;
      of_new = new_diffs old.entries new.entries;
      of_old_eq = old_diffs-AreOldDiffs new.entries old.entries;
      of_new_eq = new_diffs-AreNewDiffs old.entries new.entries;
      same_files = λ test.
          count-sort_files test last.files
          ∙ ap (count test)
              (q.files_eq ∙ ap (λ z. z ++ new_diffs old.entries new.entries) p.files_eq);
      tallies = record {
        added_eq = t.added_eq ∙ sym (count-sort_files is_added last.files);
        removed_eq = t.removed_eq ∙ sym (count-sort_files is_removed last.files);
        modified_eq = t.modified_eq ∙ sym (count-sort_files is_modified last.files);
        unchanged_eq = t.unchanged_eq ∙ sym (count-sort_files is_unchanged last.files);
      };
      sorted = sort_files-IsSorted last.files;
    }
