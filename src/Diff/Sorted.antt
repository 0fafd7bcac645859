-- ===== src/Diff/Sorted.antt =====
-- The order of a report's files, which sorting keeps in number.
use lvau.Base.{
  ℕ, ◌+◌, ◌≡◌, refl, ap, ◌∙◌, Bool, true, false, Bool-cases, inl, inr, List, [], ◌∷◌, if◌then◌else◌,
  arith,
}
use lvau.Base.Bytes.{Bytes, codes}
use lvau.Diff.Spec.{IsAtMost, path_le-IsAtMost}
use lvau.Diff.{FileDiff, path_le, insert_file, sort_files}

abbrev pub count {ℓ} : {A : Type ℓ} → (A → Bool) → List A → ℕ
count p [] = 0
count p (x ∷ xs) = (if p x then 1 else 0) + count p xs

abbrev Precedes : FileDiff → List FileDiff → Type 0
Precedes f [] = Unit {0}
Precedes f (g ∷ gs) = IsAtMost (codes f.path) (codes g.path)

abbrev pub IsSorted : List FileDiff → Type 0
IsSorted [] = Unit {0}
IsSorted (f ∷ fs) = Precedes f fs × IsSorted fs

path_le_total : (xs ys : Bytes) → path_le xs ys ≡ false → path_le ys xs ≡ true
unfolding path_le
path_le_total [] ys h = absurd (cc)
path_le_total (x ∷ xs) [] h = refl
path_le_total (x ∷ xs) (y ∷ ys) h = ground (arith, path_le_total xs ys)

insert_file-Precedes :
    (f g : FileDiff) (gs : List FileDiff)
    → path_le (codes g.path) (codes f.path) ≡ true
    → Precedes g gs
    → Precedes g (insert_file f gs)
unfolding insert_file
insert_file-Precedes f g [] h k = path_le-IsAtMost (codes g.path) (codes f.path) h
insert_file-Precedes f g (i ∷ is) h k = elim (Bool-cases (path_le (codes f.path) (codes i.path))) [
  | inl le ↦ rw le (path_le-IsAtMost (codes g.path) (codes f.path) h)
  | inr gt ↦ rw gt k
]

insert_file-IsSorted :
    (f : FileDiff) (gs : List FileDiff) → IsSorted gs → IsSorted (insert_file f gs)
unfolding insert_file
insert_file-IsSorted f [] h = (tt, tt)
insert_file-IsSorted f (g ∷ gs) (first, rest) =
    elim (Bool-cases (path_le (codes f.path) (codes g.path))) [
      | inl le ↦ rw le (path_le-IsAtMost (codes f.path) (codes g.path) le, (first, rest))
      | inr gt ↦ rw gt (
        insert_file-Precedes f g gs (path_le_total (codes f.path) (codes g.path) gt) first,
        insert_file-IsSorted f gs rest,
      )
    ]

pub sort_files-IsSorted : (fs : List FileDiff) → IsSorted (sort_files fs)
unfolding sort_files
sort_files-IsSorted [] = tt
sort_files-IsSorted (f ∷ fs) = insert_file-IsSorted f (sort_files fs) (sort_files-IsSorted fs)

count-insert_file :
    (p : FileDiff → Bool) (f : FileDiff) (gs : List FileDiff)
    → count p (insert_file f gs) ≡ count p (f ∷ gs)
unfolding insert_file
count-insert_file p f [] = refl
count-insert_file p f (g ∷ gs) = elim (Bool-cases (path_le (codes f.path) (codes g.path))) [
  | inl le ↦ rw le refl
  | inr gt ↦ rw (gt, count-insert_file p f gs) (omega arith)
]

pub count-sort_files :
    (p : FileDiff → Bool) (fs : List FileDiff) → count p (sort_files fs) ≡ count p fs
unfolding sort_files
count-sort_files p [] = refl
count-sort_files p (f ∷ fs) =
    count-insert_file p f (sort_files fs)
    ∙ ap (λ n. (if p f then 1 else 0) + n) (count-sort_files p fs)
