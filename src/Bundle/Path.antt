-- ===== src/Bundle/Path.antt =====
-- What an accepted path is.
use lvau.Base.{
  ℕ, ◌≡◌, ◌≢◌, refl, sym, ap, ◌∙◌, Bool, true, false, not, ◌||◌, Bool-cases, inl, inr, Option, none,
  some, List, [], ◌∷◌, String, is_empty, all, any, ◌==◌, ==_iff, arith, All,
}
use Prim.Native.String
use lvau.Base.Bytes.{Bytes, codes, bytes_eq}
use lvau.Error.{Result, ok, require, >>=-eq-ok, require-eq-ok}
use lvau.Bundle.{
  BundleError, cons_some, push, Component, root_dir, cur_dir, parent_dir, normal, slash, backslash,
  split_on, component_of, first_component, later_components, components_of, components, is_normal,
  starts_with, is_drive, validate_relative_path, path_traversal,
}

-- A segment that does not lead upwards.
abbrev pub IsDown : Bytes → Type 0
IsDown segment = segment ≢ codes ".."

abbrev pub HasFirst : List Bytes → Type 0
HasFirst [] = ⊥
HasFirst (s ∷ ss) = (s ≢ []) × (s ≢ codes ".")

-- A path that stays below the directory that it is joined to, on Unix and on Windows.
pub record IsSafe (path : Bytes) : Type 0 where
  pub nonempty : path ≢ []
  pub no_backslash : All (λ c. c ≢ backslash) path
  pub no_drive : is_drive path ≡ false
  pub down : All IsDown (split_on slash path)
  -- it starts with neither a separator nor a dot segment
  pub first : HasFirst (split_on slash path)

no_char : (c : ℕ) (cs : Bytes) → any (λ d. d == c) cs ≡ false → All (λ d. d ≢ c) cs
no_char c [] h = tt
no_char c (d ∷ ds) h = elim (Bool-cases (d == c)) [
  | inl same ↦ absurd (ground arith)
  | inr other ↦
      let rest : any (λ d. d == c) ds ≡ false = rw other at h in
      let differs : d ≢ c = λ e. absurd (ground (arith, (==_iff d c).1 e)) in
      (differs, no_char c ds rest)
]

tail_normal :
    (o : Option Component) (cs : List Component)
    → all is_normal (cons_some o cs) ≡ true
    → all is_normal cs ≡ true
tail_normal none cs h = h
tail_normal (some (normal s)) cs h = h
tail_normal (some root_dir) cs h = absurd (cc)
tail_normal (some cur_dir) cs h = absurd (cc)
tail_normal (some parent_dir) cs h = absurd (cc)

down_lem :
    (s : Bytes) (cs : List Component)
    → all is_normal (cons_some (component_of s) cs) ≡ true
    → IsDown s
unfolding component_of bytes_eq
down_lem s cs h same =
    let up : all is_normal (cons_some (component_of (codes "..")) cs) ≡ true = rw same at h in
    absurd (cc)

later_lem : (ss : List Bytes) → all is_normal (later_components ss) ≡ true → All IsDown ss
unfolding later_components
later_lem [] h = tt
later_lem (s ∷ ss) h =
    (down_lem s (later_components ss) h, later_lem ss (tail_normal (component_of s) _ h))

first-IsDown :
    (s : Bytes) (cs : List Component)
    → all is_normal (cons_some (first_component s) cs) ≡ true
    → (s ≢ []) × (s ≢ codes ".") × IsDown s
unfolding first_component component_of bytes_eq
first-IsDown s cs h = (
  λ same.
      let root : all is_normal (cons_some (first_component []) cs) ≡ true = rw same at h in
      absurd (cc),
  λ same.
      let dot : all is_normal (cons_some (first_component (codes ".")) cs) ≡ true = rw same at h in
      absurd (cc),
  λ same.
      let up : all is_normal (cons_some (first_component (codes "..")) cs) ≡ true = rw same at h in
      absurd (cc),
)

segments_lem :
    (segments : List Bytes)
    → is_empty segments ≡ false
    → all is_normal (components_of segments) ≡ true
    → All IsDown segments × HasFirst segments
unfolding components_of
segments_lem [] nonempty h = absurd (cc)
segments_lem (s ∷ ss) nonempty h =
    let (some_, no_dot, down) = first-IsDown s (later_components ss) h in
    ((down, later_lem ss (tail_normal (first_component s) _ h)), (some_, no_dot))

push_cons : (c : ℕ) (ss : List Bytes) → is_empty (push c ss) ≡ false
push_cons c [] = refl
push_cons c (s ∷ ss) = refl

split_cons : (separator : ℕ) (cs : Bytes) → is_empty (split_on separator cs) ≡ false
unfolding split_on
split_cons separator [] = refl
split_cons separator (c ∷ cs) = elim (Bool-cases (c == separator)) [
  | inl same ↦ rw same refl
  | inr other ↦ rw other (push_cons c (split_on separator cs))
]

components_cons :
    (cs : Bytes) → is_empty cs ≡ false → components cs ≡ components_of (split_on slash cs)
unfolding components
components_cons cs h = rw h refl

or_false : (a b : Bool) → not (a || b) ≡ true → (a ≡ false) × (b ≡ false)
or_false a b h = ground arith

not_nil : (cs : Bytes) → is_empty cs ≡ false → cs ≢ []
not_nil [] h = absurd (cc)
not_nil (c ∷ cs) h = λ e. absurd (cc)

-- A relative path that the code accepts is returned as it is. It is not empty, has no backslash and no drive letter,
-- none of its segments leads upwards, and it starts neither with a separator nor with a dot segment.
pub validate_relative_path-IsSafe :
    (path : String) (cs : Bytes)
    → validate_relative_path path ≡ ok cs
    → (cs ≡ codes path) × IsSafe (codes path)
unfolding validate_relative_path
validate_relative_path-IsSafe path cs h =
    let s = codes path in
    let (_, c1, h1) =
      >>=-eq-ok
        (require (not (is_empty s || any (λ c. c == backslash) s))
          (path_traversal (String.◌++◌ "Empty or non-canonical path rejected: " path)))
        _ h in
    let (_, c2, h2) =
      >>=-eq-ok
        (require (not (starts_with slash s || starts_with backslash s))
          (path_traversal (String.◌++◌ "Absolute or leading-separator path rejected: " path)))
        _ h1 in
    let (_, c3, h3) =
      >>=-eq-ok
        (require (not (is_drive s))
          (path_traversal (String.◌++◌ "Windows drive path rejected: " path)))
        _ h2 in
    let (_, c4, h4) =
      >>=-eq-ok
        (require (all is_normal (components s))
          (path_traversal (String.◌++◌ "Non-canonical path component rejected: " path)))
        _ h3 in
    let (some_, plain) =
      or_false (is_empty s) (any (λ c. c == backslash) s) (require-eq-ok _ _ c1) in
    let (down, first) =
      segments_lem (split_on slash s) (split_cons slash s)
        (ap (all is_normal) (sym (components_cons s some_)) ∙ require-eq-ok _ _ c4) in
    (
      ok_injective (ok s) refl h4,
      record {
        nonempty = not_nil s some_;
        no_backslash = no_char backslash s plain;
        no_drive = not_true (is_drive s) (require-eq-ok _ _ c3);
        down = down;
        first = first;
      },
    )
  where
    not_true : (b : Bool) → not b ≡ true → b ≡ false
    not_true b h = ground arith

    ok_injective :
        (r : Result Bytes BundleError) → r ≡ ok (codes path) → r ≡ ok cs → cs ≡ codes path
    ok_injective r h k = cc
