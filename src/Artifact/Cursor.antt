-- ===== src/Artifact/Cursor.antt =====
-- Reading a capsule from memory and taking its bytes apart are the same.
use lvau.Base.{
  ℕ, zero, suc, if◌then◌else◌, take_eq, ◌+◌, ◌-◌, ◌≤◌, ◌<◌, ◌≡◌, refl, sym, ap, ◌∙◌, Bool, true,
  false, not, ◌&&◌, none, some, [], ◌∷◌, length, take, drop, leb, ◌==◌, arith, take_of_length_le,
  drop_of_length_le, append-nil, length-take, length-drop, ==_iff, drop-drop, Bool-cases, inl, inr,
}
use lvau.Base.Bytes.{Bytes, from_le_bytes}
use lvau.Error.{
  Result, ok, ok_or, map_err, require, >>=-eq-ok, map_err-eq-ok, ok_or-eq-ok, require-eq-ok,
}
use lvau.Envelope.{Envelope}
use lvau.Reader.{piece, fill}
use lvau.Capsule.{Backend, max_envelope_size, decode_envelope_bytes, read_exact, read_envelope}
use lvau.Capsule.Decrypt.{cursor}
use lvau.Artifact.{get_range, decode_capsule_envelope}

cursor_piece : (xs : Bytes) → 0 < length xs → piece xs ∷ [] ≡ cursor xs
cursor_piece [] h = absurd (omega arith)
cursor_piece (x ∷ xs) h = refl

-- A cursor gives the bytes that are asked for, or all, and is then a cursor over the others.
pub fill-cursor : (n : ℕ) (xs : Bytes) → fill n (cursor xs) ≡ ok (take n xs, cursor (drop n xs))
unfolding fill
fill-cursor zero [] = refl
fill-cursor (suc n) [] = refl
fill-cursor zero (x ∷ xs) = refl
fill-cursor (suc n) (x ∷ xs) = elim (Bool-cases (leb (suc (length xs)) (suc n))) [
  | inl fits ↦
      let le : length xs ≤ n = ground arith in
      let some_room : (suc n == 0) ≡ false = ground arith in
      rw (some_room, fits, take_of_length_le n xs le, drop_of_length_le n xs le, append-nil xs) refl
  | inr over ↦
      let more : 0 < length (drop n xs) = ground (arith, length-drop n xs) in
      let some_room : (suc n == 0) ≡ false = ground arith in
      rw (some_room, over, cursor_piece (drop n xs) more) refl
]

pub read_exact-cursor :
    (n : ℕ) (xs : Bytes)
    → n ≤ length xs
    → read_exact n (cursor xs) ≡ ok (take n xs, cursor (drop n xs))
unfolding read_exact
read_exact-cursor n xs h =
    let size : length (take n xs) ≡ n = omega (arith, length-take n xs) in
    rw (fill-cursor n xs, (==_iff (length (take n xs)) n).1 size) refl

if_some :
    {A : Type 0} (c : Bool) (v part : A)
    → (if c then some v else none) ≡ some part
    → (c ≡ true) × (v ≡ part)
if_some true v part h = (refl, cc)
if_some false v part h = absurd (cc)

-- What a range that is there gives.
get_range-eq-some :
    (a n : ℕ) (file part : Bytes)
    → get_range a (a + n) file ≡ some part
    → (a + n ≤ length file) × (take n (drop a file) ≡ part)
unfolding get_range
get_range-eq-some a n file part h =
    let (inside, same) = if_some (leb a (a + n) && leb (a + n) (length file)) _ part h in
    let le : a + n ≤ length file = ground arith in
    (le, take_eq n (a + n - a) (drop a file) (omega arith) ∙ same)

-- A file that was taken apart: its length field, its envelope, and the length of both.
pub record Parts (b : Backend) (file : Bytes) (e : Envelope) (end_ : ℕ) : Type 0 where
  pub envelope_len : ℕ
  pub len_eq : from_le_bytes (take 4 file) ≡ envelope_len
  pub end_eq : end_ ≡ 4 + envelope_len
  pub inside : 4 + envelope_len ≤ length file
  pub positive : (envelope_len == 0) ≡ false
  pub fits : leb envelope_len max_envelope_size ≡ true
  pub decoded : decode_envelope_bytes b (take envelope_len (drop 4 file)) ≡ ok e

pub decode_capsule_envelope-Parts :
    {E : Type 0} (b : Backend) (error : E) (file : Bytes) (e : Envelope) (end_ : ℕ)
    → decode_capsule_envelope b error file ≡ ok (e, end_)
    → Parts b file e end_
unfolding decode_capsule_envelope
decode_capsule_envelope-Parts b error file e end_ h =
    let (length_bytes, c1, h1) = >>=-eq-ok (ok_or (get_range 0 4 file) error) _ h in
    let n = from_le_bytes length_bytes in
    let (_, c2, h2) = >>=-eq-ok (require (not (n == 0) && leb n max_envelope_size) error) _ h1 in
    let (part, c3, h3) = >>=-eq-ok (ok_or (get_range 4 (4 + n) file) error) _ h2 in
    let (e', c4, h4) = >>=-eq-ok (map_err (λ _. error) (decode_envelope_bytes b part)) _ h3 in
    let (_, first) = get_range-eq-some 0 4 file length_bytes (ok_or-eq-ok _ error c1) in
    let (inside, rest) = get_range-eq-some 4 n file part (ok_or-eq-ok _ error c3) in
    let sized = require-eq-ok (not (n == 0) && leb n max_envelope_size) error c2 in
    let (same, stop) = pair_of (ok (e', 4 + n)) refl h4 in
    record {
      envelope_len = n;
      len_eq = ap from_le_bytes first;
      end_eq = sym stop;
      inside = inside;
      positive = ground arith;
      fits = ground arith;
      decoded = ap (decode_envelope_bytes b) rest ∙ map_err-eq-ok _ _ c4 ∙ ap ok same;
    }
  where
    pair_of :
        {A B E : Type 0} {x x' : A} {y y' : B}
        → (r : Result (A × B) E) → r ≡ ok (x, y)
        → r ≡ ok (x', y')
        → (x ≡ x') × (y ≡ y')
    pair_of r h k = (cc, cc)

-- A range that lies inside is there.
get_range-inside :
    (a n : ℕ) (file : Bytes)
    → a + n ≤ length file
    → get_range a (a + n) file ≡ some (take n (drop a file))
unfolding get_range
get_range-inside a n file h =
    let inside : (leb a (a + n) && leb (a + n) (length file)) ≡ true = ground arith in
    rw (inside, take_eq (a + n - a) n (drop a file) (omega arith)) refl

-- And a file that is so made is taken apart.
pub Parts-decode :
    {E : Type 0} (b : Backend) (error : E) (file : Bytes) (e : Envelope) (end_ : ℕ)
    → Parts b file e end_
    → decode_capsule_envelope b error file ≡ ok (e, end_)
unfolding decode_capsule_envelope
Parts-decode b error file e end_ p =
    let first = get_range-inside 0 4 file (omega (arith, p.inside)) in
    let rest = get_range-inside 4 p.envelope_len file p.inside in
    rw (first, p.len_eq, p.positive, p.fits, rest, p.decoded, p.end_eq) refl

-- Reading an envelope from memory finds the same envelope, and leaves what follows it.
pub read_envelope-decode :
    {E : Type 0} (b : Backend) (error : E) (file : Bytes) (e : Envelope) (end_ : ℕ)
    → decode_capsule_envelope b error file ≡ ok (e, end_)
    → read_envelope b (cursor file) ≡ ok (e, cursor (drop end_ file))
unfolding read_envelope
read_envelope-decode b error file e end_ h =
    let p = decode_capsule_envelope-Parts b error file e end_ h in
    let room : p.envelope_len ≤ length (drop 4 file) =
      omega (arith, length-drop 4 file, p.inside) in
    rw
      (
        read_exact-cursor 4 file (omega (arith, p.inside)),
        p.len_eq,
        p.positive,
        p.fits,
        read_exact-cursor p.envelope_len (drop 4 file) room,
        p.decoded,
        drop-drop p.envelope_len 4 file,
        p.end_eq,
      )
      refl
