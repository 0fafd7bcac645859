-- ===== src/Reader/Laws.antt =====
-- The fill loop does not depend on how the bytes arrive.
use lvau.Base.{
  ℕ, zero, suc, ◌-◌, ◌≤◌, ◌<◌, ◌≡◌, refl, sym, ap, ◌∙◌, Bool-cases, inl, inr, leb, leb→le, [], ◌∷◌,
  length, take, drop, arith, take-append, drop-append, take-append_past, drop-append_past,
  length-drop, take-nil, drop-nil,
}
use lvau.Error.{ok}
use lvau.Reader.{piece, fault, Reader, content, fill, IsSteady}

-- What a call of `fill` on a steady reader gives.
pub record Filled (room : ℕ) (r : Reader) : Type 0 where
  pub left : Reader
  pub returned : fill room r ≡ ok (take room (content r), left)
  pub rest : content left ≡ drop room (content r)
  pub steady : IsSteady left

-- On a steady reader the loop returns the first `room` bytes of the content, or all of it, and
-- leaves the others, whatever the sizes of the pieces.
pub fill_lem : (room : ℕ) (r : Reader) → IsSteady r → Filled room r
unfolding fill content
fill_lem room [] h = record {
  left = [];
  returned = ap (λ t. ok (t, [])) (sym (take-nil room));
  rest = sym (drop-nil room);
  steady = tt;
}
fill_lem room (fault e ∷ r) h = absurd h
fill_lem zero (piece p ∷ r) h = record {
  left = piece p ∷ r;
  returned = refl;
  rest = refl;
  steady = h;
}
fill_lem (suc n) (piece [] ∷ r) h = absurd (omega arith)
fill_lem (suc n) (piece (b ∷ bs) ∷ r) h = elim (Bool-cases (leb (suc (length bs)) (suc n))) [
  | inl fits ↦
      let le : suc (length bs) ≤ suc n = leb→le _ _ fits in
      let later = fill_lem (suc n - suc (length bs)) r h.1 in
      record {
        left = later.left;
        returned = ground (arith, later.returned, take-append_past (suc n) (b ∷ bs) (content r) le);
        rest = later.rest ∙ sym (drop-append_past (suc n) (b ∷ bs) (content r) le);
        steady = later.steady;
      }
  | inr over ↦
      let below : suc n < suc (length bs) = ground arith in
      let le : suc n ≤ suc (length bs) = omega arith in
      record {
        left = piece (drop (suc n) (b ∷ bs)) ∷ r;
        returned = ground (arith, take-append (suc n) (b ∷ bs) (content r) le);
        rest = sym (drop-append (suc n) (b ∷ bs) (content r) le);
        steady = (omega (arith, length-drop (suc n) (b ∷ bs), below), h.1);
      }
]
