-- ===== src/Policy/Rules/Approvers.antt =====
-- The approvals are counted by the different fingerprints of their signers.
use lvau.Base.{
  Among, ℕ, suc, ◌%◌, ◌^◌, ◌≤◌, ◌≡◌, ◌≢◌, ◌↔◌, ◌⊎◌, inl, inr, refl, sym, ap, subst, ◌∙◌, Bool-cases,
  true, false, List, [], ◌∷◌, length, map, All,
}
use lvau.Base.Bytes.{Bytes, bytes_eq, bytes_eq_iff}
use lvau.Envelope.{Envelope}
use lvau.Policy.{contains, distinct}
use lvau.Policy.Rules.{approvals_count}
use lvau.Policy.Rules.Spec.{AreDifferent, HasApprovers}

-- Whether a text is among those that are left after the repetitions are dropped.
contains_cases :
    (x : Bytes) (xs : List Bytes)
    → ((contains x (distinct xs) ≡ true) × Among x xs)
      ⊎ ((contains x (distinct xs) ≡ false) × All (λ y. y ≢ x) xs)
unfolding contains distinct
contains_cases x [] = inr (refl, tt)
contains_cases x (y ∷ ys) = elim (contains_cases y ys) [
  | inl (there, again) ↦ elim (contains_cases x ys) [
    | inl (found, occurs) ↦ inl (rw there found, inr occurs)
    | inr (missing, others) ↦ inr (
      rw there missing,
      (
        λ same.
            let both : contains x (distinct ys) ≡ true =
              subst (λ z. contains z (distinct ys) ≡ true) same there in
            cc,
        others,
      ),
    )
  ]
  | inr (last, none_) ↦ elim (Bool-cases (bytes_eq x y)) [
    | inl same ↦ inl (rw (last, same) refl, inl ((bytes_eq_iff x y).0 same))
    | inr other ↦ elim (contains_cases x ys) [
      | inl (found, occurs) ↦ inl (rw (last, other, found) refl, inr occurs)
      | inr (missing, others) ↦ inr (
        rw (last, other, missing) refl,
        (λ same. let both = (bytes_eq_iff x y).1 (sym same) in cc, others),
      )
    ]
  ]
]

distinct-AreDifferent : (xs : List Bytes) → AreDifferent xs (length (distinct xs))
unfolding distinct
distinct-AreDifferent [] = refl
distinct-AreDifferent (x ∷ xs) = elim (contains_cases x xs) [
  | inl (found, occurs) ↦ inl (occurs, rw found (distinct-AreDifferent xs))
  | inr (missing, others) ↦
      inr (others, (length (distinct xs), rw missing refl, distinct-AreDifferent xs))
]

again_or_not : {P : Type 0} (x : Bytes) (xs : List Bytes) → Among x xs → All (λ y. y ≢ x) xs → P
again_or_not x [] occurs others = absurd occurs
again_or_not x (y ∷ ys) (inl same) (other, others) = absurd (other (sym same))
again_or_not x (y ∷ ys) (inr occurs) (other, others) = again_or_not x ys occurs others

AreDifferent-unique : (xs : List Bytes) (m n : ℕ) → AreDifferent xs m → AreDifferent xs n → m ≡ n
AreDifferent-unique [] m n h k = h ∙ sym k
AreDifferent-unique (x ∷ xs) m n (inl (o, h)) (inl (p, k)) = AreDifferent-unique xs m n h k
AreDifferent-unique (x ∷ xs) m n (inl (o, h)) (inr (p, k)) = again_or_not x xs o p
AreDifferent-unique (x ∷ xs) m n (inr (o, h)) (inl (p, k)) = again_or_not x xs p o
AreDifferent-unique (x ∷ xs) m n (inr (o, (m', e, h))) (inr (p, (n', f, k))) =
    e ∙ ap suc (AreDifferent-unique xs m' n' h k) ∙ sym f

pub approvals_count-HasApprovers :
    (e : Envelope) (least : ℕ) → (least ≤ approvals_count e) ↔ HasApprovers e least
unfolding approvals_count
approvals_count-HasApprovers e least =
    let fps = map (λ a. a.signer_fingerprint) e.approvals in
    (
      λ h. (length (distinct fps), distinct-AreDifferent fps, h),
      λ (n, different, h).
          subst (λ z. least ≤ z % 2 ^ 32)
            (AreDifferent-unique fps n (length (distinct fps)) different
              (distinct-AreDifferent fps))
            h,
    )
