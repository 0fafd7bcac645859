-- ===== src/Bundle/Padding.antt =====
-- The length that a plaintext is padded to.
use lvau.Base.{
  ℕ, zero, suc, ◌+◌, ◌*◌, ◌^◌, ◌≤◌, ◌≡◌, ◌⊎◌, inl, inr, refl, ap, subst, ◌∙◌, max, true, false,
  Bool-cases, some, leb, leb→le, ltb, ltb→lt, arith,
}
use lvau.Error.{ok}
use lvau.Bundle.{PaddingProfile, unpadded, bucket, fixed}
use lvau.Bundle.Manifest.{power_from, checked_next_power_of_two, padding_target}
use native.Mathlib.Numerals.{unary_clauses}

-- The exponent of the smallest power of two that is not below `n`.
abbrev IsLeast : ℕ → ℕ → Type 0
IsLeast n m = (n ≤ 2 ^ m) × ((j : ℕ) → n ≤ 2 ^ j → m ≤ j)

-- What a target is, for a current length.
abbrev pub IsTarget : PaddingProfile → ℕ → ℕ → Type 0
IsTarget unpadded n target = target ≡ n
IsTarget bucket n target = (m : ℕ) × (target ≡ 2 ^ m) × IsLeast n m
IsTarget (fixed size) n target = (n ≤ target) × (size ≤ target) × ((target ≡ n) ⊎ (target ≡ size))

double : (k : ℕ) → 2 * 2 ^ k ≡ 2 ^ suc k
double k = simp unary_clauses (omega arith)

found_lem : (c k n : ℕ) → leb n (2 ^ k) ≡ true → power_from (suc c) (2 ^ k) n ≡ some (2 ^ k)
unfolding power_from
found_lem c k n h = rw h refl

step_lem :
    (c k n : ℕ)
    → leb n (2 ^ k) ≡ false
    → power_from (suc (suc c)) (2 ^ k) n ≡ power_from (suc c) (2 ^ suc k) n
unfolding power_from
step_lem c k n h = rw (h, double k) refl

power_from_lem :
    (c k n : ℕ)
    → n ≤ 2 ^ (k + c)
    → ((j : ℕ) → n ≤ 2 ^ j → k ≤ j)
    → (m : ℕ) × (power_from (suc c) (2 ^ k) n ≡ some (2 ^ m)) × IsLeast n m
power_from_lem zero k n h least =
    let same : 2 ^ (k + 0) ≡ 2 ^ k = ap (λ j. 2 ^ j) {x = k + 0} {y = k} (omega arith) in
    let le : n ≤ 2 ^ k = subst (λ p. n ≤ p) same h in
    let test : leb n (2 ^ k) ≡ true = ground arith in (k, found_lem zero k n test, (le, least))
power_from_lem (suc c) k n h least = elim (Bool-cases (leb n (2 ^ k))) [
  | inl le ↦ (k, found_lem (suc c) k n le, (leb→le n (2 ^ k) le, least))
  | inr gt ↦
      let bound : n ≤ 2 ^ (suc k + c) =
        subst (λ p. n ≤ p) (ap (λ j. 2 ^ j) {x = k + suc c} {y = suc k + c} (omega arith)) h in
      let (m, found, is_least) = power_from_lem c (suc k) n bound (above n k gt least) in
      (m, step_lem c k n gt ∙ found, is_least)
]
  where
    above :
        (n k : ℕ)
        → leb n (2 ^ k) ≡ false
        → ((j : ℕ) → n ≤ 2 ^ j → k ≤ j)
        → (j : ℕ) → n ≤ 2 ^ j
        → suc k ≤ j
    above n k gt least j h = elim (Bool-cases (ltb k j)) [
      | inl lt ↦ ltb→lt k j lt
      | inr ge ↦
          let same : j ≡ k = ground (arith, least j h) in
          let le : n ≤ 2 ^ k = subst (λ i. n ≤ 2 ^ i) same h in absurd (ground arith)
    ]

-- For a plaintext of at most 2^63 bytes, padding has a target under every profile: the length itself; the smallest
-- power of two that is not below it; or the larger of the length and the fixed size.
pub padding_target-IsTarget :
    (n : ℕ) (profile : PaddingProfile)
    → n ≤ 2 ^ 63
    → (target : ℕ) × (padding_target n profile ≡ ok target) × IsTarget profile n target
unfolding padding_target checked_next_power_of_two
padding_target-IsTarget n unpadded h = (n, refl, refl)
padding_target-IsTarget n bucket h =
    let (m, found, least) = power_from_lem 63 0 n h (λ j k. omega arith) in
    (2 ^ m, rw found refl, (m, refl, least))
padding_target-IsTarget n (fixed size) h =
    (max n size, refl, (omega arith, omega arith, larger n size))
  where
    larger : (n size : ℕ) → (max n size ≡ n) ⊎ (max n size ≡ size)
    larger n size = elim (Bool-cases (leb n size)) [
      | inl le ↦ let small = leb→le n size le in inr (omega arith)
      | inr gt ↦ let big : size ≤ n = ground arith in inl (omega arith)
    ]
