-- ===== src/Base/Bytes.antt =====
-- Byte strings as lists of numbers below 256, little-endian integers, and exclusive or.
use Prim.Native.Nat.{ℕ, zero, suc, ◌+◌, ◌*◌, ◌/◌, ◌%◌, ◌^◌, ◌<◌, bit_xor}
use Prim.Native.Char.{code}
use Prim.Native.String.{String}
use mathlib.Core.Path.{◌≡◌, refl, ap}
use mathlib.Core.Logic.{◌↔◌}
use mathlib.Core.Bool.{Bool, true, false, ◌&&◌}
use mathlib.Core.List.{List, [], ◌∷◌}
use native.Mathlib.Omega.{arith}
use lvau.Base.Tests.{◌==◌, ltb}
use lvau.Base.Lists.{length, All}

abbrev pub Bytes : Type 0
Bytes = List ℕ

abbrev pub IsByte : ℕ → Type 0
IsByte b = b < 256

-- The code points of a text: its bytes, where it is ASCII.
abbrev pub codes : String → Bytes
codes String.[] = []
codes (String.◌∷◌ c s) = code c ∷ codes s

-- `a == b` on byte arrays.
unfoldable pub bytes_eq : Bytes → Bytes → Bool
bytes_eq [] [] = true
bytes_eq (a ∷ as') (b ∷ bs) = (a == b) && bytes_eq as' bs
bytes_eq _ _ = false

pub bytes_eq_iff : (xs ys : Bytes) → (bytes_eq xs ys ≡ true) ↔ (xs ≡ ys)
unfolding bytes_eq
bytes_eq_iff [] [] = ground arith
bytes_eq_iff [] (y ∷ ys) = ground arith
bytes_eq_iff (x ∷ xs) [] = ground arith
bytes_eq_iff (x ∷ xs) (y ∷ ys) = ground (arith, bytes_eq_iff xs ys)

-- `v.to_le_bytes()` of an integer of `n` bytes, and `from_le_bytes`.
unfoldable pub to_le_bytes : ℕ → ℕ → Bytes
to_le_bytes zero v = []
to_le_bytes (suc n) v = (v % 256) ∷ to_le_bytes n (v / 256)

unfoldable pub from_le_bytes : Bytes → ℕ
from_le_bytes [] = 0
from_le_bytes (b ∷ bs) = b + 256 * from_le_bytes bs

pub length-to_le_bytes : (n v : ℕ) → length (to_le_bytes n v) ≡ n
unfolding to_le_bytes
length-to_le_bytes zero v = refl
length-to_le_bytes (suc n) v = ap suc (length-to_le_bytes n (v / 256))

pub to_le_bytes-IsByte : (n v : ℕ) → All IsByte (to_le_bytes n v)
unfolding to_le_bytes
to_le_bytes-IsByte zero v = tt
to_le_bytes-IsByte (suc n) v = (omega arith, to_le_bytes-IsByte n (v / 256))

pub from_le_bytes-to_le_bytes : (n v : ℕ) → v < 256 ^ n → from_le_bytes (to_le_bytes n v) ≡ v
unfolding to_le_bytes from_le_bytes
from_le_bytes-to_le_bytes zero v h = omega arith
from_le_bytes-to_le_bytes (suc n) v h =
    omega (arith, from_le_bytes-to_le_bytes n (v / 256) (omega arith))

-- A test holds of every number below a bound, by running it on each.
unfoldable pub passes_to : (ℕ → Bool) → ℕ → Bool
passes_to test zero = true
passes_to test (suc bound) = passes_to test bound && test bound

pub passes_at :
    (test : ℕ → Bool) (bound : ℕ)
    → passes_to test bound ≡ true
    → (v : ℕ) → v < bound
    → test v ≡ true
unfolding passes_to
passes_at test zero all v small = absurd (omega arith)
passes_at test (suc bound) all v small = ground (
  arith,
  λ (below : passes_to test bound ≡ true) (lt : v < bound). passes_at test bound below v lt,
)

abbrev xor_row : ℕ → ℕ → Bool
xor_row x k =
    (bit_xor (bit_xor x k) k == x) && (bit_xor x (bit_xor x k) == k) && ltb (bit_xor x k) 256

xor_table : passes_to (λ x. passes_to (xor_row x) 256) 256 ≡ true
unfolding passes_to
xor_table = refl

pub bit_xor-IsByte :
    (x k : ℕ)
    → IsByte x
    → IsByte k
    → (bit_xor (bit_xor x k) k ≡ x) × (bit_xor x (bit_xor x k) ≡ k) × IsByte (bit_xor x k)
bit_xor-IsByte x k hx hk =
    let row =
      passes_at (xor_row x) 256 (passes_at (λ v. passes_to (xor_row v) 256) 256 xor_table x hx) k
        hk in
    ground arith
