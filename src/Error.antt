-- ===== src/Error.antt =====
-- Results and errors. `CryptoError` is that of crates/lvau-core/src/crypto/mod.rs; an error of
-- another crate is carried by the text that the source prints for it.
use lvau.Base.{◌≡◌, refl, Bool, true, false, Option, none, some, String}

-- `std::io::ErrorKind`, as far as the source tells kinds apart.
pub data IoErrorKind : Type 0 where
  not_found already_exists unexpected_eof other : IoErrorKind

pub data CryptoError : Type 0 where
  io : IoErrorKind → CryptoError
  serialization : String → CryptoError
  validation : String → CryptoError
  encryption_failed decryption_failed unsupported_profile : CryptoError
  missing_kdf_params missing_secondary_nonce output_exists : CryptoError
  policy_violation : String → CryptoError

-- A result of the code. `stuck` is none: the code panics, or a loop of the model ran out of fuel.
pub data Result (A E : Type 0) : Type 0 where
  ok : A → Result A E
  err : E → Result A E
  stuck : Result A E

-- `?` on a result, and on one without a value.
infixl 5 ◌>>=◌ ◌>>◌
abbrev pub ◌>>=◌ : {E A B : Type 0} → Result A E → (A → Result B E) → Result B E
stuck >>= then_ = stuck
err e >>= then_ = err e
ok value >>= then_ = then_ value

abbrev pub ◌>>◌ : {E B : Type 0} → Result (Unit {0}) E → Result B E → Result B E
first >> then_ = first >>= λ _. then_

-- `if !b { return Err(e) }`
abbrev pub require : {E : Type 0} → Bool → E → Result (Unit {0}) E
require true e = ok tt
require false e = err e

-- `o.ok_or(e)?`
abbrev pub ok_or : {A E : Type 0} → Option A → E → Result A E
ok_or none e = err e
ok_or (some a) e = ok a

-- `r.map_err(f)`
abbrev pub map_err : {A E F : Type 0} → (E → F) → Result A E → Result A F
map_err f (ok a) = ok a
map_err f (err e) = err (f e)
map_err f stuck = stuck

-- What a run of two steps that ended well has done.
pub >>=-eq-ok :
    {E A B : Type 0} {last : B} (first : Result A E) (then_ : A → Result B E)
    → first >>= then_ ≡ ok last
    → (value : A) × (first ≡ ok value) × (then_ value ≡ ok last)
>>=-eq-ok (ok value) then_ done = (value, refl, done)
>>=-eq-ok stuck then_ done = cc
>>=-eq-ok (err e) then_ done = cc

pub require-eq-ok : {E : Type 0} (b : Bool) (e : E) → require b e ≡ ok tt → b ≡ true
require-eq-ok true e h = refl
require-eq-ok false e h = cc

pub map_err-eq-ok :
    {A E F : Type 0} (f : E → F) (m : Result A E) {a : A} → map_err f m ≡ ok a → m ≡ ok a
map_err-eq-ok f (ok a) h = cc
map_err-eq-ok f (err e) h = absurd (cc)
map_err-eq-ok f stuck h = absurd (cc)

pub ok_or-eq-ok :
    {A E : Type 0} (o : Option A) (error : E) {a : A} → ok_or o error ≡ ok a → o ≡ some a
ok_or-eq-ok none error h = absurd (cc)
ok_or-eq-ok (some a) error h = cc

pub ok_injective : {A E : Type 0} {x y : A} (r : Result A E) → r ≡ ok x → r ≡ ok y → x ≡ y
ok_injective r h k = cc
