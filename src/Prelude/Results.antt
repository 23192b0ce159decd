-- ===== src/Prelude/Results.antt =====
-- Results of fallible code: `std::io::Result`, with a panic (`unwrap`, `panic!`) as a third case.
use mathlib.Core.Path.{◌≡◌, refl}
use mathlib.Core.Logic.{◌⊎◌, inl, inr}
use mathlib.Core.Option.{Option, none, some}

-- The members of `std::io::ErrorKind` that the program makes or tests.
pub data ErrorKind : Type 0 where
  unexpected_eof invalid_data not_found permission_denied other : ErrorKind

pub data Result {ℓ} (A : Type ℓ) : Type ℓ where
  ok : A → Result A
  err : ErrorKind → Result A
  panic : Result A

infixl 5 ◌>>=◌
abbrev pub ◌>>=◌ {ℓ κ} : {A : Type ℓ} {B : Type κ} → Result A → (A → Result B) → Result B
ok a >>= f = f a
err e >>= f = err e
panic >>= f = panic

-- `Result::unwrap`
abbrev pub unwrap {ℓ} : {A : Type ℓ} → Result A → Result A
unwrap (ok a) = ok a
unwrap (err e) = panic
unwrap panic = panic

-- `Option::unwrap`
abbrev pub unwrap_option {ℓ} : {A : Type ℓ} → Option A → Result A
unwrap_option none = panic
unwrap_option (some a) = ok a

-- `Option::ok_or`
abbrev pub ok_or {ℓ} : {A : Type ℓ} → Option A → ErrorKind → Result A
ok_or none e = err e
ok_or (some a) e = ok a

-- The two steps of a chain that ends well.
pub >>=-eq-ok {ℓ κ} :
    {S : Type ℓ} {T : Type κ} (first : Result S) (next : S → Result T) {last : T}
    → (first >>= next) ≡ ok last
    → (mid : S) × (first ≡ ok mid) × (next mid ≡ ok last)
>>=-eq-ok panic next p = cc
>>=-eq-ok (err why) next p = cc
>>=-eq-ok (ok mid) next p = (mid, refl, p)

pub ok_injective {ℓ} : {A : Type ℓ} {a b : A} → ok a ≡ ok b → a ≡ b
ok_injective h = cc

pub Result-cases {ℓ} :
    {A : Type ℓ} (r : Result A)
    → ((a : A) × (r ≡ ok a)) ⊎ (((e : ErrorKind) × (r ≡ err e)) ⊎ (r ≡ panic))
Result-cases (ok a) = inl (a, refl)
Result-cases (err e) = inr (inl (e, refl))
Result-cases panic = inr (inr refl)
