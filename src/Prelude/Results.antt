-- ===== src/Prelude/Results.antt =====
-- Code that throws: a result or an error, with `do` blocks.
use mathlib.Core.Path.{◌≡◌, refl}
use mathlib.Core.Bool.{Bool, true, false}
use mathlib.Core.Option.{Option, none, some}

pub data Result {ℓ κ} (E : Type ℓ) (A : Type κ) : Type (ℓ ⊔ κ) where
  ok : A → Result E A
  err : E → Result E A

module _ {ℓ κ} {E : Type ℓ} {B : Type κ} where
  infixl 5 ◌>>=◌ ◌>>◌
  -- A throw leaves out what follows it.
  abbrev pub ◌>>=◌ {μ} : {A : Type μ} → Result E A → (A → Result E B) → Result E B
  err thrown >>= rest = err thrown
  ok value >>= rest = rest value

  -- `if (!test) throw error;`, as a statement before the rest.
  abbrev pub ◌>>◌ : Result E (Unit {0}) → Result E B → Result E B
  err thrown >> rest = err thrown
  ok done >> rest = rest

  pub >>=-eq-ok {μ} :
      {A : Type μ} {b : B} (first : Result E A) (rest : A → Result E B)
      → (first >>= rest) ≡ ok b
      → (a : A) × (first ≡ ok a) × (rest a ≡ ok b)
  >>=-eq-ok (err thrown) rest h = cc
  >>=-eq-ok (ok value) rest h = (value, refl, h)

abbrev pub ensure {ℓ} : {E : Type ℓ} → Bool → E → Result E (Unit {0})
ensure false error = err error
ensure true error = ok tt

pub ensure-passed {ℓ} :
    {E : Type ℓ} (test : Bool) (error : E) → ensure test error ≡ ok tt → test ≡ true
ensure-passed true error h = refl
ensure-passed false error h = cc

-- `if (x == null) throw error;`, and the value otherwise.
abbrev pub or_throw {ℓ κ} : {E : Type ℓ} {A : Type κ} → Option A → E → Result E A
or_throw none error = err error
or_throw (some value) error = ok value

module _ {ℓ κ} {E : Type ℓ} {B : Type κ} where
  pub >>-eq-ok :
      {b : B} (first : Result E (Unit {0})) (rest : Result E B)
      → (first >> rest) ≡ ok b
      → (first ≡ ok tt) × (rest ≡ ok b)
  >>-eq-ok (err thrown) rest h = cc
  >>-eq-ok (ok done) rest h = (refl, h)

  -- The same two facts for a chain of steps, each handed to what follows.
  pub then_bound {μ ν} :
      {A : Type μ} {P : Type ν} {b : B} (first : Result E A) {rest : A → Result E B}
      → (first >>= rest) ≡ ok b
      → ((a : A) → first ≡ ok a → rest a ≡ ok b → P)
      → P
  then_bound first {rest} h next = let (a, found, h') = >>=-eq-ok first rest h in next a found h'

  pub then_done {ν} :
      {P : Type ν} {b : B} (first : Result E (Unit {0})) {rest : Result E B}
      → (first >> rest) ≡ ok b
      → (first ≡ ok tt → rest ≡ ok b → P)
      → P
  then_done first {rest} h next = let (passed, h') = >>-eq-ok first rest h in next passed h'

  pub or_throw-eq-ok :
      {b : B} (found : Option B) (error : E) → or_throw found error ≡ ok b → found ≡ some b
  or_throw-eq-ok none error h = cc
  or_throw-eq-ok (some value) error h = cc

  -- A property of a result, from each way in which its first step ends.
  pub >>-cases {ν} :
      (P : Result E B → Type ν) (first : Result E (Unit {0})) (rest : Result E B)
      → ((error : E) → first ≡ err error → P (err error))
      → (first ≡ ok tt → P rest)
      → P (first >> rest)
  >>-cases P (err error) rest thrown done = thrown error refl
  >>-cases P (ok value) rest thrown done = done refl

  pub or_throw-cases {μ ν} :
      {A : Type μ} (P : Result E B → Type ν) (found : Option A) (error : E) (rest : A → Result E B)
      → P (err error)
      → ((a : A) → found ≡ some a → P (rest a))
      → P (or_throw found error >>= rest)
  or_throw-cases P none error rest thrown here = thrown
  or_throw-cases P (some a) error rest thrown here = here a refl
