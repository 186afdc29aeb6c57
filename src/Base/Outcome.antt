-- ===== src/Base/Outcome.antt =====
-- The outcome of a C function of this program: 0 with what it wrote to its out-parameters, -1, or
-- undefined behaviour (a write outside an object).
use mathlib.Core.Path.{◌≡◌, refl}
use mathlib.Core.Logic.{◌⊎◌, inl, inr}

pub data Run {ℓ} (A : Type ℓ) : Type ℓ where
  fail fault : Run A
  ok : A → Run A

-- The next statement, behind the test of the return value.
infixl 5 ◌>>=◌
abbrev pub ◌>>=◌ {ℓ κ} : {A : Type ℓ} {B : Type κ} → Run A → (A → Run B) → Run B
fail >>= next = fail
fault >>= next = fault
ok result >>= next = next result

module _ {ℓ κ} {A : Type ℓ} {B : Type κ} where
  -- Inversion of a bind, by what the whole does.
  pub >>=-eq-ok :
      (r : Run A) (next : A → Run B) {out : B}
      → (r >>= next) ≡ ok out
      → (a : A) × (r ≡ ok a) × (next a ≡ ok out)
  >>=-eq-ok fail next e = cc
  >>=-eq-ok fault next e = cc
  >>=-eq-ok (ok a) next e = (a, refl, e)

  pub >>=-eq-fault :
      (r : Run A) (next : A → Run B)
      → (r >>= next) ≡ fault
      → (r ≡ fault) ⊎ ((a : A) × (r ≡ ok a) × (next a ≡ fault))
  >>=-eq-fault fail next e = cc
  >>=-eq-fault fault next e = inl refl
  >>=-eq-fault (ok a) next e = inr (a, refl, e)
