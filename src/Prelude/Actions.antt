-- ===== src/Prelude/Actions.antt =====
-- Errors, results, and actions that change a state and may fail.
use mathlib.Core.Path.{◌≡◌, refl}
use mathlib.Core.Logic.{◌⊎◌, inl, inr}
use Prim.Native.String.{String, ◌++◌ as ◌<>◌}

-- Why a call of the API server failed: the operator only tells "not found" from the rest.
pub data Reason : Type 0 where
  not_found other : Reason

pub Reason-cases : (r : Reason) → (r ≡ not_found) ⊎ (r ≡ other)
Reason-cases not_found = inl refl
Reason-cases other = inr refl

pub record Error : Type 0 where
  pub reason : Reason
  pub message : String

pub data Result {ℓ} (A : Type ℓ) : Type ℓ where
  ok : A → Result A
  err : Error → Result A

-- `fmt.Errorf("prefix%w", err)` keeps the reason of what it wraps.
abbrev pub wrap : String → Error → Error
wrap prefix e = record e { message = prefix <> e.message }

abbrev pub Exec {ℓ} : Type ℓ → Type ℓ → Type ℓ
Exec W A = W → Result A × W

module _ {ℓ} {W A : Type ℓ} where
  abbrev pub pure : A → Exec W A
  pure a w = (ok a, w)

  abbrev pub fail : Error → Exec W A
  fail e w = (err e, w)

module _ {ℓ} {W A B : Type ℓ} where
  abbrev pub continue : Result A → (A → Exec W B) → Exec W B
  continue (ok a) f w = f a w
  continue (err e) f w = (err e, w)

  infixl 10 ◌>>=◌ ◌>>◌
  abbrev pub ◌>>=◌ : Exec W A → (A → Exec W B) → Exec W B
  ◌>>=◌ m f w = let (r, w') = m w in continue r f w'

  abbrev pub ◌>>◌ : Exec W A → Exec W B → Exec W B
  m >> n = m >>= λ _. n

  -- The error is dealt with on the spot: the handler sees the result, failed or not.
  abbrev pub attempt : Exec W A → (Result A → Exec W B) → Exec W B
  attempt m f w = let (r, w') = m w in f r w'
