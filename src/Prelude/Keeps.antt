-- ===== src/Prelude/Keeps.antt =====
-- Predicates on the state that an action keeps, one rule for each way to build an action.
use mathlib.Core.Path.{◌≡◌, refl}
use mathlib.Core.Bool.{Bool, true, false}
use cicd_tools.Prelude.Tests.{if◌then◌else◌}
use cicd_tools.Prelude.Actions.{Result, ok, err, Exec, pure, continue, ◌>>=◌, attempt}

abbrev pub Keeps : {W A : Type 0} → (W → Type 0) → Exec W A → Type 0
Keeps {W} P m = (w : W) → P w → P (m w).1

module _ {W A : Type 0} {P : W → Type 0} where
  pub Keeps-if :
      (test : Bool) (first second : Exec W A)
      → (test ≡ true → Keeps P first)
      → (test ≡ false → Keeps P second)
      → Keeps P (if test then first else second)
  Keeps-if true first second taken skipped w h = taken refl w h
  Keeps-if false first second taken skipped w h = skipped refl w h

module _ {W A B : Type 0} {P : W → Type 0} where
  continue-Keeps :
      (r : Result A) (f : A → Exec W B)
      → ((a : A) → r ≡ ok a → Keeps P (f a))
      → Keeps P (continue r f)
  continue-Keeps (ok a) f kf w h = kf a refl w h
  continue-Keeps (err e) f kf w h = h

  -- The rest may use what is known of the result.
  pub Keeps-bind :
      (m : Exec W A) (f : A → Exec W B)
      → Keeps P m
      → ((w : W) (a : A) → (m w).0 ≡ ok a → Keeps P (f a))
      → Keeps P (m >>= f)
  Keeps-bind m f km kf w h = continue-Keeps (m w).0 f (kf w) (m w).1 (km w h)

  -- A result in place of that of the action.
  pub Keeps-then : (m : Exec W A) (b : B) → Keeps P m → Keeps P (m >>= λ _. pure b)
  Keeps-then m b km = Keeps-bind m (λ _. pure b) km (λ _ _ _ w h. h)

  pub Keeps-attempt :
      (m : Exec W A) (f : Result A → Exec W B)
      → Keeps P m
      → ((w : W) (r : Result A) → (m w).0 ≡ r → Keeps P (f r))
      → Keeps P (attempt m f)
  Keeps-attempt m f km kf w h = kf w (m w).0 refl (m w).1 (km w h)

module _ {W A B : Type 0} where
  continue-eq-ok :
      (r : Result A) (f : A → Exec W B) (w : W) (b : B)
      → (continue r f w).0 ≡ ok b
      → (a : A) × (r ≡ ok a) × ((f a w).0 ≡ ok b)
  continue-eq-ok (ok a) f w b h = (a, refl, h)
  continue-eq-ok (err e) f w b h = cc

  -- Both parts of a successful bind succeeded.
  pub >>=-eq-ok :
      (m : Exec W A) (f : A → Exec W B) (w : W) (b : B)
      → ((m >>= f) w).0 ≡ ok b
      → (a : A) × ((m w).0 ≡ ok a) × ((f a (m w).1).0 ≡ ok b)
  >>=-eq-ok m f w b h = continue-eq-ok (m w).0 f (m w).1 b h
