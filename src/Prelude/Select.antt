-- ===== src/Prelude/Select.antt =====
-- The elements of a list that pass a test.
use mathlib.Core.Path.{◌≡◌}
use mathlib.Core.Logic.{◌↔◌}
use mathlib.Core.Bool.{Bool, true}
use mathlib.Core.List.{List, [], ◌∷◌}
use native.Mathlib.Omega.{arith}
use cicd_tools.Prelude.Lists.{In, select}

pub In-select :
    {A : Type 0} (p : A → Bool) (a : A) (l : List A) → In a (select p l) ↔ (In a l × (p a ≡ true))
In-select p a [] = ground arith
In-select p a (x ∷ l) = grind (arith, In-select p a l)
