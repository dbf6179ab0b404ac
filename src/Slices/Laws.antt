-- ===== src/Slices/Laws.antt =====
-- Membership after an addition or a removal.
use cicd_tools.Prelude.{String, ◌≡◌, refl, ◌↔◌, true, false, List, [], ◌∷◌, ◌++◌, arith}
use cicd_tools.Prelude.{◌==◌, eq_iff, if◌then◌else◌, In}
use cicd_tools.Slices.{contains_string, remove_string}

pub contains_string_iff : (l : List String) (s : String) → (contains_string l s ≡ true) ↔ In s l
unfolding contains_string
contains_string_iff [] s = (λ h. cc, λ h. absurd h)
contains_string_iff (item ∷ l) s = ground (arith, eq_iff item s, contains_string_iff l s)

pub contains-remove_string :
    (l : List String) (s t : String)
    → contains_string (remove_string l s) t ≡ (if s == t then false else contains_string l t)
unfolding contains_string remove_string
contains-remove_string [] s t = ground arith
contains-remove_string (item ∷ l) s t =
    ground (arith, eq_iff item s, eq_iff item t, eq_iff s t, contains-remove_string l s t)

pub contains-append :
    (l : List String) (s t : String)
    → contains_string (l ++ s ∷ []) t ≡ (if s == t then true else contains_string l t)
unfolding contains_string
contains-append [] s t = refl
contains-append (item ∷ l) s t = ground (arith, eq_iff item t, eq_iff s t, contains-append l s t)
