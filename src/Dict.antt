-- ===== src/Dict.antt =====
-- Go maps with string keys, as association lists. A nil map is the empty one.
pub mod Laws
use cicd_tools.Prelude.{String, Bool, true, false, Option, none, some, List, [], ◌∷◌, ◌==◌, ◌≡◌}
use cicd_tools.Prelude.{if◌then◌else◌}

abbrev pub Dict {ℓ} : Type ℓ → Type ℓ
Dict V = List (String × V)

module _ {ℓ} {V : Type ℓ} where
  -- `v, ok := m[k]`
  unfoldable pub lookup : String → Dict V → Option V
  lookup wanted [] = none
  lookup wanted ((key, value) ∷ rest) =
      let later = lookup wanted rest in if key == wanted then some value else later

  -- `m[k] = v`
  unfoldable pub insert : String → V → Dict V → Dict V
  insert key value [] = (key, value) ∷ []
  insert key value (entry ∷ rest) =
      let later = insert key value rest in
      if entry.0 == key then (key, value) ∷ rest else entry ∷ later

  -- `for k, v := range source { target[k] = v }`. The keys of a map are distinct, so the order
  -- of the writes makes no difference.
  unfoldable pub copy_into : Dict V → Dict V → Dict V
  copy_into [] target = target
  copy_into ((k, v) ∷ source) target = insert k v (copy_into source target)

  -- A map holds each key once.
  abbrev pub NodupKeys : Dict V → Type ℓ
  NodupKeys [] = Unit
  NodupKeys ((k, v) ∷ m) = (lookup k m ≡ none) × NodupKeys m
