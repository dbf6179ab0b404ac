-- ===== src/Dict/Laws.antt =====
-- What lookups return after writes.
use cicd_tools.Prelude.{
  suc, ◌≤◌, length, String, ◌≡◌, refl, Option, none, some, [], ◌∷◌, arith, ◌==◌, eq_iff,
}
use cicd_tools.Prelude.{if◌then◌else◌}
use cicd_tools.Dict.{Dict, lookup, insert, copy_into, NodupKeys}

abbrev pub or_else {ℓ} : {A : Type ℓ} → Option A → Option A → Option A
or_else none b = b
or_else (some a) b = some a

module _ {ℓ} {V : Type ℓ} where
  pub lookup-nil : (k : String) → lookup {V = V} k [] ≡ none
  unfolding lookup
  lookup-nil k = refl

  -- What is read after a write.
  pub lookup-insert :
      (key asked : String) (value : V) (dict : Dict V)
      → lookup asked (insert key value dict)
        ≡ (if key == asked then some value else lookup asked dict)
  unfolding insert lookup
  lookup-insert key asked value [] = refl
  lookup-insert key asked value ((here, old) ∷ rest) = ground (
    arith,
    lookup-insert key asked value rest,
    eq_iff here key,
    eq_iff here asked,
    eq_iff key asked,
  )

  pub lookup-copy_into :
      (j : String) (source target : Dict V)
      → lookup j (copy_into source target) ≡ or_else (lookup j source) (lookup j target)
  unfolding lookup copy_into
  lookup-copy_into j [] target = refl
  lookup-copy_into j ((k, v) ∷ source) target =
      ground
        (arith, lookup-insert k j v (copy_into source target), lookup-copy_into j source target)

  pub insert-NodupKeys : (k : String) (v : V) (m : Dict V) → NodupKeys m → NodupKeys (insert k v m)
  unfolding insert
  insert-NodupKeys k v [] u = (lookup-nil k, tt)
  insert-NodupKeys k v ((j, w) ∷ m) (fresh, u) =
      ground (arith, eq_iff j k, eq_iff k j, insert-NodupKeys k v m u, lookup-insert k j v m)

  -- The map without the first entry under a key.
  erase : String → Dict V → Dict V
  erase k [] = []
  erase k ((j, w) ∷ m) = if j == k then m else (j, w) ∷ erase k m

  lookup-erase :
      (k j : String) (m : Dict V)
      → NodupKeys m
      → lookup j (erase k m) ≡ (if k == j then none else lookup j m)
  unfolding lookup erase
  lookup-erase k j [] u = ground arith
  lookup-erase k j ((i, w) ∷ m) (fresh, u) =
      ground (arith, eq_iff k j, eq_iff i k, eq_iff i j, lookup-erase k j m u)

  erase-NodupKeys : (k : String) (m : Dict V) → NodupKeys m → NodupKeys (erase k m)
  unfolding erase
  erase-NodupKeys k [] u = u
  erase-NodupKeys k ((i, w) ∷ m) (fresh, u) =
      ground (arith, erase-NodupKeys k m u, lookup-erase k i m u)

  length-erase :
      (k : String) (m : Dict V) (v : V) → lookup k m ≡ some v → suc (length (erase k m)) ≡ length m
  unfolding lookup erase
  length-erase k [] v h = cc
  length-erase k ((i, w) ∷ m) v h = ground (arith, length-erase k m v)

  -- A map with distinct keys that has all the entries of another of its size has no more.
  pub lookup-eq_of_sub :
      (a b : Dict V)
      → NodupKeys a
      → NodupKeys b
      → length a ≡ length b
      → ((k : String) (v : V) → lookup k a ≡ some v → lookup k b ≡ some v)
      → (k : String) → lookup k a ≡ lookup k b
  unfolding lookup
  lookup-eq_of_sub [] [] ua ub e sub k = refl
  lookup-eq_of_sub [] (y ∷ b) ua ub e sub k = absurd (omega arith)
  lookup-eq_of_sub ((i, w) ∷ a) b (fresh, ua) ub e sub k = ground (
    arith,
    here,
    eq_iff i k,
    lookup-erase i k b ub,
    lookup-eq_of_sub a (erase i b) ua (erase-NodupKeys i b ub)
        (omega (arith, length-erase i b w here)) others k,
  )
    where
      here : lookup i b ≡ some w
      here = sub i w (ground (arith, eq_iff i i))

      others : (j : String) (v : V) → lookup j a ≡ some v → lookup j (erase i b) ≡ some v
      others j v h = ground (arith, eq_iff i j, lookup-erase i j b ub, sub j v)

  -- Distinct keys that all stand in another map are no more than its keys.
  pub length-le_of_sub :
      (a b : Dict V)
      → NodupKeys a
      → NodupKeys b
      → ((k : String) (v : V) → lookup k a ≡ some v → lookup k b ≡ some v)
      → length a ≤ length b
  unfolding lookup
  length-le_of_sub [] b ua ub sub = omega arith
  length-le_of_sub ((i, w) ∷ a) b (fresh, ua) ub sub = omega (
    arith,
    length-erase i b w here,
    length-le_of_sub a (erase i b) ua (erase-NodupKeys i b ub) others,
  )
    where
      here : lookup i b ≡ some w
      here = sub i w (ground (arith, eq_iff i i))

      others : (j : String) (v : V) → lookup j a ≡ some v → lookup j (erase i b) ≡ some v
      others j v h = ground (arith, eq_iff i j, lookup-erase i j b ub, sub j v)
