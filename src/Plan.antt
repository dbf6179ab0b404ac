-- ===== src/Plan.antt =====
-- What a reconciliation should leave in a store of secrets or config maps, as a function on stores:
-- no calls, no order and no loops.
pub mod Named
pub mod Laws
pub mod Round
pub mod Sources
pub mod Loop
pub mod Pruning
pub mod Untouched
pub mod Assembly
pub mod Secrets
pub mod Copiers
pub mod Deletion
pub mod Sweeping
pub mod Fresh
pub mod Again
pub mod ConfigMaps
pub mod Cleaning
pub mod Whole
use cicd_tools.Prelude.{String, Bool, not, ◌&&◌, Option, none, some, List, [], ◌∷◌, ◌≡◌, ◌==◌}
use cicd_tools.Prelude.{true, if◌then◌else◌}
use cicd_tools.Types.{Key, ObjectMeta}
use cicd_tools.Cluster.Laws.{key_of}
use cicd_tools.Labels.{is_synced, is_owned, is_system_namespace}
use cicd_tools.Slices.{contains_string}

-- A copy of this ConfigSync outside its source namespace and the system namespaces.
unfoldable pub is_stale : String → String → ObjectMeta → Bool
unfolding is_owned is_system_namespace
is_stale source name meta =
    is_owned source name meta.labels
    && (not (is_system_namespace meta.namespace) && not (meta.namespace == source))

-- A stale object goes.
unfoldable pub pruned : {R : Type 0} → (R → Bool) → Option R → Option R
pruned stale none = none
pruned stale (some y) = if stale y then none else some y

-- What the deletion of a ConfigSync leaves: its own objects go from the target namespaces.
unfoldable pub withdrawn :
    {R : Type 0} → (R → Bool) → List String → (Key → Option R) → Key → Option R
unfolding pruned contains_string
withdrawn owned targets store k =
    if contains_string targets k.namespace then pruned owned (store k) else store k

module _ {R : Type 0} (meta : R → ObjectMeta) where
  -- The source object of a name.
  unfoldable pub named : String → List R → Option R
  named name [] = none
  named name (x ∷ items) =
      let later = named name items in if (meta x).name == name then some x else later

  module _ (copy : R → String → R) (overwrite : R → R → R) where
    -- What becomes of the object under the key of a copy: it is created where there is none, written
    -- over where it is marked, and left alone otherwise.
    unfoldable pub put : R → String → Option R → Option R
    unfolding is_synced
    put x ns none = some (copy x ns)
    put x ns (some y) = if is_synced (meta y).labels then some (overwrite (copy x ns) y) else some y

    unfoldable pub put_named : Option R → String → Option R → Option R
    unfolding put
    put_named none ns there = there
    put_named (some x) ns there = put x ns there

    -- A target namespace has the copies of all sources, and no other namespace a stale copy.
    unfoldable pub expected : (R → Bool) → List R → List String → (Key → Option R) → Key → Option R
    unfolding put_named pruned named contains_string
    expected stale items targets store k =
        if contains_string targets k.namespace
        then put_named (named k.name items) k.namespace (store k)
        else pruned stale (store k)

    -- How copying and overwriting fit together.
    pub record IsCopier : Type 0 where
      pub at_target :
          (x : R) (ns : String)
          → key_of (meta (copy x ns)) ≡ record { namespace = ns; name = (meta x).name }
      pub keeps_key : (t y : R) → key_of (meta (overwrite t y)) ≡ key_of (meta y)
      pub copy_marked : (x : R) (ns : String) → is_synced (meta (copy x ns)).labels ≡ true
      pub over_marked :
          (x y : R) (ns : String) → is_synced (meta (overwrite (copy x ns) y)).labels ≡ true
      pub over_copy : (x : R) (ns : String) → overwrite (copy x ns) (copy x ns) ≡ copy x ns
      pub over_over :
          (x y : R) (ns : String)
          → overwrite (copy x ns) (overwrite (copy x ns) y) ≡ overwrite (copy x ns) y
