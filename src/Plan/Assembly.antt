-- ===== src/Plan/Assembly.antt =====
-- The clean-up and the copies together make the plan.
use cicd_tools.Prelude.{
  String, Bool, ◌≡◌, refl, ap, inl, inr, true, false, Option, none, some, List, [], arith, eq_iff,
  if◌then◌else◌, Bool-cases,
}
use cicd_tools.Dict.Laws.{lookup-nil}
use cicd_tools.Types.{Key, ObjectMeta, ConfigSync}
use cicd_tools.Slices.{contains_string}
use cicd_tools.Namespaces.{mark}
use cicd_tools.Namespaces.Targets.{lookup-mark}
use cicd_tools.Cleanup.{should_delete_from, is_left_over}
use cicd_tools.Plan.{is_stale, named, put_named, pruned, expected}

-- The clean-up's test, without its set.
pub is_left_over-stale :
    (cs : ConfigSync) (source : String) (targets : List String) (m : ObjectMeta)
    → is_left_over cs source (mark targets []) m
      ≡ (if contains_string targets m.namespace then false else is_stale source cs.name m)
unfolding is_left_over should_delete_from is_stale
is_left_over-stale cs source targets m =
    ground (arith, lookup-mark targets [] m.namespace, lookup-nil {V = Bool} m.namespace)

module _ {R : Type 0} (meta : R → ObjectMeta) (cs : ConfigSync) (source : String) where
  abbrev pub stale : R → Bool
  stale x = is_stale source cs.name (meta x)

  abbrev pub doomed : List String → R → Bool
  doomed targets x = is_left_over cs source (mark targets []) (meta x)

  pub stale_of_doomed :
      (targets : List String) (x : R)
      → doomed targets x ≡ true
      → (contains_string targets (meta x).namespace ≡ false) × (stale x ≡ true)
  stale_of_doomed targets x hit =
      let same = is_left_over-stale cs source targets (meta x) in (ground arith, ground arith)

  -- The objects that are to go have no finalizers.
  abbrev pub IsFree : List String → (Key → Option R) → Type 0
  IsFree targets store =
      (k : Key) (x : R)
      → store k ≡ some x
      → contains_string targets (meta x).namespace ≡ false
      → stale x ≡ true
      → (meta x).finalizers ≡ []

module _ {R : Type 0} (meta : R → ObjectMeta) (cs : ConfigSync) (source : String)
    (targets : List String) (k : Key) where
  pruned-target :
      (there : Option R)
      → ((x : R) → there ≡ some x → (meta x).namespace ≡ k.namespace)
      → contains_string targets k.namespace ≡ true
      → pruned (doomed meta cs source targets) there ≡ there
  unfolding pruned
  pruned-target none keyed hit = refl
  pruned-target (some x) keyed hit =
      ground (arith, keyed x refl, is_left_over-stale cs source targets (meta x))

  pub pruned-other :
      (there : Option R)
      → ((x : R) → there ≡ some x → (meta x).namespace ≡ k.namespace)
      → contains_string targets k.namespace ≡ false
      → pruned (doomed meta cs source targets) there ≡ pruned (stale meta cs source) there
  unfolding pruned
  pruned-other none keyed miss = refl
  pruned-other (some x) keyed miss =
      ground (arith, keyed x refl, is_left_over-stale cs source targets (meta x))

  -- The clean-up leaves the source namespace alone.
  pub pruned-source :
      (there : Option R)
      → ((x : R) → there ≡ some x → (meta x).namespace ≡ k.namespace)
      → k.namespace ≡ source
      → pruned (doomed meta cs source targets) there ≡ there
  unfolding pruned is_stale
  pruned-source none keyed here = refl
  pruned-source (some x) keyed here = ground (
    arith,
    keyed x refl,
    is_left_over-stale cs source targets (meta x),
    eq_iff (meta x).namespace source,
  )

  module _ (copy : R → String → R) (overwrite : R → R → R) (items : List R)
      (store : Key → Option R) where
    pub assembled :
        ((x : R) → store k ≡ some x → (meta x).namespace ≡ k.namespace)
        → (if contains_string targets k.namespace
            then put_named meta copy overwrite
                (named meta k.name items)
                k.namespace
                (pruned (doomed meta cs source targets) (store k))
            else pruned (doomed meta cs source targets) (store k))
          ≡ expected meta copy overwrite (stale meta cs source) items targets store k
    unfolding expected
    assembled keyed = elim (Bool-cases (contains_string targets k.namespace)) [
      | inl hit ↦ rw hit (
          ap (put_named meta copy overwrite (named meta k.name items) k.namespace)
            (pruned-target (store k) keyed hit))
      | inr miss ↦ rw miss (pruned-other (store k) keyed miss)
    ]
