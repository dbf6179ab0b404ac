-- ===== src/Plan/Again.antt =====
-- The plan of a store that already follows it.
use cicd_tools.Prelude.{
  String, Bool, ◌≡◌, refl, sym, ◌∙◌, ◌≢◌, inl, inr, false, Option, none, some, List, In, arith,
  Bool-cases,
}
use cicd_tools.Types.{Key, ObjectMeta, ConfigSync}
use cicd_tools.Slices.{contains_string}
use cicd_tools.Slices.Laws.{contains_string_iff}
use cicd_tools.Plan.{named, pruned, expected, IsCopier}
use cicd_tools.Plan.Laws.{put_named_idem}
use cicd_tools.Plan.Assembly.{stale, pruned-other, pruned-source, IsFree}

module _ {R : Type 0} (gone : R → Bool) where
  pub pruned_idem : (there : Option R) → pruned gone (pruned gone there) ≡ pruned gone there
  unfolding pruned
  pruned_idem none = refl
  pruned_idem (some x) = ground arith

  pub spared_of_pruned : (there : Option R) (x : R) → pruned gone there ≡ some x → gone x ≡ false
  unfolding pruned
  spared_of_pruned none x h = ground arith
  spared_of_pruned (some y) x h = ground arith

module _ {R : Type 0} {meta : R → ObjectMeta} {copy : R → String → R} {overwrite : R → R → R}
    (C : IsCopier meta copy overwrite) (cs : ConfigSync) (source : String) (items : List R)
    (targets : List String) (store later : Key → Option R)
    (planned : (k : Key)
      → later k ≡ expected meta copy overwrite (stale meta cs source) items targets store k) where
  pub expected_idem :
      (k : Key)
      → expected meta copy overwrite (stale meta cs source) items targets later k ≡ later k
  unfolding expected
  expected_idem k = elim (Bool-cases (contains_string targets k.namespace)) [
    | inl hit ↦
        ground (arith, planned k, put_named_idem C (named meta k.name items) k.namespace (store k))
    | inr miss ↦ ground (arith, planned k, pruned_idem (stale meta cs source) (store k))
  ]

  -- The source namespace, which is no target, is as it was.
  pub source-same :
      ((t : String) → In t targets → t ≢ source)
      → ((k : Key) (x : R) → store k ≡ some x → (meta x).namespace ≡ k.namespace)
      → (k : Key) → k.namespace ≡ source
      → later k ≡ store k
  unfolding expected
  source-same apart keyed k here = elim (Bool-cases (contains_string targets k.namespace)) [
    | inl hit ↦ absurd (apart k.namespace ((contains_string_iff targets k.namespace).0 hit) here)
    | inr miss ↦
        planned k
        ∙ rw miss (
            sym (pruned-other meta cs source targets k (store k) (keyed k) miss)
            ∙ pruned-source meta cs source targets k (store k) (keyed k) here)
  ]

  -- Nothing is left to go.
  pub later-IsFree :
      ((k : Key) (x : R) → later k ≡ some x → (meta x).namespace ≡ k.namespace)
      → IsFree meta cs source targets later
  unfolding expected
  later-IsFree keyed k x there outside old =
      let spared = spared_of_pruned (stale meta cs source) (store k) x in
      ground (arith, planned k, keyed k x there, spared)
