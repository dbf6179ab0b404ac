-- ===== src/Plan/Sources.antt =====
-- The listed sources as a set that the store determines.
use cicd_tools.Prelude.{
  String, Bool, ◌≡◌, sym, ap, ◌∙◌, ◌≢◌, ◌↔◌, true, Option, some, List, In, arith, eq_iff, ok,
  select,
}
use cicd_tools.Prelude.Select.{In-select}
use mathlib.Core.Option.{some-injective}
use cicd_tools.Types.{Key, ObjectMeta, LabelSelector, ConfigSync}
use cicd_tools.Sources.{list_options}
use cicd_tools.Namespaces.{source_namespace}
use cicd_tools.Cluster.{Api, Client, ListOptions}
use cicd_tools.Cluster.Laws.{IsStore, key_of, admits}
use cicd_tools.Plan.{named}
use cicd_tools.Plan.Named.{AreNamed, named_ext}

pub list_options-namespace :
    (c : Client) (source : String) (selector : Option LabelSelector) (o : ListOptions)
    → list_options c.as_selector source selector ≡ ok o
    → o.namespace ≡ source
unfolding list_options
list_options-namespace c source selector o h = ground arith

pub source_namespace-named : (cs : ConfigSync) → source_namespace cs.spec ≢ ""
unfolding source_namespace
source_namespace-named cs e =
    ground (arith, eq_iff cs.spec.source_namespace "", eq_iff "default" "")

module _ {R : Type 0} (meta : R → ObjectMeta) (o : ListOptions) (keep : R → Bool) where
  -- The list holds exactly the stored objects that the options ask for and that pass the test.
  abbrev pub IsSources : List R → (Key → Option R) → Type 0
  IsSources items store =
      (x : R)
      → In x items
        ↔ ((store (key_of (meta x)) ≡ some x) × (admits o (meta x) ≡ true) × (keep x ≡ true))

  module _ (single : o.namespace ≢ "") where
    admits-namespace : (m : ObjectMeta) → admits o m ≡ true → m.namespace ≡ o.namespace
    admits-namespace m h = ground (arith, eq_iff o.namespace "", eq_iff m.namespace o.namespace)

    pub IsSources-AreNamed :
        (items : List R) (store : Key → Option R) → IsSources items store → AreNamed meta items
    IsSources-AreNamed items store h x y m n same =
        let (a, p, _) = (h x).0 m in
        let (b, q, _) = (h y).0 n in
        let e : key_of (meta x) ≡ key_of (meta y) =
          ground (arith, same, admits-namespace (meta x) p, admits-namespace (meta y) q) in
        some-injective _ _ (sym a ∙ ap store e ∙ b)

    pub IsSources-later :
        (items : List R) (store later : Key → Option R)
        → IsSources items store
        → ((k : Key) → k.namespace ≡ o.namespace → later k ≡ store k)
        → IsSources items later
    IsSources-later items store later h agree x = (
      λ m.
          let (a, p, q) = (h x).0 m in
          (agree (key_of (meta x)) (admits-namespace (meta x) p) ∙ a, p, q),
      λ (a, p, q). (h x).1 (sym (agree (key_of (meta x)) (admits-namespace (meta x) p)) ∙ a, p, q),
    )

    kept :
        (items others : List R) (store later : Key → Option R)
        → IsSources items store
        → IsSources others later
        → ((k : Key) → k.namespace ≡ o.namespace → store k ≡ later k)
        → (x : R) → In x items
        → In x others
    kept items others store later h g agree x m =
        let (a, p, q) = (h x).0 m in
        (g x).1 (sym (agree (key_of (meta x)) (admits-namespace (meta x) p)) ∙ a, p, q)

    -- Stores that agree on the namespace have the same sources.
    pub named-sources :
        (items others : List R) (store later : Key → Option R)
        → IsSources items store
        → IsSources others later
        → ((k : Key) → k.namespace ≡ o.namespace → store k ≡ later k)
        → (name : String) → named meta name items ≡ named meta name others
    named-sources items others store later h g agree name =
        named_ext meta name items others (IsSources-AreNamed others later g)
          (kept items others store later h g agree)
          (kept others items later store g h (λ k e. sym (agree k e)))

module _ {W R X : Type 0} {api : Api W R} {meta : R → ObjectMeta} {at : W → Key → Option R}
    {rest : W → X} (L : IsStore api meta at rest) where
  pub listed-IsSources :
      (o : ListOptions) (keep : R → Bool) (w : W) (items : List R)
      → (api.list o w).0 ≡ ok items
      → IsSources meta o keep (select keep items) (at w)
  listed-IsSources o keep w items listed x = (
    λ m.
        let (n, kept) = (In-select keep x items).0 m in
        let (stored, asked) = L.list_found o w items x listed n in (stored, asked, kept),
    λ (stored, asked, kept).
        (In-select keep x items).1 (L.list_all o w items x listed stored asked, kept),
  )
