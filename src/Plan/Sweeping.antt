-- ===== src/Plan/Sweeping.antt =====
-- The loop over namespaces that deletes, against the plan.
use cicd_tools.Prelude.{
  String, Bool, ◌≡◌, refl, ap, ◌∙◌, subst, ◌≢◌, inl, inr, true, Option, none, some, List, [], ◌∷◌,
  In, arith, Option-cases, Bool-cases, eq_iff, ◌==◌, if◌then◌else◌,
}
use cicd_tools.Types.{Key, ObjectMeta}
use cicd_tools.Cluster.{Api, within}
use cicd_tools.Cluster.Laws.{IsStore, IsReliable, IsWritable, admits}
use cicd_tools.Cleanup.{delete_where, delete_listed, sweep}
use cicd_tools.Cleanup.Missing.{delete_where-none}
use cicd_tools.Slices.{contains_string}
use cicd_tools.Shield
use cicd_tools.Removal
use cicd_tools.Plan.{pruned}
use cicd_tools.Plan.Pruning.{key-stored}
use cicd_tools.Plan.Again.{pruned_idem, spared_of_pruned}

module _ {W R X : Type 0} {api : Api W R} {meta : R → ObjectMeta} {at : W → Key → Option R}
    {rest : W → X} (L : IsStore api meta at rest) (D : IsReliable api meta at)
    (E : IsWritable api meta at) (doomed : R → Bool) (k : Key) where
  -- The object under the key, if it is to go, has no finalizers.
  abbrev pub IsLoose : W → Type 0
  IsLoose w = (x : R) → at w k ≡ some x → doomed x ≡ true → (meta x).finalizers ≡ []

  abbrev round : String → W → W
  round ns w = delete_listed api doomed (api.list (within ns) w).0 (api.list (within ns) w).1

  kept-at :
      (ns : String) (w : W) (x : R)
      → at w k ≡ some x
      → ((y : R) → admits (within ns) (meta y) ≡ true → doomed y ≡ true → y ≢ x)
      → at (round ns w) k ≡ some x
  kept-at ns w x there apart =
      let same = key-stored L E w k x there in
      subst (λ j. at (round ns w) j ≡ some x) same
        (Shield.delete_listed-Stored L x doomed (within ns) apart w (ap (at w) same ∙ there))

  round-none : (ns : String) (w : W) → at w k ≡ none → at (round ns w) k ≡ none
  unfolding delete_listed
  round-none ns w gone =
      let (items, listed) = D.list_ok (within ns) w in
      rw listed
        (delete_where-none L D k doomed items _ (ap (λ f. f k) (L.list_at (within ns) w) ∙ gone))

  removed-at :
      (ns : String) (w : W) (x : R)
      → at w k ≡ some x
      → (meta x).finalizers ≡ []
      → doomed x ≡ true
      → (meta x).namespace ≡ ns
      → at (round ns w) k ≡ none
  unfolding delete_listed
  removed-at ns w x there free hit here =
      let same = key-stored L E w k x there in
      let (items, listed) = D.list_ok (within ns) w in
      rw listed (
        subst (λ j. at (delete_where api doomed items (api.list (within ns) w).1) j ≡ none) same
          (Removal.listed-removes L D x free doomed (within ns) w items listed hit
            (ground (arith, eq_iff (meta x).namespace ns)) (inl (ap (at w) same ∙ there))))

  round-at :
      (ns : String) (w : W)
      → ns ≢ ""
      → IsLoose w
      → at (round ns w) k ≡ (if ns == k.namespace then pruned doomed (at w k) else at w k)
  unfolding pruned
  round-at ns w named loose = elim (Option-cases (at w k)) [
    | inl gone ↦ ground (arith, round-none ns w gone)
    | inr (x, there) ↦ elim (Bool-cases (ns == k.namespace)) [
      | inl here ↦ elim (Bool-cases (doomed x)) [
        | inl hit ↦
            rw (here, there, hit)
              (removed-at ns w x there (loose x there hit) hit (
                ap (λ j. j.namespace) (key-stored L E w k x there)
                ∙ ground (arith, eq_iff ns k.namespace)))
        | inr miss ↦
            rw (here, there, miss) (kept-at ns w x there (λ y _ hit e. cc (hit, miss, ap doomed e)))
      ]
      | inr away ↦
          rw (away, there)
            (kept-at ns w x there (λ y asked hit e.
              let one = ap (λ z. (meta z).namespace) e in
              let other = ap (λ j. j.namespace) (key-stored L E w k x there) in
              ground (
                arith,
                one,
                other,
                eq_iff ns "",
                eq_iff (meta y).namespace ns,
                eq_iff ns k.namespace,
              )))
    ]
  ]

  pub sweep-at :
      (targets : List String) (w : W)
      → ((t : String) → In t targets → t ≢ "")
      → IsLoose w
      → at (sweep api doomed targets w) k
        ≡ (if contains_string targets k.namespace then pruned doomed (at w k) else at w k)
  unfolding sweep contains_string
  sweep-at [] w named loose = refl
  sweep-at (ns ∷ targets) w named loose =
      let first = round-at ns w (named ns (inl refl)) loose in
      let loose' : IsLoose (round ns w) = λ x there hit. elim (Bool-cases (ns == k.namespace)) [
        | inl here ↦ absurd (ground (arith, first, spared_of_pruned doomed (at w k) x))
        | inr away ↦ loose x (ground (arith, first)) hit
      ] in
      ground (
        arith,
        first,
        sweep-at targets (round ns w) (λ t m. named t (inr m)) loose',
        pruned_idem doomed (at w k),
      )
