-- ===== src/Removal.antt =====
-- Objects that the deletions are about, one store at a time.
pub mod Secrets
pub mod ConfigMaps
use cicd_tools.Prelude.{
  String, ◌≡◌, refl, sym, ap, ◌∙◌, subst, ◌≢◌, ◌⊎◌, inl, inr, Bool, true, false,
}
use cicd_tools.Prelude.{
  Option, none, some, List, [], ◌∷◌, arith, ◌==◌, eq_iff, In, Bool-cases, Result, ok, err,
}
use cicd_tools.Prelude.{if◌then◌else◌}
use mathlib.Core.Option.{some-injective}
use cicd_tools.Types.{Key, ObjectMeta}
use cicd_tools.Cluster.{Api, ListOptions, within}
use cicd_tools.Cluster.Laws.{IsStore, IsReliable, key_of, admits}
use cicd_tools.Cleanup.Missing.{Key-cases, delete-none, delete_where-none}
use cicd_tools.Cleanup.{delete_where, delete_listed, sweep}

module _ {W R X : Type 0} {api : Api W R} {meta : R → ObjectMeta} {at : W → Key → Option R}
    {rest : W → X} (L : IsStore api meta at rest) (D : IsReliable api meta at) (s : R)
    (free : (meta s).finalizers ≡ []) where
  abbrev k : Key
  k = key_of (meta s)

  abbrev IsGone : W → Type 0
  IsGone w = at w k ≡ none

  -- There is no other object under the key.
  abbrev IsSingle : W → Type 0
  IsSingle w = (at w k ≡ some s) ⊎ IsGone w

  delete-IsSingle :
      (x : R) (w : W) → (key_of (meta x) ≡ k → x ≡ s) → IsSingle w → IsSingle (api.delete x w).1
  delete-IsSingle x w one (inr gone) = inr (delete-none L D k x w gone)
  delete-IsSingle x w one (inl there) = elim (Key-cases (key_of (meta x)) k) [
    | inl same ↦
        inr (subst (λ y. at (api.delete y w).1 k ≡ none) (sym (one same)) (D.delete_gone s w free))
    | inr apart ↦ inl (L.delete_other x w k apart ∙ there)
  ]

  -- Whatever stands under the key in a list is the object itself.
  abbrev IsOnly : List R → Type 0
  IsOnly items = (x : R) → In x items → key_of (meta x) ≡ k → x ≡ s

  module _ (doomed : R → Bool) where
    delete_where-IsSingle :
        (items : List R) (w : W)
        → IsOnly items
        → IsSingle w
        → IsSingle (delete_where api doomed items w)
    unfolding delete_where
    delete_where-IsSingle [] w only h = h
    delete_where-IsSingle (x ∷ items) w only h =
        let later : IsOnly items = λ y m. only y (inr m) in
        elim (Bool-cases (doomed x)) [
          | inl hit ↦
              rw hit
                (delete_where-IsSingle items _ later (delete-IsSingle x w (only x (inl refl)) h))
          | inr miss ↦ rw miss (delete_where-IsSingle items w later h)
        ]

    delete_where-removes :
        (items : List R) (w : W)
        → IsOnly items
        → doomed s ≡ true
        → In s items
        → IsSingle w
        → IsGone (delete_where api doomed items w)
    unfolding delete_where
    delete_where-removes [] w only hit m h = absurd m
    delete_where-removes (x ∷ items) w only hit (inl e) h =
        rw (e, hit) (delete_where-none L D k doomed items _ (D.delete_gone s w free))
    delete_where-removes (x ∷ items) w only hit (inr m) h =
        let later : IsOnly items = λ y n. only y (inr n) in
        elim (Bool-cases (doomed x)) [
          | inl p ↦
              rw p (
                delete_where-removes items _ later hit m
                  (delete-IsSingle x w (only x (inl refl)) h))
          | inr p ↦ rw p (delete_where-removes items w later hit m h)
        ]

    module _ (o : ListOptions) (w : W) where
      same_after_list : at (api.list o w).1 k ≡ at w k
      same_after_list = ap (λ f. f k) (L.list_at o w)

      list-IsSingle : IsSingle w → IsSingle (api.list o w).1
      list-IsSingle (inl there) = inl (same_after_list ∙ there)
      list-IsSingle (inr gone) = inr (same_after_list ∙ gone)

      listed-IsOnly : (items : List R) → (api.list o w).0 ≡ ok items → IsSingle w → IsOnly items
      listed-IsOnly items listed (inl there) x m same =
          let found = (L.list_found o w items x listed m).0 in
          some-injective _ _ (sym found ∙ ap (at w) same ∙ there)
      listed-IsOnly items listed (inr gone) x m same =
          let found = (L.list_found o w items x listed m).0 in
          let missing : none ≡ some x = sym gone ∙ ap (at w) (sym same) ∙ found in
          absurd (ground (arith, missing))

      pub listed-removes :
          (items : List R)
          → (api.list o w).0 ≡ ok items
          → doomed s ≡ true
          → admits o (meta s) ≡ true
          → IsSingle w
          → IsGone (delete_where api doomed items (api.list o w).1)
      listed-removes items listed hit asked (inl there) =
          delete_where-removes items _ (listed-IsOnly items listed (inl there)) hit
            (L.list_all o w items s listed there asked) (list-IsSingle (inl there))
      listed-removes items listed hit asked (inr gone) =
          delete_where-none L D k doomed items _ (same_after_list ∙ gone)

    -- One round of the loop over namespaces.
    round-IsSingle :
        (ns : String) (w : W)
        → IsSingle w
        → let (listed, w') = api.list (within ns) w in IsSingle (delete_listed api doomed listed w')
    unfolding delete_listed
    round-IsSingle ns w h =
        let (items, listed) = D.list_ok (within ns) w in
        rw listed (
          delete_where-IsSingle items _ (listed-IsOnly (within ns) w items listed h)
            (list-IsSingle (within ns) w h))

    round-removes :
        (ns : String) (w : W)
        → doomed s ≡ true
        → ns ≡ (meta s).namespace
        → IsSingle w
        → let (listed, w') = api.list (within ns) w in IsGone (delete_listed api doomed listed w')
    unfolding delete_listed
    round-removes ns w hit here h =
        let (items, listed) = D.list_ok (within ns) w in
        rw listed (
          listed-removes (within ns) w items listed hit
            (ground (arith, eq_iff (meta s).namespace ns)) h)

    round-IsGone :
        (ns : String) (w : W)
        → IsGone w
        → let (listed, w') = api.list (within ns) w in IsGone (delete_listed api doomed listed w')
    unfolding delete_listed
    round-IsGone ns w gone =
        let (items, listed) = D.list_ok (within ns) w in
        rw listed (delete_where-none L D k doomed items _ (same_after_list (within ns) w ∙ gone))

    sweep-IsGone :
        (namespaces : List String) (w : W) → IsGone w → IsGone (sweep api doomed namespaces w)
    unfolding sweep
    sweep-IsGone [] w gone = gone
    sweep-IsGone (ns ∷ namespaces) w gone = sweep-IsGone namespaces _ (round-IsGone ns w gone)

    pub sweep-removes :
        (namespaces : List String) (w : W)
        → doomed s ≡ true
        → In (meta s).namespace namespaces
        → IsSingle w
        → IsGone (sweep api doomed namespaces w)
    unfolding sweep
    sweep-removes [] w hit m h = absurd m
    sweep-removes (ns ∷ namespaces) w hit (inl here) h =
        sweep-IsGone namespaces _ (round-removes ns w hit here h)
    sweep-removes (ns ∷ namespaces) w hit (inr m) h =
        sweep-removes namespaces _ hit m (round-IsSingle ns w h)
