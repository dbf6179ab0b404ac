-- ===== src/Shield.antt =====
-- Objects shielded from a reconciliation, one store at a time: those that do not carry the
-- operator's label, and those in the source namespace or in a system namespace.
use cicd_tools.Prelude.{String, ◌≡◌, refl, sym, ap, ◌∙◌, ◌≢◌, ◌⊎◌, inl, inr, Bool, true, false}
use cicd_tools.Prelude.{Option, some, List, [], ◌∷◌, In, Bool-cases, Reason-cases}
use cicd_tools.Prelude.{continue, ◌>>=◌, not_found, Error, Result, ok, err}
use mathlib.Core.Option.{some-injective}
use cicd_tools.Types.{Key, ObjectMeta}
use cicd_tools.Cluster.{Api, ListOptions, within}
use cicd_tools.Cluster.Laws.{IsStore, key_of, admits}
use cicd_tools.Labels.{is_synced}
use cicd_tools.Copies.{write_found, write_copy}
use cicd_tools.Namespaces.Targets.{IsOpen}
use cicd_tools.Cleanup.{act, delete_where, delete_listed, sweep}

-- An object that must survive.
abbrev pub IsShielded : String → ObjectMeta → Type 0
IsShielded source meta = (is_synced meta.labels ≡ false) ⊎ (¬ IsOpen source meta.namespace)

module _ {W R X : Type 0} {api : Api W R} {meta : R → ObjectMeta} {at : W → Key → Option R}
    {rest : W → X} (L : IsStore api meta at rest) (r : R) where
  abbrev Stored : W → Type 0
  Stored w = at w (key_of (meta r)) ≡ some r

  pub delete_where-Stored :
      (doomed : R → Bool) (items : List R)
      → ((x : R) → In x items → doomed x ≡ true → key_of (meta x) ≢ key_of (meta r))
      → (w : W) → Stored w
      → Stored (delete_where api doomed items w)
  unfolding delete_where
  delete_where-Stored doomed [] apart w h = h
  delete_where-Stored doomed (x ∷ items) apart w h = elim (Bool-cases (doomed x)) [
    | inl hit ↦ rw hit (
        delete_where-Stored doomed items (λ y m. apart y (inr m)) (api.delete x w).1
          (L.delete_other x w (key_of (meta r)) (apart x (inl refl) hit) ∙ h))
    | inr miss ↦ rw miss (delete_where-Stored doomed items (λ y m. apart y (inr m)) w h)
  ]

  -- A list call and the deletions among what it returned.
  pub delete_listed-Stored :
      (doomed : R → Bool) (o : ListOptions)
      → ((x : R) → admits o (meta x) ≡ true → doomed x ≡ true → x ≢ r)
      → (w : W) → Stored w
      → Stored (delete_listed api doomed (api.list o w).0 (api.list o w).1)
  unfolding delete_listed
  delete_listed-Stored doomed o apart w h = go (api.list o w).0 refl
    where
      after : Stored (api.list o w).1
      after = ap (λ f. f (key_of (meta r))) (L.list_at o w) ∙ h

      -- Two objects under one key are one object.
      far :
          (items : List R)
          → (api.list o w).0 ≡ ok items
          → (x : R) → In x items
          → doomed x ≡ true
          → key_of (meta x) ≢ key_of (meta r)
      far items e x m hit same =
          let (stored, asked) = L.list_found o w items x e m in
          apart x asked hit (some-injective _ _ (sym stored ∙ ap (at w) same ∙ h))

      go :
          (listed : Result (List R))
          → (api.list o w).0 ≡ listed
          → Stored (delete_listed api doomed listed (api.list o w).1)
      go (err e) p = after
      go (ok items) p = delete_where-Stored doomed items (far items p) (api.list o w).1 after

  pub sweep-Stored :
      (doomed : R → Bool) (namespaces : List String)
      → ((ns : String)
          → In ns namespaces
          → (x : R) → admits (within ns) (meta x) ≡ true
          → doomed x ≡ true
          → x ≢ r)
      → (w : W) → Stored w
      → Stored (sweep api doomed namespaces w)
  unfolding sweep
  sweep-Stored doomed [] apart w h = h
  sweep-Stored doomed (ns ∷ namespaces) apart w h =
      sweep-Stored doomed namespaces (λ n m. apart n (inr m)) _
        (delete_listed-Stored doomed (within ns) (apart ns (inl refl)) w h)

  -- The write of one copy.
  pub write_copy-Stored :
      (target : R) (overwrite : R → R)
      → ((x : R) → key_of (meta (overwrite x)) ≡ key_of (meta x))
      → (key_of (meta target) ≡ key_of (meta r) → is_synced (meta r).labels ≡ false)
      → (w : W) → Stored w
      → Stored (write_copy api meta target overwrite w).1
  unfolding write_copy
  write_copy-Stored target overwrite keeps_key unmanaged w h = go (api.get key w).0 refl
    where
      key : Key
      key = key_of (meta target)

      after : Stored (api.get key w).1
      after = ap (λ f. f (key_of (meta r))) (L.get_at key w) ∙ h

      missed :
          (e : Error)
          → (api.get key w).0 ≡ err e
          → e.reason ≡ not_found
          → Stored (api.create target (api.get key w).1).1
      missed e p q =
          L.create_other target (api.get key w).1 (key_of (meta r))
            (λ same. cc (L.get_missing key w e p q, h))
          ∙ after

      managed :
          (x : R)
          → (api.get key w).0 ≡ ok x
          → is_synced (meta x).labels ≡ true
          → Stored (api.update (overwrite x) (api.get key w).1).1
      managed x p synced =
          let (stored, at_key) = L.get_found key w x p in
          L.update_other (overwrite x) (api.get key w).1 (key_of (meta r)) (λ same.
            let here : key ≡ key_of (meta r) = sym at_key ∙ sym (keeps_key x) ∙ same in
            let one : x ≡ r = some-injective _ _ (sym stored ∙ ap (at w) here ∙ h) in
            cc (synced, unmanaged here, ap (λ y. is_synced (meta y).labels) one))
          ∙ after

      go :
          (found : Result R)
          → (api.get key w).0 ≡ found
          → Stored (write_found api meta target overwrite found (api.get key w).1).1
      go (err e) p = elim (Reason-cases e.reason) [
        | inl q ↦ rw (q, write_found) (missed e p q)
        | inr q ↦ rw (q, write_found) after
      ]
      go (ok x) p = elim (Bool-cases (is_synced (meta x).labels)) [
        | inl q ↦ rw (q, write_found) (managed x p q)
        | inr q ↦ rw (q, write_found) after
      ]

-- Calls for the objects of one type leave those of the other alone.
module _ {W R X : Type 0} {api : Api W R} {meta : R → ObjectMeta} {at : W → Key → Option R}
    {rest : W → X} (L : IsStore api meta at rest) where
  pub rest-delete_where :
      (doomed : R → Bool) (items : List R) (w : W) → rest (delete_where api doomed items w) ≡ rest w
  unfolding delete_where
  rest-delete_where doomed [] w = refl
  rest-delete_where doomed (x ∷ items) w = elim (Bool-cases (doomed x)) [
    | inl hit ↦ rw hit (rest-delete_where doomed items _ ∙ L.delete_rest x w)
    | inr miss ↦ rw miss (rest-delete_where doomed items w)
  ]

  pub rest-delete_listed :
      (doomed : R → Bool) (o : ListOptions) (w : W)
      → rest (delete_listed api doomed (api.list o w).0 (api.list o w).1) ≡ rest w
  unfolding delete_listed
  rest-delete_listed doomed o w = go (api.list o w).0
    where
      go : (r : Result (List R)) → rest (delete_listed api doomed r (api.list o w).1) ≡ rest w
      go (err e) = L.list_rest o w
      go (ok items) = rest-delete_where doomed items _ ∙ L.list_rest o w

  rest-continue :
      (doomed : R → Bool) (r : Result (List R)) (w : W)
      → rest (continue r (λ items. act (delete_where api doomed items)) w).1 ≡ rest w
  rest-continue doomed (err e) w = refl
  rest-continue doomed (ok items) w = rest-delete_where doomed items w

  -- As an action that may fail.
  pub rest-list_then :
      (doomed : R → Bool) (o : ListOptions) (w : W)
      → rest ((api.list o >>= λ items. act (delete_where api doomed items)) w).1 ≡ rest w
  rest-list_then doomed o w = rest-continue doomed (api.list o w).0 _ ∙ L.list_rest o w

  pub rest-sweep :
      (doomed : R → Bool) (namespaces : List String) (w : W)
      → rest (sweep api doomed namespaces w) ≡ rest w
  unfolding sweep
  rest-sweep doomed [] w = refl
  rest-sweep doomed (ns ∷ namespaces) w =
      rest-sweep doomed namespaces _ ∙ rest-delete_listed doomed (within ns) w

  pub rest-write_copy :
      (target : R) (overwrite : R → R) (w : W)
      → rest (write_copy api meta target overwrite w).1 ≡ rest w
  unfolding write_copy
  rest-write_copy target overwrite w =
      go (api.get (key_of (meta target)) w).0 _ ∙ L.get_rest (key_of (meta target)) w
    where
      go :
          (found : Result R) (v : W)
          → rest (write_found api meta target overwrite found v).1 ≡ rest v
      go (err e) v = elim (Reason-cases e.reason) [
        | inl q ↦ rw (q, write_found) (L.create_rest target v)
        | inr q ↦ rw (q, write_found)
      ]
      go (ok x) v = elim (Bool-cases (is_synced (meta x).labels)) [
        | inl q ↦ rw (q, write_found) (L.update_rest (overwrite x) v)
        | inr q ↦ rw (q, write_found)
      ]
