-- ===== src/Plan/Untouched.antt =====
-- The phases of a round and the objects that they do not copy.
use cicd_tools.Prelude.{
  ℕ, ◌≡◌, refl, ◌∙◌, Bool, List, [], ◌∷◌, Result, ok, err, Exec, continue, pure, fail, ◌>>=◌,
  select, Bool-cases, inl, inr, String,
}
use cicd_tools.Types.{Secret, ConfigMap, ConfigSync, NamespaceStatus}
use cicd_tools.Cluster.{Api, Client, ListOptions}
use cicd_tools.Cluster.Laws.{IsLawful}
use cicd_tools.Sources.{
  is_source_secret, is_source_config_map, list_options, list_source_secrets,
  list_source_config_maps,
}
use cicd_tools.Copies.{sync_secret, sync_config_map}
use cicd_tools.Cleanup.{is_enabled}
use cicd_tools.Shield
use cicd_tools.Reconcile.{
  sync_each, secrets_listed, config_maps_listed, secrets_phase, config_maps_phase,
}

module _ {W R X : Type 0} (rest : W → X) where
  sync_each-same :
      (copy : R → Exec W (Unit {0}))
      → ((r : R) (w : W) → rest (copy r w).1 ≡ rest w)
      → (items : List R) (n : ℕ) (w : W) → rest (sync_each copy items n w).1 ≡ rest w
  unfolding sync_each
  sync_each-same copy keeps [] n w = refl
  sync_each-same copy keeps (r ∷ items) n w = sync_each-same copy keeps items _ _ ∙ keeps r w

  continue-same :
      (r : Result (List R)) (f : List R → List R) (w : W)
      → rest (continue r (λ items. pure (f items)) w).1 ≡ rest w
  continue-same (ok items) f w = refl
  continue-same (err e) f w = refl

  options-same :
      (api : Api W R)
      → ((o : ListOptions) (w : W) → rest (api.list o w).1 ≡ rest w)
      → (keep : R → Bool) (o : Result ListOptions) (w : W)
      → let read : Exec W (List R) = elim o [
        | err e ↦ fail e
        | ok options ↦ do items ← api.list options; pure (select keep items)
      ] in
        rest (read w).1 ≡ rest w
  options-same api keeps keep (err e) w = refl
  options-same api keeps keep (ok o) w = continue-same (api.list o w).0 (select keep) _ ∙ keeps o w

module _ {c : Client} (L : IsLawful c) (cs : ConfigSync) (source : String) where
  config_maps_listed-same :
      (st : NamespaceStatus) (n : ℕ) (r : Result (List ConfigMap)) (w : c.World)
      → L.secret_at (config_maps_listed c cs source st n r w).2 ≡ L.secret_at w
  unfolding config_maps_listed sync_config_map
  config_maps_listed-same st n (err e) w = refl
  config_maps_listed-same st n (ok items) w =
      sync_each-same L.secret_at _ (λ cm v. Shield.rest-write_copy L.config_maps _ _ v) items 0 w

  pub config_maps_phase-same :
      (st : NamespaceStatus) (n : ℕ) (w : c.World)
      → L.secret_at (config_maps_phase c cs source st n w).2 ≡ L.secret_at w
  unfolding config_maps_phase list_source_config_maps
  config_maps_phase-same st n w = elim (Bool-cases (is_enabled cs.spec.sync_config_maps)) [
    | inl on ↦
        rw (on, config_maps_phase)
          (config_maps_listed-same st n
              (list_source_config_maps c source cs.spec.config_map_selector w).0 _
            ∙ options-same L.secret_at c.config_maps L.config_maps.list_rest is_source_config_map
                (list_options c.as_selector source cs.spec.config_map_selector) w)
    | inr off ↦ rw (off, config_maps_phase) refl
  ]

  secrets_listed-same :
      (st : NamespaceStatus) (n : ℕ) (r : Result (List Secret)) (w : c.World)
      → L.config_map_at (secrets_listed c cs source st n r w).2 ≡ L.config_map_at w
  unfolding secrets_listed sync_secret
  secrets_listed-same st n (err e) w = refl
  secrets_listed-same st n (ok items) w =
      sync_each-same L.config_map_at _ (λ s v. Shield.rest-write_copy L.secrets _ _ v) items 0 w

  pub secrets_phase-same :
      (st : NamespaceStatus) (n : ℕ) (w : c.World)
      → L.config_map_at (secrets_phase c cs source st n w).2 ≡ L.config_map_at w
  unfolding secrets_phase list_source_secrets
  secrets_phase-same st n w = elim (Bool-cases (is_enabled cs.spec.sync_secrets)) [
    | inl on ↦
        rw (on, secrets_phase)
          (secrets_listed-same st n (list_source_secrets c source cs.spec.secret_selector w).0 _
            ∙ options-same L.config_map_at c.secrets L.secrets.list_rest is_source_secret
                (list_options c.as_selector source cs.spec.secret_selector) w)
    | inr off ↦ rw (off, secrets_phase) refl
  ]
