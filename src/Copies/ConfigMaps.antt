-- ===== src/Copies/ConfigMaps.antt =====
-- What `syncConfigMap` leaves in the cluster.
use cicd_tools.Prelude.{String, ◌≡◌, refl, sym, subst, ◌⊎◌, inl, inr, false}
use cicd_tools.Prelude.{some}
use cicd_tools.Prelude.{ok}
use cicd_tools.Types.{ConfigMap}
use cicd_tools.Cluster.{Client}
use cicd_tools.Cluster.Laws.{IsLawful}
use cicd_tools.Labels.{is_synced}
use cicd_tools.Copies.{copy_config_map, overwrite_config_map, sync_config_map}
use cicd_tools.Copies.Spec.{
  copy_meta-IsCopyMeta, overwrite-IsCopyMeta, IsConfigMapCopy, Written, write_copy-Written,
}

module _ {c : Client} (L : IsLawful c) (target_ns source_ns name : String) where
  -- What stands under the key of a target config map after a copy: a copy of the source, or the
  -- unlabelled config map that was there before.
  abbrev pub ConfigMapOutcome : ConfigMap → c.World → ConfigMap → Type 0
  ConfigMapOutcome source w r =
      IsConfigMapCopy source r target_ns source_ns name
      ⊎ ((L.config_map_at w (record { namespace = target_ns; name = source.name }) ≡ some r)
          × (is_synced r.labels ≡ false))

  config_map_outcome :
      (source : ConfigMap) (w : c.World) (r : ConfigMap)
      → Written L.config_maps
          (copy_config_map source target_ns source_ns name)
          (overwrite_config_map (copy_config_map source target_ns source_ns name))
          (λ x. unfold overwrite_config_map in refl)
          w
          r
      → ConfigMapOutcome source w r
  unfolding copy_config_map overwrite_config_map
  config_map_outcome source w r (inl (there, unmanaged)) = inr (there, unmanaged)
  config_map_outcome source w r (inr (inl (absent, same))) = inl (
      subst (λ z. IsConfigMapCopy source z target_ns source_ns name) (sym same)
        (record {
          meta = copy_meta-IsCopyMeta source.meta target_ns source_ns name;
          contents = refl;
          binary_data = refl;
        }))
  config_map_outcome source w r (inr (inr (x, there, at_key, managed, same))) = inl (
      subst (λ z. IsConfigMapCopy source z target_ns source_ns name) (sym same)
        (record {
          meta = overwrite-IsCopyMeta source.meta x.meta target_ns source_ns name at_key;
          contents = refl;
          binary_data = refl;
        }))

  -- With a lawful client, after a successful `syncConfigMap` there is a config map under the
  -- target's key, and it is a copy of the source, with its data and binary data, its labels and
  -- annotations and the operator's marks, or it is the one that was there before without the
  -- operator's label.
  pub sync_config_map-copies :
      (source : ConfigMap) (w : c.World)
      → (sync_config_map c source target_ns source_ns name w).0 ≡ ok tt
      → (r : ConfigMap) × (L.config_map_at
            (sync_config_map c source target_ns source_ns name w).1
            (record { namespace = target_ns; name = source.name })
          ≡ some r)
        × ConfigMapOutcome source w r
  unfolding sync_config_map
  sync_config_map-copies source w h =
      let target = copy_config_map source target_ns source_ns name in
      let (r, stored, written) =
        write_copy-Written L.config_maps target (overwrite_config_map target) (λ x. refl) w h in
      (r, stored, config_map_outcome source w r written)
