-- ===== src/Copies.antt =====
-- `syncSecret` and `syncConfigMap` of
-- operators/config-sync-zyql/controllers/configsync_controller.go.
pub mod Spec
pub mod Writing
pub mod Secrets
pub mod ConfigMaps
use cicd_tools.Prelude.{String, none, [], if◌then◌else◌}
use cicd_tools.Prelude.{not_found, other, Result, ok, err, Exec, pure, fail, attempt}
use cicd_tools.Dict.{Dict, insert, copy_into}
use cicd_tools.Types.{ObjectMeta, Secret, ConfigMap}
use cicd_tools.Cluster.{Api, Client}
use cicd_tools.Labels.{synced_from_label, synced_by_label, source_annotation, is_synced}

-- The labels of the source, and those that mark a copy.
unfoldable pub copy_labels : Dict String → String → String → Dict String
copy_labels labels source_ns name =
    insert synced_by_label name (insert synced_from_label source_ns (copy_into labels []))

unfoldable pub copy_annotations : Dict String → String → Dict String
copy_annotations annotations source_ns =
    insert source_annotation source_ns (copy_into annotations [])

unfoldable pub copy_meta : ObjectMeta → String → String → String → ObjectMeta
unfolding copy_labels copy_annotations
copy_meta source target_ns source_ns name = record {
  name = source.name;
  namespace = target_ns;
  labels = copy_labels source.labels source_ns name;
  annotations = copy_annotations source.annotations source_ns;
  finalizers = [];
  deletion_timestamp = none;
}

-- The object that is created where there is none yet.
unfoldable pub copy_secret : Secret → String → String → String → Secret
unfolding copy_meta
copy_secret source target_ns source_ns name = record {
  meta = copy_meta source.meta target_ns source_ns name;
  type = source.type;
  contents = source.contents;
}

unfoldable pub copy_config_map : ConfigMap → String → String → String → ConfigMap
unfolding copy_meta
copy_config_map source target_ns source_ns name = record {
  meta = copy_meta source.meta target_ns source_ns name;
  contents = source.contents;
  binary_data = source.binary_data;
}

-- The assignments to the labels and annotations of an object that is there already.
abbrev pub overwrite_meta : ObjectMeta → ObjectMeta → ObjectMeta
overwrite_meta target existing = record existing {
  labels = target.labels;
  annotations = target.annotations;
}

unfoldable pub overwrite_secret : Secret → Secret → Secret
overwrite_secret target existing = record {
  meta = overwrite_meta target.meta existing.meta;
  type = target.type;
  contents = target.contents;
}

unfoldable pub overwrite_config_map : ConfigMap → ConfigMap → ConfigMap
overwrite_config_map target existing = record {
  meta = overwrite_meta target.meta existing.meta;
  contents = target.contents;
  binary_data = target.binary_data;
}

module _ {W R : Type 0} (api : Api W R) (meta : R → ObjectMeta) (target : R)
    (overwrite : R → R) where
  -- What follows the look-up of the target: create it, overwrite it, or leave alone what is not
  -- managed by the operator.
  unfoldable pub write_found : Result R → Exec W (Unit {0})
  unfolding is_synced
  write_found (err e) = elim e.reason [ not_found ↦ api.create target | other ↦ fail e ]
  write_found (ok existing) =
      if is_synced (meta existing).labels then api.update (overwrite existing) else pure tt

  unfoldable pub write_copy : Exec W (Unit {0})
  unfolding write_found
  write_copy =
      attempt (api.get (record { namespace = (meta target).namespace; name = (meta target).name }))
        write_found

module _ (c : Client) where
  unfoldable pub sync_secret : Secret → String → String → String → Exec c.World (Unit {0})
  unfolding copy_secret overwrite_secret write_copy
  sync_secret source target_ns source_ns name =
      let target = copy_secret source target_ns source_ns name in
      write_copy c.secrets (λ s. s.meta) target (overwrite_secret target)

  unfoldable pub sync_config_map : ConfigMap → String → String → String → Exec c.World (Unit {0})
  unfolding copy_config_map overwrite_config_map write_copy
  sync_config_map source target_ns source_ns name =
      let target = copy_config_map source target_ns source_ns name in
      write_copy c.config_maps (λ cm. cm.meta) target (overwrite_config_map target)
