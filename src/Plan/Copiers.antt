-- ===== src/Plan/Copiers.antt =====
-- Secrets and config maps as what is copied.
use cicd_tools.Prelude.{String, refl}
use cicd_tools.Copies.{
  copy_secret, copy_config_map, copy_meta, overwrite_secret, overwrite_config_map,
}
use cicd_tools.Copies.Spec.{copy_meta-IsCopyMeta, is_synced_of_IsCopyMeta}
use cicd_tools.Plan.{IsCopier}

module _ (source name : String) where
  pub secret-IsCopier :
      IsCopier (λ s. s.meta) (λ s ns. copy_secret s ns source name) overwrite_secret
  unfolding copy_secret overwrite_secret copy_meta
  secret-IsCopier = record {
    at_target = λ x ns. refl;
    keeps_key = λ t y. refl;
    copy_marked = λ x ns.
        is_synced_of_IsCopyMeta x.meta _ ns source name
          (copy_meta-IsCopyMeta x.meta ns source name);
    over_marked = λ x y ns.
        is_synced_of_IsCopyMeta x.meta _ ns source name
          (copy_meta-IsCopyMeta x.meta ns source name);
    over_copy = λ x ns. refl;
    over_over = λ x y ns. refl;
  }

  pub config_map-IsCopier :
      IsCopier (λ cm. cm.meta) (λ cm ns. copy_config_map cm ns source name) overwrite_config_map
  unfolding copy_config_map overwrite_config_map copy_meta
  config_map-IsCopier = record {
    at_target = λ x ns. refl;
    keeps_key = λ t y. refl;
    copy_marked = λ x ns.
        is_synced_of_IsCopyMeta x.meta _ ns source name
          (copy_meta-IsCopyMeta x.meta ns source name);
    over_marked = λ x y ns.
        is_synced_of_IsCopyMeta x.meta _ ns source name
          (copy_meta-IsCopyMeta x.meta ns source name);
    over_copy = λ x ns. refl;
    over_over = λ x y ns. refl;
  }
