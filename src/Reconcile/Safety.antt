-- ===== src/Reconcile/Safety.antt =====
-- Reconciliations and the objects that are none of their copies: facts about labels and namespaces.
pub mod Secrets
pub mod ConfigMaps
use cicd_tools.Prelude.{
  String, ◌≡◌, refl, sym, ap, ◌∙◌, subst, ◌≢◌, Bool, true, false, ◌⊎◌, inl, inr,
}
use cicd_tools.Prelude.{
  Option, none, some, List, In, arith, eq_iff, Exec, Result, err, ok, if◌then◌else◌,
}
use cicd_tools.Prelude.{◌==◌, is_some}
use cicd_tools.Prelude.Keeps.{Keeps, Keeps-attempt}
use cicd_tools.Dict.{Dict, lookup}
use cicd_tools.Types.{Key, ObjectMeta, Secret, ConfigMap, ConfigSync}
use cicd_tools.Cluster.{Api, Client, ListOptions, within, everything}
use cicd_tools.Cluster.Laws.{IsStore, IsLawful, key_of, admits}
use cicd_tools.Labels.{is_synced, is_owned, holds, synced_from_label, is_system_namespace}
use cicd_tools.Namespaces.{source_namespace}
use cicd_tools.Namespaces.Targets.{IsOpen}
use cicd_tools.Copies.{copy_secret, copy_config_map, overwrite_secret, overwrite_config_map}
use cicd_tools.Copies.{write_copy, sync_secret, sync_config_map}
use cicd_tools.Cleanup.{should_delete_from, is_left_over, delete_listed}
use cicd_tools.Shield
use cicd_tools.Shield.{IsShielded}
use cicd_tools.Reconcile.{fetched, finalize, handle, reconcile}
use cicd_tools.Reconcile.Steps.{Calls, Steps, Sweeps}
use cicd_tools.Reconcile.Whole.{finalize-Keeps, handle-Keeps, live-Keeps}

pub is_synced_of_is_owned :
    (source name : String) (labels : Dict String)
    → is_owned source name labels ≡ true
    → is_synced labels ≡ true
unfolding is_owned is_synced
is_synced_of_is_owned source name labels h = ground arith

pub is_left_over_parts :
    (cs : ConfigSync) (source : String) (set : Dict Bool) (meta : ObjectMeta)
    → is_left_over cs source set meta ≡ true
    → (is_owned source cs.name meta.labels ≡ true) × IsOpen source meta.namespace
unfolding is_left_over should_delete_from
is_left_over_parts cs source set meta h = ground (arith, eq_iff meta.namespace source)

-- No left-over is a shielded object.
pub not-IsShielded_of_left_over :
    (cs : ConfigSync) (source : String) (set : Dict Bool) (meta : ObjectMeta)
    → is_left_over cs source set meta ≡ true
    → ¬ IsShielded source meta
not-IsShielded_of_left_over cs source set meta h (inl unmanaged) =
    let owned = (is_left_over_parts cs source set meta h).0 in
    cc (unmanaged, is_synced_of_is_owned source cs.name meta.labels owned)
not-IsShielded_of_left_over cs source set meta h (inr closed) =
    closed (is_left_over_parts cs source set meta h).1

-- A shielded object under the key of a target is one without the label.
pub unmanaged_of_IsShielded :
    (source ns : String) (meta : ObjectMeta)
    → IsOpen source ns
    → IsShielded source meta
    → ns ≡ meta.namespace
    → is_synced meta.labels ≡ false
unmanaged_of_IsShielded source ns meta o (inl unmanaged) same = unmanaged
unmanaged_of_IsShielded source ns meta o (inr closed) same =
    absurd (closed (subst (IsOpen source) same o))

pub not-owned_of_unmanaged :
    (source name : String) (labels : Dict String)
    → is_synced labels ≡ false
    → is_owned source name labels ≡ false
unfolding is_owned is_synced
not-owned_of_unmanaged source name labels h = ground arith
