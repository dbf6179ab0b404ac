-- ===== src/Reconcile/Counts.antt =====
-- The counts of the status.
use cicd_tools.Prelude.{suc, ℕ, ◌+◌, ◌≤◌, String, ◌≡◌, refl, sym, ap, ◌∙◌, List, [], ◌∷◌, ◌++◌, map}
use cicd_tools.Prelude.{◌<>◌, arith, length, Exec, some}
use mathlib.Core.List.{map-append, append_assoc, append-nil}
use cicd_tools.Types.{ConfigSync, ConfigSyncStatus, NamespaceStatus, Condition}
use cicd_tools.Decimal.{decimal}
use cicd_tools.Cluster.{Client}
use cicd_tools.Reconcile.{
  Progress, no_progress, bump, sync_each, started, secrets_phase, config_maps_phase, sync_namespace,
  sync_namespaces, summary, final_status, sync_targets,
}

abbrev sum : List ℕ → ℕ
sum [] = 0
sum (n ∷ l) = n + sum l

sum-append : (l m : List ℕ) → sum (l ++ m) ≡ sum l + sum m
sum-append [] m = omega arith
sum-append (n ∷ l) m = omega (arith, sum-append l m)

length-map : {A B : Type 0} (f : A → B) (l : List A) → length (map f l) ≡ length l
length-map f [] = refl
length-map f (x ∷ l) = ap (λ n. suc n) (length-map f l)

-- The totals are the sums over the namespaces so far.
pub record IsCounted (p : Progress) : Type 0 where
  pub of_secrets : p.total_secrets ≡ sum (map (λ st. st.synced_secrets) p.statuses)
  pub of_config_maps : p.total_config_maps ≡ sum (map (λ st. st.synced_config_maps) p.statuses)

-- The count of copied objects grows by at most one for each object.
pub sync_each-le :
    {W R : Type 0} (copy : R → Exec W (Unit {0})) (items : List R) (n : ℕ) (w : W)
    → (sync_each copy items n w).0 ≤ n + length items
unfolding sync_each
sync_each-le copy [] n w = omega arith
sync_each-le copy (r ∷ items) n w =
    ground (arith, sync_each-le copy items (bump (copy r w).0 n) (copy r w).1)

-- The namespaces that are reported on.
abbrev pub names : Progress → List String
names p = map (λ st. st.namespace) p.statuses

-- What a status says of these targets at this time.
pub record IsReport (targets : List String) (now : ℕ) (status : ConfigSyncStatus) : Type 0 where
  pub of_targets : map (λ st. st.namespace) status.target_namespace_status ≡ targets
  pub of_secrets :
      status.synced_secrets ≡ sum (map (λ st. st.synced_secrets) status.target_namespace_status)
  pub of_config_maps :
      status.synced_config_maps
      ≡ sum (map (λ st. st.synced_config_maps) status.target_namespace_status)
  pub of_time : status.last_sync_time ≡ some now
  pub of_condition :
      (x : Condition) × (status.conditions ≡ x ∷ [])
      × (x.type ≡ "Ready")
      × (x.status ≡ "True")
      × (x.reason ≡ "SyncSuccessful")
      × (x.last_transition_time ≡ now)
      × (x.message
          ≡ "Synced "
            <> decimal status.synced_secrets
            <> " secrets and "
            <> decimal status.synced_config_maps
            <> " configmaps to "
            <> decimal (length status.target_namespace_status)
            <> " namespaces")

final_status-IsReport :
    (p : Progress) (targets : List String) (now : ℕ)
    → IsCounted p
    → names p ≡ targets
    → IsReport targets now (final_status p targets now)
unfolding final_status summary
final_status-IsReport p targets now counted named = record {
  of_targets = named;
  of_secrets = counted.of_secrets;
  of_config_maps = counted.of_config_maps;
  of_time = refl;
  of_condition = (
    _,
    refl,
    refl,
    refl,
    refl,
    refl,
    ap
        (λ n.
          "Synced "
          <> decimal p.total_secrets
          <> " secrets and "
          <> decimal p.total_config_maps
          <> " configmaps to "
          <> decimal n
          <> " namespaces")
        (ap length (sym named) ∙ length-map (λ st. st.namespace) p.statuses),
  );
}

module _ (c : Client) (cs : ConfigSync) (source : String) where
  secrets_phase-counts :
      (st : NamespaceStatus) (n : ℕ) (w : c.World)
      → st.synced_secrets ≡ 0
      → let (st', n', _) = secrets_phase c cs source st n w in
        (n' ≡ n + st'.synced_secrets)
        × (st'.synced_config_maps ≡ st.synced_config_maps)
        × (st'.namespace ≡ st.namespace)
  unfolding secrets_phase
  secrets_phase-counts st n w h = (ground arith, ground arith, ground arith)

  config_maps_phase-counts :
      (st : NamespaceStatus) (n : ℕ) (w : c.World)
      → st.synced_config_maps ≡ 0
      → let (st', n', _) = config_maps_phase c cs source st n w in
        (n' ≡ n + st'.synced_config_maps)
        × (st'.synced_secrets ≡ st.synced_secrets)
        × (st'.namespace ≡ st.namespace)
  unfolding config_maps_phase
  config_maps_phase-counts st n w h = (ground arith, ground arith, ground arith)

  -- What one round adds: a status for its namespace, and its counts to the totals.
  abbrev Adds : String → Progress → Progress → Type 0
  Adds ns p p' =
      (st : NamespaceStatus) × (p'.statuses ≡ p.statuses ++ st ∷ [])
      × (st.namespace ≡ ns)
      × (p'.total_secrets ≡ p.total_secrets + st.synced_secrets)
      × (p'.total_config_maps ≡ p.total_config_maps + st.synced_config_maps)

  sync_namespace-Adds :
      (ns : String) (p : Progress) (w : c.World) → Adds ns p (sync_namespace c cs source ns p w).0
  unfolding sync_namespace
  sync_namespace-Adds ns p w =
      let first = secrets_phase c cs source (started ns) p.total_secrets w in
      let a = secrets_phase-counts (started ns) p.total_secrets w refl in
      let second = config_maps_phase c cs source first.0 p.total_config_maps first.2 in
      let b = config_maps_phase-counts first.0 p.total_config_maps first.2 a.1 in
      (
        record second.0 { last_sync_time = some (c.now second.2).0 },
        refl,
        b.2 ∙ a.2,
        a.0 ∙ ap (λ n. p.total_secrets + n) (sym b.1),
        b.0,
      )

  Adds-IsCounted : (ns : String) (p p' : Progress) → Adds ns p p' → IsCounted p → IsCounted p'
  Adds-IsCounted ns p p' (st, listed, _, secrets, config_maps) h = record {
    of_secrets = rw (listed, map-append, sum-append) (omega (arith, secrets, h.of_secrets));
    of_config_maps =
        rw (listed, map-append, sum-append) (omega (arith, config_maps, h.of_config_maps));
  }

  names-Adds : (ns : String) (p p' : Progress) → Adds ns p p' → names p' ≡ names p ++ ns ∷ []
  names-Adds ns p p' (st, listed, named, _, _) = rw (listed, map-append, named) refl

  -- The loop reports on every target, in order, and its totals are the sums of what it reports.
  sync_namespaces-counts :
      (targets : List String) (p : Progress) (w : c.World)
      → IsCounted p
      → IsCounted (sync_namespaces c cs source targets p w).0
        × (names (sync_namespaces c cs source targets p w).0 ≡ names p ++ targets)
  unfolding sync_namespaces
  sync_namespaces-counts [] p w h = (h, sym (append-nil _))
  sync_namespaces-counts (ns ∷ targets) p w h =
      let (p', w') = sync_namespace c cs source ns p w in
      let added = sync_namespace-Adds ns p w in
      let (counted, named) =
        sync_namespaces-counts targets p' w' (Adds-IsCounted ns p p' added h) in
      (
        counted,
        named
            ∙ ap (λ l. l ++ targets) (names-Adds ns p p' added)
            ∙ append_assoc (names p) (ns ∷ []) targets,
      )

  -- The status that the reconciliation writes after its loop, and nothing after it, has one entry
  -- for each target, in the order of the targets, its two totals are the sums of the counts of those
  -- entries, its time and that of its only condition, `Ready`, are what the clock showed after the
  -- loop, and the message of the condition gives both totals and the number of entries. That
  -- condition is always `True`, for the reason `SyncSuccessful`. All else of the ConfigSync is
  -- written as it was.
  pub sync_targets-reports :
      (targets : List String) (w : c.World)
      → let v = (sync_namespaces c cs source targets no_progress w).1 in
        (status : ConfigSyncStatus) × ((sync_targets c cs source targets w).1
          ≡ (c.update_status (record cs { status = status }) (c.now v).1).1)
        × IsReport targets (c.now v).0 status
  unfolding sync_targets
  sync_targets-reports targets w =
      let (p, v) = sync_namespaces c cs source targets no_progress w in
      let (counted, named) =
        sync_namespaces-counts targets no_progress w
          (record { of_secrets = refl; of_config_maps = refl }) in
      (
        final_status p targets (c.now v).0,
        ground arith,
        final_status-IsReport p targets (c.now v).0 counted named,
      )
