-- ===== src/Plan/Fresh.antt =====
-- A new ConfigSync: one reconciliation gives it the finalizer, and the next one makes the copies.
use cicd_tools.Prelude.{
  String, ◌≡◌, refl, sym, ap, ◌∙◌, inl, inr, true, false, none, some, List, [], ◌∷◌, ◌++◌, In,
  Option, ok, is_some, arith,
}
use cicd_tools.Prelude.Int.{pos}
use mathlib.Core.Option.{some-injective}
use cicd_tools.Types.{Key, ConfigSync}
use cicd_tools.Cluster.{Client}
use cicd_tools.Cluster.Laws.{IsStore, IsWritable, key_of}
use cicd_tools.Labels.{config_sync_finalizer}
use cicd_tools.Slices.{contains_string}
use cicd_tools.Slices.Laws.{contains_string_iff}
use cicd_tools.Reconcile.{add_finalizer, handle, fetched, reconcile}

-- A ConfigSync with the finalizer added.
abbrev pub ready : ConfigSync → ConfigSync
ready cs = record cs {
  meta = record cs.meta { finalizers = cs.finalizers ++ config_sync_finalizer ∷ [] };
}

pub contains_string-last : (l : List String) (s : String) → contains_string (l ++ s ∷ []) s ≡ true
contains_string-last l s = (contains_string_iff (l ++ s ∷ []) s).1 (last l)
  where
    last : (m : List String) → In s (m ++ s ∷ [])
    last [] = inl refl
    last (x ∷ m) = inr (last m)

handle-fresh :
    (c : Client) (cs : ConfigSync) (v : c.World)
    → cs.deletion_timestamp ≡ none
    → contains_string cs.finalizers config_sync_finalizer ≡ false
    → (c.config_syncs.update (ready cs) v).0 ≡ ok tt
    → handle c cs v ≡ (
      ok (record { requeue = true; requeue_after = pos 0 }),
      (c.config_syncs.update (ready cs) v).1,
    )
unfolding handle add_finalizer
handle-fresh c cs v live fresh fine = rw (ap is_some live, handle) (rw fresh (rw fine refl))

module _ {X : Type 0} (c : Client) {sync_at : c.World → Key → Option ConfigSync}
    {rest : c.World → X} (K : IsStore c.config_syncs (λ cs. cs.meta) sync_at rest)
    (E : IsWritable c.config_syncs (λ cs. cs.meta) sync_at) where
  get-stored :
      (k : Key) (cs : ConfigSync) (w : c.World)
      → sync_at w k ≡ some cs
      → ((c.config_syncs.get k w).0 ≡ ok cs) × (key_of cs.meta ≡ k)
  get-stored k cs w there = elim (E.get_ok k w) [
    | inl (r, found) ↦
        let (stored, same) = K.get_found k w r found in
        let one : r ≡ cs = some-injective _ _ (sym stored ∙ there) in
        (found ∙ ap ok one, ap (λ x. key_of x.meta) (sym one) ∙ same)
    | inr (e, failed, missing) ↦ absurd (ground (arith, K.get_missing k w e failed missing))
  ]

  -- The reconciliation of a stored ConfigSync handles it.
  pub reconcile-stored :
      (k : Key) (cs : ConfigSync) (w : c.World)
      → sync_at w k ≡ some cs
      → reconcile c k w ≡ handle c cs (c.config_syncs.get k w).1
  unfolding reconcile fetched
  reconcile-stored k cs w there = rw ((get-stored k cs w there).0) refl

  pub reconcile-ready :
      (k : Key) (cs : ConfigSync) (w : c.World)
      → sync_at w k ≡ some cs
      → cs.deletion_timestamp ≡ none
      → contains_string cs.finalizers config_sync_finalizer ≡ false
      → ((reconcile c k w).0 ≡ ok (record { requeue = true; requeue_after = pos 0 }))
        × (sync_at (reconcile c k w).1 k ≡ some (ready cs))
        × ((reconcile c k w).1 ≡ (c.config_syncs.update (ready cs) (c.config_syncs.get k w).1).1)
  reconcile-ready k cs w there live fresh =
      let v = (c.config_syncs.get k w).1 in
      let (found, same) = get-stored k cs w there in
      let stored : sync_at v (key_of cs.meta) ≡ some cs =
        ap (λ f. f (key_of cs.meta)) (K.get_at k w) ∙ ap (sync_at w) same ∙ there in
      let fine = E.update_ok (ready cs) cs v stored in
      let done = K.update_done (ready cs) v fine in
      let run = reconcile-stored k cs w there ∙ handle-fresh c cs v live fresh fine in
      (
        ap (λ z. z.0) run,
        ap (λ z. sync_at z.1 k) run
            ∙ ap (sync_at (c.config_syncs.update (ready cs) v).1) (sym same)
            ∙ done,
        ap (λ z. z.1) run,
      )
