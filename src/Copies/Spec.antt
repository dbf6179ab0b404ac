-- ===== src/Copies/Spec.antt =====
-- What a copy is, and what the write of a copy leaves in a store.
use cicd_tools.Prelude.{String, ◌≡◌, refl, ap, subst, ◌∙◌, ◌⊎◌, inl, inr, true, false}
use cicd_tools.Prelude.{Option, none, some, ◌==◌, if◌then◌else◌, Bool-cases, Reason-cases}
use cicd_tools.Prelude.{Error, not_found, Result, ok, err}
use cicd_tools.Dict.{Dict, lookup}
use cicd_tools.Dict.Laws.{or_else, lookup-nil, lookup-insert, lookup-copy_into}
use cicd_tools.Types.{Key, ObjectMeta, Secret, ConfigMap}
use cicd_tools.Cluster.{Api}
use cicd_tools.Cluster.Laws.{IsStore, key_of}
use cicd_tools.Labels.{synced_from_label, synced_by_label, source_annotation, is_synced}
use cicd_tools.Copies.{
  copy_labels, copy_annotations, copy_meta, overwrite_meta, write_found, write_copy,
}

-- The labels and annotations of `copy` are those of the source, with the marks of a copy added or
-- written over; name and namespace are as asked.
pub record IsCopyMeta (source copy : ObjectMeta) (target_ns source_ns name : String) : Type 0 where
  pub same_name : copy.name ≡ source.name
  pub in_target : copy.namespace ≡ target_ns
  pub label :
      (k : String)
      → lookup k copy.labels ≡ (
          if synced_by_label == k
          then some name
          else if synced_from_label == k
          then some source_ns
          else lookup k source.labels)
  pub annotation :
      (k : String)
      → lookup k copy.annotations
        ≡ (if source_annotation == k then some source_ns else lookup k source.annotations)

or_else-none : (o : Option String) → or_else o none ≡ o
or_else-none none = refl
or_else-none (some a) = refl

lookup-copy_labels :
    (labels : Dict String) (source_ns name k : String)
    → lookup k (copy_labels labels source_ns name) ≡ (
        if synced_by_label == k
        then some name
        else if synced_from_label == k
        then some source_ns
        else lookup k labels)
unfolding copy_labels
lookup-copy_labels labels source_ns name k =
    simp (lookup-insert, lookup-copy_into, lookup-nil, or_else-none)

lookup-copy_annotations :
    (annotations : Dict String) (source_ns k : String)
    → lookup k (copy_annotations annotations source_ns)
      ≡ (if source_annotation == k then some source_ns else lookup k annotations)
unfolding copy_annotations
lookup-copy_annotations annotations source_ns k =
    simp (lookup-insert, lookup-copy_into, lookup-nil, or_else-none)

pub copy_meta-IsCopyMeta :
    (source : ObjectMeta) (target_ns source_ns name : String)
    → IsCopyMeta source (copy_meta source target_ns source_ns name) target_ns source_ns name
unfolding copy_meta
copy_meta-IsCopyMeta source target_ns source_ns name = record {
  same_name = refl;
  in_target = refl;
  label = lookup-copy_labels source.labels source_ns name;
  annotation = lookup-copy_annotations source.annotations source_ns;
}

-- A copy is never taken for a source again.
pub is_synced_of_IsCopyMeta :
    (source copy : ObjectMeta) (target_ns source_ns name : String)
    → IsCopyMeta source copy target_ns source_ns name
    → is_synced copy.labels ≡ true
unfolding is_synced
is_synced_of_IsCopyMeta source copy target_ns source_ns name h = rw (h.label synced_from_label)

pub record IsSecretCopy (source copy : Secret) (target_ns source_ns name : String) : Type 0 where
  pub meta : IsCopyMeta source.meta copy.meta target_ns source_ns name
  pub type : copy.type ≡ source.type
  pub contents : copy.contents ≡ source.contents

pub record IsConfigMapCopy (source copy : ConfigMap) (target_ns source_ns name : String)
    : Type 0 where
  pub meta : IsCopyMeta source.meta copy.meta target_ns source_ns name
  pub contents : copy.contents ≡ source.contents
  pub binary_data : copy.binary_data ≡ source.binary_data

module _ {W R X : Type 0} {api : Api W R} {meta : R → ObjectMeta} {at : W → Key → Option R}
    {rest : W → X} (L : IsStore api meta at rest) (target : R) (overwrite : R → R)
    (keeps_key : (x : R) → key_of (meta (overwrite x)) ≡ key_of (meta x)) where
  abbrev key : Key
  key = key_of (meta target)

  -- What a successful write leaves under the key: the object that was there and carries no label,
  -- or what was to be written, over nothing or over an earlier copy.
  abbrev pub Written : W → R → Type 0
  Written w r =
      ((at w key ≡ some r) × (is_synced (meta r).labels ≡ false))
      ⊎ ((at w key ≡ none) × (r ≡ target))
      ⊎ ((x : R) × (at w key ≡ some x)
          × (key_of (meta x) ≡ key)
          × (is_synced (meta x).labels ≡ true)
          × (r ≡ overwrite x))

  pub write_copy-Written :
      (w : W)
      → (write_copy api meta target overwrite w).0 ≡ ok tt
      → (r : R) × (at (write_copy api meta target overwrite w).1 key ≡ some r) × Written w r
  unfolding write_copy
  write_copy-Written w h = go (api.get key w).0 refl h
    where
      v : W
      v = (api.get key w).1

      created :
          (e : Error)
          → (api.get key w).0 ≡ err e
          → e.reason ≡ not_found
          → (api.create target v).0 ≡ ok tt
          → (r : R) × (at (api.create target v).1 key ≡ some r) × Written w r
      created e p q done =
          (target, L.create_done target v done, inr (inl (L.get_missing key w e p q, refl)))

      updated :
          (x : R)
          → (api.get key w).0 ≡ ok x
          → is_synced (meta x).labels ≡ true
          → (api.update (overwrite x) v).0 ≡ ok tt
          → (r : R) × (at (api.update (overwrite x) v).1 key ≡ some r) × Written w r
      updated x p managed done =
          let (stored, at_key) = L.get_found key w x p in
          (
            overwrite x,
            subst (λ k. at (api.update (overwrite x) v).1 k ≡ some (overwrite x))
                (keeps_key x ∙ at_key) (L.update_done (overwrite x) v done),
            inr (inr (x, stored, at_key, managed, refl)),
          )

      go :
          (found : Result R)
          → (api.get key w).0 ≡ found
          → (write_found api meta target overwrite found v).0 ≡ ok tt
          → (r : R) × (at (write_found api meta target overwrite found v).1 key ≡ some r)
            × Written w r
      go (err e) p h = elim (Reason-cases e.reason) [
        | inl q ↦ rw (q, write_found) (created e p q (rw (q, write_found) at h))
        | inr q ↦ absurd (cc (rw (q, write_found) at h))
      ]
      go (ok x) p h = elim (Bool-cases (is_synced (meta x).labels)) [
        | inl q ↦ rw (q, write_found) (updated x p q (rw (q, write_found) at h))
        | inr q ↦
            let stored = (L.get_found key w x p).0 in
            rw (q, write_found) (x, ap (λ f. f key) (L.get_at key w) ∙ stored, inl (stored, q))
      ]

pub overwrite-IsCopyMeta :
    (source existing : ObjectMeta) (target_ns source_ns name : String)
    → key_of existing ≡ record { namespace = target_ns; name = source.name }
    → IsCopyMeta source
        (overwrite_meta (copy_meta source target_ns source_ns name) existing)
        target_ns
        source_ns
        name
unfolding copy_meta
overwrite-IsCopyMeta source existing target_ns source_ns name e = record {
  same_name = ap (λ k. k.name) e;
  in_target = ap (λ k. k.namespace) e;
  label = lookup-copy_labels source.labels source_ns name;
  annotation = lookup-copy_annotations source.annotations source_ns;
}
