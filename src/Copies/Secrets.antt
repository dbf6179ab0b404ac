-- ===== src/Copies/Secrets.antt =====
-- What `syncSecret` leaves in the cluster.
use cicd_tools.Prelude.{String, ◌≡◌, refl, sym, subst, ◌⊎◌, inl, inr, false}
use cicd_tools.Prelude.{some}
use cicd_tools.Prelude.{ok}
use cicd_tools.Types.{Secret}
use cicd_tools.Cluster.{Client}
use cicd_tools.Cluster.Laws.{IsLawful}
use cicd_tools.Labels.{is_synced}
use cicd_tools.Copies.{copy_secret, overwrite_secret, sync_secret}
use cicd_tools.Copies.Spec.{
  copy_meta-IsCopyMeta, overwrite-IsCopyMeta, IsSecretCopy, Written, write_copy-Written,
}

module _ {c : Client} (L : IsLawful c) (target_ns source_ns name : String) where
  -- What stands under the key of a target secret after a copy: a copy of the source, or the
  -- unlabelled secret that was there before.
  abbrev pub SecretOutcome : Secret → c.World → Secret → Type 0
  SecretOutcome source w r =
      IsSecretCopy source r target_ns source_ns name
      ⊎ ((L.secret_at w (record { namespace = target_ns; name = source.name }) ≡ some r)
          × (is_synced r.labels ≡ false))

  secret_outcome :
      (source : Secret) (w : c.World) (r : Secret)
      → Written L.secrets
          (copy_secret source target_ns source_ns name)
          (overwrite_secret (copy_secret source target_ns source_ns name))
          (λ x. unfold overwrite_secret in refl)
          w
          r
      → SecretOutcome source w r
  unfolding copy_secret overwrite_secret
  secret_outcome source w r (inl (there, unmanaged)) = inr (there, unmanaged)
  secret_outcome source w r (inr (inl (absent, same))) = inl (
      subst (λ z. IsSecretCopy source z target_ns source_ns name) (sym same)
        (record {
          meta = copy_meta-IsCopyMeta source.meta target_ns source_ns name;
          type = refl;
          contents = refl;
        }))
  secret_outcome source w r (inr (inr (x, there, at_key, managed, same))) = inl (
      subst (λ z. IsSecretCopy source z target_ns source_ns name) (sym same)
        (record {
          meta = overwrite-IsCopyMeta source.meta x.meta target_ns source_ns name at_key;
          type = refl;
          contents = refl;
        }))

  -- With a lawful client, after a successful `syncSecret` there is a secret under the target's key,
  -- and it is a copy of the source, with its type and data, its labels and annotations and the
  -- operator's marks, or it is the one that was there before without the operator's label.
  pub sync_secret-copies :
      (source : Secret) (w : c.World)
      → (sync_secret c source target_ns source_ns name w).0 ≡ ok tt
      → (r : Secret) × (L.secret_at
            (sync_secret c source target_ns source_ns name w).1
            (record { namespace = target_ns; name = source.name })
          ≡ some r)
        × SecretOutcome source w r
  unfolding sync_secret
  sync_secret-copies source w h =
      let target = copy_secret source target_ns source_ns name in
      let (r, stored, written) =
        write_copy-Written L.secrets target (overwrite_secret target) (λ x. refl) w h in
      (r, stored, secret_outcome source w r written)
