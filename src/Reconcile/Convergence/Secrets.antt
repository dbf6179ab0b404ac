-- ===== src/Reconcile/Convergence/Secrets.antt =====
-- The round of copies of secrets to one target namespace, while the calls succeed.
use cicd_tools.Prelude.{
  String, ℕ, ◌+◌, ◌≡◌, refl, sym, ap, ◌∙◌, subst, ◌≢◌, ◌⊎◌, inl, inr, false, some, Bool-cases,
  eq_iff, ◌==◌, List, [], ◌∷◌, In, arith, ok, length, Exec,
}
use cicd_tools.Types.{Secret}
use cicd_tools.Cluster.{Client}
use cicd_tools.Cluster.Laws.{IsLawful, IsWritable}
use cicd_tools.Labels.{is_synced}
use cicd_tools.Copies.{copy_secret, overwrite_secret, sync_secret}
use cicd_tools.Copies.Spec.{IsSecretCopy}
use cicd_tools.Copies.Writing.{write_copy-ok, write_copy-other}
use cicd_tools.Copies.Secrets.{sync_secret-copies}
use cicd_tools.Reconcile.{bump, sync_each}

module _ {c : Client} (L : IsLawful c) (D : IsWritable c.secrets (λ x. x.meta) L.secret_at)
    (target_ns source_ns name : String) where
  abbrev copy : Secret → Exec c.World (Unit {0})
  copy x = sync_secret c x target_ns source_ns name

  -- The secret under the key of the target is a copy, or one that the operator does not manage.
  abbrev pub SettledSecret : Secret → c.World → Type 0
  SettledSecret x w =
      (r : Secret) × (L.secret_at w (record { namespace = target_ns; name = x.name }) ≡ some r)
      × (IsSecretCopy x r target_ns source_ns name ⊎ (is_synced r.labels ≡ false))

  copy-ok : (x : Secret) (w : c.World) → (copy x w).0 ≡ ok tt
  unfolding sync_secret
  copy-ok x w =
      let target = copy_secret x target_ns source_ns name in
      write_copy-ok L.secrets target (overwrite_secret target)
        (λ y. unfold overwrite_secret in refl) D w

  copy-settles : (x : Secret) (w : c.World) → SettledSecret x (copy x w).1
  copy-settles x w =
      let (r, stored, outcome) = sync_secret-copies L target_ns source_ns name x w (copy-ok x w) in
      (r, stored, elim outcome [ inl same ↦ inl same | inr (_, unmanaged) ↦ inr unmanaged ])

  copy-other :
      (x y : Secret) (w : c.World)
      → x.name ≢ y.name
      → L.secret_at (copy y w).1 (record { namespace = target_ns; name = x.name })
        ≡ L.secret_at w (record { namespace = target_ns; name = x.name })
  unfolding sync_secret copy_secret
  copy-other x y w apart =
      write_copy-other L.secrets _ _ (λ z. unfold overwrite_secret in refl) _
        (λ same. apart (sym (ap (λ k. k.name) same))) w

  copy-keeps :
      (x y : Secret) (w : c.World)
      → (x.name ≡ y.name → x ≡ y)
      → SettledSecret x w
      → SettledSecret x (copy y w).1
  copy-keeps x y w one (r, stored, fine) = elim (Bool-cases (x.name == y.name)) [
    | inl p ↦
        subst (λ z. SettledSecret x (copy z w).1) (one ((eq_iff x.name y.name).0 p))
          (copy-settles x w)
    | inr p ↦ (r, copy-other x y w (λ e. ground (arith, eq_iff x.name y.name)) ∙ stored, fine)
  ]

  -- Objects of one name are one object.
  abbrev AreNamed : List Secret → Type 0
  AreNamed items = (x y : Secret) → In x items → In y items → x.name ≡ y.name → x ≡ y

  rest-keeps :
      (x : Secret) (items : List Secret) (n : ℕ) (w : c.World)
      → ((y : Secret) → In y items → x.name ≡ y.name → x ≡ y)
      → SettledSecret x w
      → SettledSecret x (sync_each copy items n w).1
  unfolding sync_each
  rest-keeps x [] n w one h = h
  rest-keeps x (y ∷ items) n w one h =
      rest-keeps x items _ _ (λ z m. one z (inr m)) (copy-keeps x y w (one y (inl refl)) h)

  each-settles :
      (items : List Secret) (n : ℕ) (w : c.World)
      → AreNamed items
      → (x : Secret) → In x items
      → SettledSecret x (sync_each copy items n w).1
  unfolding sync_each
  each-settles [] n w named x m = absurd m
  each-settles (y ∷ items) n w named x (inl e) =
      subst (λ z. SettledSecret z (sync_each copy (y ∷ items) n w).1) e
        (rest-keeps y items _ _ (λ z m. named y z (inl refl) (inr m)) (copy-settles y w))
  each-settles (y ∷ items) n w named x (inr m) =
      each-settles items _ _ (λ a b p q. named a b (inr p) (inr q)) x m

  each-counts :
      (items : List Secret) (n : ℕ) (w : c.World) → (sync_each copy items n w).0 ≡ n + length items
  unfolding sync_each
  each-counts [] n w = omega arith
  each-counts (y ∷ items) n w =
      ap (λ r. (sync_each copy items (bump r n) (copy y w).1).0) (copy-ok y w)
      ∙ each-counts items (n + 1) (copy y w).1
      ∙ omega arith

  -- While the calls for secrets succeed, with a lawful client, the loop that copies listed secrets
  -- with distinct names to a target namespace counts all of them, and afterwards each of them has a
  -- copy there, with its present contents, unless an object without the operator's label is in the
  -- way.
  pub sync_each-SettledSecret :
      (items : List Secret) (n : ℕ) (w : c.World)
      → ((x y : Secret) → In x items → In y items → x.name ≡ y.name → x ≡ y)
      → ((x : Secret)
          → In x items
          → SettledSecret x (sync_each (λ s. sync_secret c s target_ns source_ns name) items n w).1)
        × ((sync_each (λ s. sync_secret c s target_ns source_ns name) items n w).0
            ≡ n + length items)
  sync_each-SettledSecret items n w named = (each-settles items n w named, each-counts items n w)
