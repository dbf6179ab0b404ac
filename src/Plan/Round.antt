-- ===== src/Plan/Round.antt =====
-- The loop over listed objects for one target namespace, against the plan.
use cicd_tools.Prelude.{
  String, ℕ, ◌≡◌, refl, sym, ap, ◌∙◌, subst, ◌≢◌, inl, inr, Option, some, List, [], ◌∷◌, In, arith,
  eq_iff, ◌==◌, Bool-cases, Option-cases, Exec, if◌then◌else◌, if◌then◌else◌,
}
use cicd_tools.Types.{Key, ObjectMeta}
use cicd_tools.Cluster.{Api}
use cicd_tools.Cluster.Laws.{IsStore, IsWritable, key_of}
use cicd_tools.Copies.{write_copy}
use cicd_tools.Copies.Spec.{Written, write_copy-Written}
use cicd_tools.Copies.Writing.{write_copy-ok, write_copy-other}
use cicd_tools.Reconcile.{bump, sync_each}
use cicd_tools.Plan.{named, put, put_named, IsCopier}
use cicd_tools.Plan.Named.{AreNamed, named-some}
use cicd_tools.Plan.Laws.{put_idem}

module _ {W R X : Type 0} {api : Api W R} {meta : R → ObjectMeta} {at : W → Key → Option R}
    {rest : W → X} (L : IsStore api meta at rest) (D : IsWritable api meta at)
    {copy : R → String → R} {overwrite : R → R → R} (C : IsCopier meta copy overwrite) where
  abbrev pub write : R → String → Exec W (Unit {0})
  write x ns = write_copy api meta (copy x ns) (overwrite (copy x ns))

  abbrev key : R → String → Key
  key x ns = record { namespace = ns; name = (meta x).name }

  put-Written :
      (x : R) (ns : String) (w : W) (r : R)
      → Written L (copy x ns) (overwrite (copy x ns)) (C.keeps_key (copy x ns)) w r
      → some r ≡ put meta copy overwrite x ns (at w (key_of (meta (copy x ns))))
  unfolding put
  put-Written x ns w r (inl (there, unmarked)) = rw (there, unmarked) refl
  put-Written x ns w r (inr (inl (absent, same))) = rw absent (ap some same)
  put-Written x ns w r (inr (inr (y, there, _, marked, same))) = rw (there, marked) (ap some same)

  write-at :
      (x : R) (ns : String) (w : W)
      → at (write x ns w).1 (key x ns) ≡ put meta copy overwrite x ns (at w (key x ns))
  write-at x ns w =
      let done =
        write_copy-ok L (copy x ns) (overwrite (copy x ns)) (C.keeps_key (copy x ns)) D w in
      let (r, stored, written) =
        write_copy-Written L (copy x ns) (overwrite (copy x ns)) (C.keeps_key (copy x ns)) w done in
      subst (λ k. at (write x ns w).1 k ≡ put meta copy overwrite x ns (at w k)) (C.at_target x ns)
        (stored ∙ put-Written x ns w r written)

  write-other :
      (x : R) (ns : String) (w : W) (k : Key) → key x ns ≢ k → at (write x ns w).1 k ≡ at w k
  write-other x ns w k apart =
      write_copy-other L (copy x ns) (overwrite (copy x ns)) (C.keeps_key (copy x ns)) k
        (λ same. apart (sym (C.at_target x ns) ∙ same)) w

  -- A second object of the name is the same object again.
  absorbed :
      (x : R) (ns : String) (items : List R) (there : Option R)
      → ((y : R) → In y items → (meta y).name ≡ (meta x).name → y ≡ x)
      → put_named meta copy overwrite
          (named meta (meta x).name items)
          ns
          (put meta copy overwrite x ns there)
        ≡ put meta copy overwrite x ns there
  unfolding put_named
  absorbed x ns items there one = elim (Option-cases (named meta (meta x).name items)) [
    | inl p ↦ rw p refl
    | inr (y, p) ↦
        let (m, e) = named-some meta (meta x).name items y p in
        rw (p, one y m e) (put_idem C x ns there)
  ]

  each-at :
      (ns name : String) (items : List R) (n : ℕ) (w : W)
      → AreNamed meta items
      → let k : Key = record { namespace = ns; name = name } in
        at (sync_each (λ x. write x ns) items n w).1 k
        ≡ put_named meta copy overwrite (named meta name items) ns (at w k)
  unfolding sync_each named put_named
  each-at ns name [] n w distinct = refl
  each-at ns name (x ∷ items) n w distinct =
      let k : Key = record { namespace = ns; name = name } in
      let w' = (write x ns w).1 in
      let later =
        each-at ns name items (bump (write x ns w).0 n) w'
          (λ a b p q. distinct a b (inr p) (inr q)) in
      elim (Bool-cases ((meta x).name == name)) [
        | inl hit ↦ rw hit (
            subst
              (λ z.
                at (sync_each (λ x. write x ns) items (bump (write x ns w).0 n) w').1
                  (record { namespace = ns; name = z })
                ≡ put meta copy overwrite x ns (at w (record { namespace = ns; name = z })))
              ((eq_iff (meta x).name name).0 hit)
              (each-at ns (meta x).name items (bump (write x ns w).0 n) w'
                  (λ a b p q. distinct a b (inr p) (inr q))
                ∙ ap (put_named meta copy overwrite (named meta (meta x).name items) ns)
                    (write-at x ns w)
                ∙ absorbed x ns items (at w (key x ns)) (λ y m. distinct y x (inr m) (inl refl))))
        | inr miss ↦ rw miss (
            later
            ∙ ap (put_named meta copy overwrite (named meta name items) ns) (
                write-other x ns w k
                  (λ same. ground (arith, eq_iff (meta x).name name, ap (λ j. j.name) same))))
      ]

  each-other :
      (ns : String) (items : List R) (n : ℕ) (w : W) (k : Key)
      → ns ≢ k.namespace
      → at (sync_each (λ x. write x ns) items n w).1 k ≡ at w k
  unfolding sync_each
  each-other ns [] n w k apart = refl
  each-other ns (x ∷ items) n w k apart =
      each-other ns items _ _ k apart
      ∙ write-other x ns w k (λ same. apart (ap (λ j. j.namespace) same))

  -- Both at once.
  pub each-planned :
      (ns : String) (items : List R) (n : ℕ) (w : W) (k : Key)
      → AreNamed meta items
      → at (sync_each (λ x. write x ns) items n w).1 k ≡ (
          if ns == k.namespace
          then put_named meta copy overwrite (named meta k.name items) k.namespace (at w k)
          else at w k)
  each-planned ns items n w k distinct = elim (Bool-cases (ns == k.namespace)) [
    | inl hit ↦ rw hit (
        subst
          (λ z.
            at (sync_each (λ x. write x z) items n w).1 k
            ≡ put_named meta copy overwrite (named meta k.name items) k.namespace (at w k))
          (sym ((eq_iff ns k.namespace).0 hit)) (each-at k.namespace k.name items n w distinct))
    | inr miss ↦ rw miss (each-other ns items n w k (λ same. ground (arith, eq_iff ns k.namespace)))
  ]
