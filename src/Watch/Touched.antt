-- ===== src/Watch/Touched.antt =====
-- Which ConfigSyncs the watchers touch.
use cicd_tools.Prelude.{
  ℕ, ◌≤◌, ◌<>◌, arith, String, Bool, ◌≡◌, refl, sym, ap, ◌∙◌, subst, ◌≢◌, inl, inr, true, false,
  Option, some, List, [], ◌∷◌, In, ok, Bool-cases,
}
use mathlib.Core.Option.{some-injective}
use cicd_tools.Types.{Key, ConfigSync}
use cicd_tools.Cluster.{Client, everything}
use cicd_tools.Cluster.Laws.{IsStore, IsWritable, key_of}
use cicd_tools.Cleanup.Missing.{Key-cases}
use cicd_tools.Watch.{touched, touch, trigger_each}

-- What is relied on of the clock: its readings do not touch the ConfigSyncs, and time does not go
-- back. `since` is the time in a world, which no later reading is before.
pub record IsClock (c : Client) (sync_at : c.World → Key → Option ConfigSync) (since : c.World → ℕ)
    : Type 0 where
  pub now_at : (w : c.World) → sync_at (c.now w).1 ≡ sync_at w
  pub now_since : (w : c.World) → since w ≤ (c.now w).0
  pub now_later : (w : c.World) → since w ≤ since (c.now w).1
  pub list_later : (w : c.World) → since w ≤ since (c.config_syncs.list everything w).1
  pub update_later :
      (cs : ConfigSync) (w : c.World) → since w ≤ since (c.config_syncs.update cs w).1

module _ {X : Type 0} (c : Client) {sync_at : c.World → Key → Option ConfigSync}
    {rest : c.World → X} (K : IsStore c.config_syncs (λ cs. cs.meta) sync_at rest)
    (E : IsWritable c.config_syncs (λ cs. cs.meta) sync_at) {since : c.World → ℕ}
    (clock : IsClock c sync_at since) (prefix : String) (watches : ConfigSync → Bool)
    (begin : ℕ) where
  -- The ConfigSync is there, with the prefix and a time from `begin` on in the annotation.
  abbrev pub IsTouched : ConfigSync → c.World → Type 0
  IsTouched cs w =
      (time : ℕ) × (begin ≤ time)
      × (sync_at w (key_of cs.meta) ≡ some (touched (prefix <> c.format_time time) cs))

  -- Something is there under its key.
  abbrev IsThere : ConfigSync → c.World → Type 0
  IsThere cs w = (x : ConfigSync) × (sync_at w (key_of cs.meta) ≡ some x)

  touch-ok :
      (cs : ConfigSync) (w : c.World) → IsThere cs w → (touch c prefix watches cs w).0 ≡ ok tt
  unfolding touch touched
  touch-ok cs w (x, there) =
      E.update_ok _ x (c.now w).1 (ap (λ f. f (key_of cs.meta)) (clock.now_at w) ∙ there)

  touch-touches :
      (cs : ConfigSync) (w : c.World)
      → begin ≤ since w
      → IsThere cs w
      → IsTouched cs (touch c prefix watches cs w).1
  unfolding touch touched
  touch-touches cs w begun there = (
    (c.now w).0,
    omega (arith, begun, clock.now_since w),
    K.update_done _ (c.now w).1 (unfold touch in touch-ok cs w there),
  )

  touch-IsThere :
      (cs : ConfigSync) (w : c.World) → IsThere cs w → IsThere cs (touch c prefix watches cs w).1
  unfolding touch touched
  touch-IsThere cs w there = (_, K.update_done _ (c.now w).1 (unfold touch in touch-ok cs w there))

  touch-later :
      (cs : ConfigSync) (w : c.World)
      → begin ≤ since w
      → begin ≤ since (touch c prefix watches cs w).1
  unfolding touch
  touch-later cs w begun = omega (arith, begun, clock.now_later w, clock.update_later _ (c.now w).1)

  touch-other :
      (cs : ConfigSync) (w : c.World) (k : Key)
      → key_of cs.meta ≢ k
      → sync_at (touch c prefix watches cs w).1 k ≡ sync_at w k
  unfolding touch touched
  touch-other cs w k apart = K.update_other _ (c.now w).1 k apart ∙ ap (λ f. f k) (clock.now_at w)

  touch-keeps :
      (x y : ConfigSync) (w : c.World)
      → IsThere x w
      → IsThere y w
      → IsThere x (touch c prefix watches y w).1
  touch-keeps x y w (z, there) present = elim (Key-cases (key_of y.meta) (key_of x.meta)) [
    | inl same ↦
        let (again, done) = touch-IsThere y w present in
        (again, ap (sync_at (touch c prefix watches y w).1) (sym same) ∙ done)
    | inr apart ↦ (z, touch-other y w (key_of x.meta) apart ∙ there)
  ]

  abbrev AllThere : List ConfigSync → c.World → Type 0
  AllThere items w = (y : ConfigSync) → In y items → IsThere y w

  -- One round of the loop that touches.
  each-hit :
      (y : ConfigSync) (items : List ConfigSync) (b : Bool) (w : c.World)
      → watches y ≡ true
      → IsThere y w
      → (trigger_each c prefix watches (y ∷ items) b w).1
        ≡ (trigger_each c prefix watches items true (touch c prefix watches y w).1).1
  unfolding trigger_each
  each-hit y items b w hit there = rw hit (rw (touch-ok y w there) refl)

  each-miss :
      (y : ConfigSync) (items : List ConfigSync) (b : Bool) (w : c.World)
      → watches y ≡ false
      → (trigger_each c prefix watches (y ∷ items) b w).1
        ≡ (trigger_each c prefix watches items b w).1
  unfolding trigger_each
  each-miss y items b w miss = rw miss refl

  rest-same :
      (items : List ConfigSync) (b : Bool) (w : c.World) (k : Key)
      → AllThere items w
      → ((y : ConfigSync) → In y items → watches y ≡ true → key_of y.meta ≢ k)
      → sync_at (trigger_each c prefix watches items b w).1 k ≡ sync_at w k
  unfolding trigger_each
  rest-same [] b w k all apart = refl
  rest-same (y ∷ items) b w k all apart = elim (Bool-cases (watches y)) [
    | inl hit ↦
        let present = all y (inl refl) in
        ap (λ v. sync_at v k) (each-hit y items b w hit present)
        ∙ rest-same items true _ k (λ z m. touch-keeps z y w (all z (inr m)) present)
            (λ z m. apart z (inr m))
        ∙ touch-other y w k (apart y (inl refl) hit)
    | inr miss ↦
        ap (λ v. sync_at v k) (each-miss y items b w miss)
        ∙ rest-same items b w k (λ z m. all z (inr m)) (λ z m. apart z (inr m))
  ]

  -- Objects under one key are one object.
  abbrev AreApart : List ConfigSync → Type 0
  AreApart items =
      (x y : ConfigSync) → In x items → In y items → key_of x.meta ≡ key_of y.meta → x ≡ y

  rest-IsTouched :
      (x : ConfigSync) (items : List ConfigSync) (b : Bool) (w : c.World)
      → begin ≤ since w
      → AllThere items w
      → ((y : ConfigSync) → In y items → key_of y.meta ≡ key_of x.meta → y ≡ x)
      → IsTouched x w
      → IsTouched x (trigger_each c prefix watches items b w).1
  unfolding trigger_each
  rest-IsTouched x [] b w begun all one h = h
  rest-IsTouched x (y ∷ items) b w begun all one (time, late, h) = elim (Bool-cases (watches y)) [
    | inl hit ↦
        let present = all y (inl refl) in
        let next : IsTouched x (touch c prefix watches y w).1 =
          elim (Key-cases (key_of y.meta) (key_of x.meta)) [
            | inl same ↦
                subst (λ z. IsTouched z (touch c prefix watches y w).1) (one y (inl refl) same)
                  (touch-touches y w begun present)
            | inr apart ↦ (time, late, touch-other y w (key_of x.meta) apart ∙ h)
          ] in
        subst (IsTouched x) (sym (each-hit y items b w hit present)) (
          rest-IsTouched x items true _ (touch-later y w begun)
            (λ z m. touch-keeps z y w (all z (inr m)) present) (λ z m. one z (inr m)) next)
    | inr miss ↦ subst (IsTouched x) (sym (each-miss y items b w miss)) (
        rest-IsTouched x items b w begun (λ z m. all z (inr m)) (λ z m. one z (inr m))
          (time, late, h))
  ]

  each-touches :
      (items : List ConfigSync) (b : Bool) (w : c.World)
      → begin ≤ since w
      → AllThere items w
      → AreApart items
      → (x : ConfigSync) → In x items
      → watches x ≡ true
      → IsTouched x (trigger_each c prefix watches items b w).1
  unfolding trigger_each
  each-touches [] b w begun all one x m hit = absurd m
  each-touches (y ∷ items) b w begun all one x (inl e) hit =
      let present = all y (inl refl) in
      let watched : watches y ≡ true = ap watches e ∙ hit in
      subst (λ z. IsTouched z (trigger_each c prefix watches (y ∷ items) b w).1) e
        (subst (IsTouched y) (sym (each-hit y items b w watched present)) (
          rest-IsTouched y items true _ (touch-later y w begun)
            (λ z m. touch-keeps z y w (all z (inr m)) present) (λ z m. one z y (inr m) (inl refl))
            (touch-touches y w begun present)))
  each-touches (y ∷ items) b w begun all one x (inr m) hit =
      let present = all y (inl refl) in
      elim (Bool-cases (watches y)) [
        | inl watched ↦ subst (IsTouched x) (sym (each-hit y items b w watched present)) (
            each-touches items true _ (touch-later y w begun)
              (λ z n. touch-keeps z y w (all z (inr n)) present)
              (λ u v p q. one u v (inr p) (inr q)) x m hit)
        | inr missed ↦ subst (IsTouched x) (sym (each-miss y items b w missed)) (
            each-touches items b w begun (λ z n. all z (inr n)) (λ u v p q. one u v (inr p) (inr q))
              x m hit)
      ]

  -- The list call and the loop after it.
  pub listed-touches :
      (items : List ConfigSync) (w : c.World)
      → begin ≤ since w
      → (c.config_syncs.list everything w).0 ≡ ok items
      → (cs : ConfigSync) → sync_at w (key_of cs.meta) ≡ some cs
      → let v =
          (trigger_each c prefix watches items false (c.config_syncs.list everything w).1).1 in
        (watches cs ≡ true → IsTouched cs v)
        × (watches cs ≡ false → sync_at v (key_of cs.meta) ≡ some cs)
  listed-touches items w begun listed cs stored =
      let u = (c.config_syncs.list everything w).1 in
      let found =
        λ (x : ConfigSync) (m : In x items). (K.list_found everything w items x listed m).0 in
      let all : AllThere items u =
        λ x m. (x, ap (λ f. f (key_of x.meta)) (K.list_at everything w) ∙ found x m) in
      (
        λ hit.
            each-touches items false u (omega (arith, begun, clock.list_later w)) all
              (λ x y p q same.
                some-injective _ _ (sym (found x p) ∙ ap (sync_at w) same ∙ found y q))
              cs (K.list_all everything w items cs listed stored refl) hit,
        λ miss.
            rest-same items false u (key_of cs.meta) all (λ y m hit same. cc (
              hit,
              miss,
              ap watches (some-injective _ _ (sym (found y m) ∙ ap (sync_at w) same ∙ stored)),
            ))
            ∙ ap (λ f. f (key_of cs.meta)) (K.list_at everything w)
            ∙ stored,
      )
