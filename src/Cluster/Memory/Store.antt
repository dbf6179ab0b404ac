-- ===== src/Cluster/Memory/Store.antt =====
-- The objects of one type, as a list in a part of the world.
use cicd_tools.Prelude.{
  Bool, true, false, ◌&&◌, Option, none, some, List, [], ◌∷◌, ◌==◌, if◌then◌else◌, ◌≡◌, refl, ap,
  subst, ◌∙◌, ◌≢◌, ◌↔◌, arith, eq_iff, In, select, not_found, other, Error, Result, ok, err,
}
use cicd_tools.Prelude.{◌⊎◌, inl, inr}
use cicd_tools.Prelude.Select.{In-select}
use cicd_tools.Types.{Key, ObjectMeta}
use cicd_tools.Cluster.{Api, ListOptions}
use cicd_tools.Cluster.Laws.{IsStore, IsReliable, IsWritable, key_of, admits}

abbrev same_key : Key → Key → Bool
same_key a b = a.namespace == b.namespace && a.name == b.name

same_key_iff : (a b : Key) → (same_key a b ≡ true) ↔ (a ≡ b)
same_key_iff a b = ground (arith, eq_iff a.namespace b.namespace, eq_iff a.name b.name)

-- A part of the world, beside which `rest` stays.
pub record Lens (W X V : Type 0) (rest : W → X) : Type 0 where
  pub get : W → V
  pub put : V → W → W
  pub get-put : (v : V) (w : W) → get (put v w) ≡ v
  pub rest-put : (v : V) (w : W) → rest (put v w) ≡ rest w

module _ {R : Type 0} (meta : R → ObjectMeta) where
  abbrev pub key : R → Key
  key r = key_of (meta r)

  unfoldable pub find : Key → List R → Option R
  find k [] = none
  find k (x ∷ l) = if same_key (key x) k then some x else find k l

  unfoldable pub without : Key → List R → List R
  without k [] = []
  without k (x ∷ l) = let rest = without k l in if same_key (key x) k then rest else x ∷ rest

  -- The objects that count: each key once.
  unfoldable pub current : List R → List R
  unfolding without
  current [] = []
  current (x ∷ l) = x ∷ without (key x) (current l)

  pub find-without :
      (k j : Key) (l : List R) → find j (without k l) ≡ (if same_key k j then none else find j l)
  unfolding find without
  find-without k j [] = ground arith
  find-without k j (x ∷ l) =
      ground (
        arith,
        find-without k j l,
        same_key_iff (key x) k,
        same_key_iff (key x) j,
        same_key_iff k j,
      )

  pub In-find : (k : Key) (l : List R) (r : R) → find k l ≡ some r → In r l
  unfolding find
  In-find k [] r h = cc
  In-find k (x ∷ l) r h = ground (arith, In-find k l r)

  pub key-find : (k : Key) (l : List R) (r : R) → find k l ≡ some r → key r ≡ k
  unfolding find
  key-find k [] r h = cc
  key-find k (x ∷ l) r h = ground (arith, key-find k l r, same_key_iff (key x) k)

  In-without :
      (k : Key) (r : R) (l : List R) → In r (without k l) ↔ (In r l × (same_key (key r) k ≡ false))
  unfolding without
  In-without k r [] = ground arith
  In-without k r (x ∷ l) = ground (arith, In-without k r l)

  -- An object counts exactly when it is what is found under its key.
  In-current : (r : R) (l : List R) → In r (current l) ↔ (find (key r) l ≡ some r)
  unfolding current find
  In-current r [] = ground arith
  In-current r (x ∷ l) = ground (
    arith,
    In-current r l,
    In-without (key x) r (current l),
    same_key_iff (key x) (key r),
    same_key_iff (key r) (key x),
  )

module _ {R : Type 0} where
  -- The answer to a read.
  abbrev pub answer : Option R → Result R
  answer none = err (record { reason = not_found; message = "not found" })
  answer (some r) = ok r

  -- A write that wants the object to be absent, or to be there.
  abbrev pub if_absent : Option R → Result (Unit {0})
  if_absent none = ok tt
  if_absent (some r) = err (record { reason = other; message = "already exists" })

  abbrev pub if_present : Option R → Result (Unit {0})
  if_present none = err (record { reason = not_found; message = "not found" })
  if_present (some r) = ok tt

module _ {W R X : Type 0} {rest : W → X} (meta : R → ObjectMeta)
    (part : Lens W X (List R) rest) where
  abbrev look : R → W → Option R
  look r w = find meta (key meta r) (part.get w)

  abbrev after : Result (Unit {0}) → List R → W → W
  after (ok u) l w = part.put l w
  after (err e) l w = w

  abbrev others : R → W → List R
  others r w = without meta (key meta r) (part.get w)

  unfoldable pub store_api : Api W R
  unfolding find without current
  store_api = record {
    get = λ k w. (answer (find meta k (part.get w)), w);
    list = λ o w. (ok (select (λ r. admits o (meta r)) (current meta (part.get w))), w);
    create = λ r w. let done = if_absent (look r w) in (done, after done (r ∷ others r w) w);
    update = λ r w. let done = if_present (look r w) in (done, after done (r ∷ others r w) w);
    delete = λ r w. let done = if_present (look r w) in (done, after done (others r w) w);
  }

  abbrev at : W → Key → Option R
  at w k = find meta k (part.get w)

  answer-ok : (o : Option R) (r : R) → answer o ≡ ok r → o ≡ some r
  answer-ok o r h = ground arith

  answer-not_found : (o : Option R) (e : Error) → answer o ≡ err e → o ≡ none
  answer-not_found o e h = ground arith

  -- What a write of the list `l` leaves, whatever its outcome.
  after_other :
      (done : Result (Unit {0})) (l : List R) (w : W) (k : Key)
      → find meta k l ≡ at w k
      → at (after done l w) k ≡ at w k
  after_other (ok u) l w k e = ap (find meta k) (part.get-put l w) ∙ e
  after_other (err x) l w k e = refl

  after_rest : (done : Result (Unit {0})) (l : List R) (w : W) → rest (after done l w) ≡ rest w
  after_rest (ok u) l w = part.rest-put l w
  after_rest (err x) l w = refl

  after_done :
      (done : Result (Unit {0})) (l : List R) (w : W) (k : Key)
      → done ≡ ok tt
      → at (after done l w) k ≡ find meta k l
  after_done (ok u) l w k e = ap (find meta k) (part.get-put l w)
  after_done (err x) l w k e = cc

  find-others : (r : R) (w : W) (k : Key) → key meta r ≢ k → find meta k (others r w) ≡ at w k
  find-others r w k apart =
      ground (arith, find-without meta (key meta r) k (part.get w), same_key_iff (key meta r) k)

  find-others_self : (r : R) (w : W) → find meta (key meta r) (others r w) ≡ none
  find-others_self r w = ground (
    arith,
    find-without meta (key meta r) (key meta r) (part.get w),
    same_key_iff (key meta r) (key meta r),
  )

  find-cons_other :
      (r : R) (w : W) (k : Key) → key meta r ≢ k → find meta k (r ∷ others r w) ≡ at w k
  unfolding find
  find-cons_other r w k apart = ground (arith, find-others r w k apart, same_key_iff (key meta r) k)

  find-cons_self : (r : R) (l : List R) → find meta (key meta r) (r ∷ l) ≡ some r
  unfolding find
  find-cons_self r l = ground (arith, same_key_iff (key meta r) (key meta r))

  In-listed :
      (o : ListOptions) (w : W) (items : List R) (r : R)
      → (store_api.list o w).0 ≡ ok items
      → In r items ↔ ((at w (key meta r) ≡ some r) × (admits o (meta r) ≡ true))
  unfolding store_api
  In-listed o w items r h =
      let e : select (λ x. admits o (meta x)) (current meta (part.get w)) ≡ items = cc h in
      subst (λ l. In r l ↔ ((at w (key meta r) ≡ some r) × (admits o (meta r) ≡ true))) e
        (ground (
          arith,
          In-select (λ x. admits o (meta x)) r (current meta (part.get w)),
          In-current meta r (part.get w),
        ))

  pub store_api-IsStore : IsStore store_api meta at rest
  unfolding store_api
  store_api-IsStore = record {
    get_at = λ k w. refl;
    get_rest = λ k w. refl;
    get_found = λ k w r h. let e = answer-ok (at w k) r h in (e, key-find meta k (part.get w) r e);
    get_missing = λ k w e h _. answer-not_found (at w k) e h;
    list_at = λ o w. refl;
    list_rest = λ o w. refl;
    list_found = λ o w items r h m. (In-listed o w items r h).0 m;
    list_all = λ o w items r h stored asked. (In-listed o w items r h).1 (stored, asked);
    create_rest = λ r w. after_rest _ _ w;
    create_other = λ r w k apart. after_other _ _ w k (find-cons_other r w k apart);
    create_done = λ r w h. after_done _ _ w _ h ∙ find-cons_self r _;
    update_rest = λ r w. after_rest _ _ w;
    update_other = λ r w k apart. after_other _ _ w k (find-cons_other r w k apart);
    update_done = λ r w h. after_done _ _ w _ h ∙ find-cons_self r _;
    delete_rest = λ r w. after_rest _ _ w;
    delete_other = λ r w k apart. after_other _ _ w k (find-others r w k apart);
    delete_done = λ r w h _. after_done _ _ w _ h ∙ find-others_self r w;
  }

  after_delete :
      (r : R) (w : W) (found : Option R)
      → look r w ≡ found
      → at (after (if_present found) (others r w) w) (key meta r) ≡ none
  after_delete r w none e = e
  after_delete r w (some x) e =
      ap (find meta (key meta r)) (part.get-put _ w) ∙ find-others_self r w

  pub store_api-IsReliable : IsReliable store_api meta at
  unfolding store_api
  store_api-IsReliable = record {
    list_ok = λ o w. (select (λ r. admits o (meta r)) (current meta (part.get w)), refl);
    delete_gone = λ r w _. after_delete r w (look r w) refl;
    delete_missing = λ r w _. after_delete r w (look r w) refl;
  }

  answer-cases :
      (o : Option R)
      → ((r : R) × (answer o ≡ ok r)) ⊎ ((e : Error) × (answer o ≡ err e) × (e.reason ≡ not_found))
  answer-cases none = inr (_, refl, refl)
  answer-cases (some r) = inl (r, refl)

  pub store_api-IsWritable : IsWritable store_api meta at
  unfolding store_api
  store_api-IsWritable = record {
    get_ok = λ k w. answer-cases (at w k);
    create_ok = λ r w missing. ap if_absent missing;
    update_ok = λ r x w stored. ap if_present stored;
  }
