-- ===== src/Plan/Named.antt =====
-- The source object of a name, in lists of objects with distinct names.
use cicd_tools.Prelude.{
  String, ◌≡◌, refl, sym, ap, ◌∙◌, ◌≢◌, inl, inr, Option, none, some, List, [], ◌∷◌, In, arith,
  eq_iff,
}
use cicd_tools.Types.{ObjectMeta}
use cicd_tools.Plan.{named}

module _ {R : Type 0} (meta : R → ObjectMeta) where
  abbrev pub AreNamed : List R → Type 0
  AreNamed items = (x y : R) → In x items → In y items → (meta x).name ≡ (meta y).name → x ≡ y

  pub named-some :
      (name : String) (items : List R) (x : R)
      → named meta name items ≡ some x
      → In x items × ((meta x).name ≡ name)
  unfolding named
  named-some name [] x h = cc
  named-some name (y ∷ items) x h =
      ground (arith, eq_iff (meta y).name name, named-some name items x)

  pub named-none :
      (name : String) (items : List R) (x : R)
      → named meta name items ≡ none
      → In x items
      → (meta x).name ≢ name
  unfolding named
  named-none name [] x h m = absurd m
  named-none name (y ∷ items) x h (inl e) =
      ground (arith, eq_iff (meta y).name name, ap (λ z. (meta z).name) e)
  named-none name (y ∷ items) x h (inr m) =
      ground (arith, eq_iff (meta y).name name, named-none name items x)

  -- The list counts as a set.
  pub named_ext :
      (name : String) (items others : List R)
      → AreNamed others
      → ((x : R) → In x items → In x others)
      → ((x : R) → In x others → In x items)
      → named meta name items ≡ named meta name others
  named_ext name items others distinct to from =
      go (named meta name items) (named meta name others) refl refl
    where
      go : (a b : Option R) → named meta name items ≡ a → named meta name others ≡ b → a ≡ b
      go none none p q = refl
      go none (some y) p q =
          let (m, e) = named-some name others y q in absurd (named-none name items y p (from y m) e)
      go (some x) none p q =
          let (m, e) = named-some name items x p in absurd (named-none name others x q (to x m) e)
      go (some x) (some y) p q =
          let (m, e) = named-some name items x p in
          let (n, f) = named-some name others y q in ap some (distinct x y (to x m) n (e ∙ sym f))
