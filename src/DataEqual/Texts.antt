-- ===== src/DataEqual/Texts.antt =====
-- When two text maps count as equal for `dataEqual`, which reads a missing key as "".
use cicd_tools.Prelude.{◌≡◌, refl, sym, ap, ◌∙◌, ◌≢◌}
use cicd_tools.Prelude.{String, true, none, some, [], ◌∷◌, arith}
use cicd_tools.Prelude.{eq_iff, length}
use cicd_tools.Dict.{Dict, lookup, NodupKeys}
use cicd_tools.Dict.Laws.{lookup-eq_of_sub, length-le_of_sub}
use cicd_tools.DataEqual.{text_at, all_texts, data_equal}

all_texts_sound :
    (a b : Dict String) (k v : String)
    → all_texts a b ≡ true
    → lookup k a ≡ some v
    → text_at k b ≡ v
unfolding all_texts lookup
all_texts_sound [] b k v h e = cc
all_texts_sound ((i, w) ∷ a) b k v h e =
    ground (arith, eq_iff i k, eq_iff (text_at i b) w, all_texts_sound a b k v)

all_texts_complete :
    (a b : Dict String)
    → NodupKeys a
    → ((k v : String) → lookup k a ≡ some v → text_at k b ≡ v)
    → all_texts a b ≡ true
unfolding all_texts lookup
all_texts_complete [] b u sub = refl
all_texts_complete ((i, w) ∷ a) b (fresh, u) sub =
    ground (arith, here, eq_iff (text_at i b) w, all_texts_complete a b u others)
  where
    here : text_at i b ≡ w
    here = sub i w (ground (arith, eq_iff i i))

    others : (j v : String) → lookup j a ≡ some v → text_at j b ≡ v
    others j v h = sub j v (ground (arith, eq_iff i j))

text_at-lookup : (k v : String) (b : Dict String) → lookup k b ≡ some v → text_at k b ≡ v
unfolding text_at
text_at-lookup k v b h = ground arith

lookup-text_at : (k v : String) (b : Dict String) → text_at k b ≡ v → v ≢ "" → lookup k b ≡ some v
unfolding text_at
lookup-text_at k v b h full = ground arith

module _ (a b : Dict String) (ua : NodupKeys a) (ub : NodupKeys b) where
  -- Two maps with distinct keys that agree at every key count as equal for `dataEqual`.
  pub data_equal_of_same : ((k : String) → lookup k a ≡ lookup k b) → data_equal a b ≡ true
  unfolding data_equal
  data_equal_of_same h = ground (
    arith,
    length-le_of_sub a b ua ub (λ k v e. sym (h k) ∙ e),
    length-le_of_sub b a ub ua (λ k v e. h k ∙ e),
    all_texts_complete a b ua (λ k v e. text_at-lookup k v b (sym (h k) ∙ e)),
  )

  -- For maps with distinct keys, of which the old one has no value "", a true result of `dataEqual`
  -- means that they agree at every key.
  pub same_of_data_equal :
      ((k : String) → lookup k a ≢ some "")
      → data_equal a b ≡ true
      → (k : String) → lookup k a ≡ lookup k b
  unfolding data_equal
  same_of_data_equal full h k =
      let size : length a ≡ length b = ground arith in
      let same : all_texts a b ≡ true = ground arith in
      lookup-eq_of_sub a b ua ub size
        (λ j v e.
          lookup-text_at j v b (all_texts_sound a b j v same e)
            (λ empty. full j (e ∙ ap some empty)))
        k

text_at-cons_ne :
    (k j : String) (m : Dict String) → k ≢ j → lookup k m ≡ none → text_at k ((j, "") ∷ m) ≡ ""
unfolding text_at lookup
text_at-cons_ne k j m apart fresh = ground (arith, eq_iff j k)

rest_found :
    (j : String) (m : Dict String)
    → lookup j m ≡ none
    → (i v : String) → lookup i m ≡ some v
    → text_at i ((j, "") ∷ m) ≡ v
unfolding text_at lookup
rest_found j m new i v e = ground (arith, eq_iff j i)

-- In maps with distinct keys, a key with the value "" that is replaced by another key with the
-- value "" is not noticed by `dataEqual`: the maps count as equal, for whatever other entries, and
-- yet differ at the old key.
pub data_equal_misses :
    (k j : String) (m : Dict String)
    → NodupKeys ((k, "") ∷ m)
    → NodupKeys ((j, "") ∷ m)
    → k ≢ j
    → (data_equal ((k, "") ∷ m) ((j, "") ∷ m) ≡ true)
      × (lookup k ((k, "") ∷ m) ≢ lookup k ((j, "") ∷ m))
unfolding data_equal all_texts lookup
data_equal_misses k j m (fresh, u) (new, _) apart = (
  rw (text_at-cons_ne k j m apart fresh, all_texts_complete m ((j, "") ∷ m) u (rest_found j m new))
      (ground arith),
  λ same. ground (arith, eq_iff j k, eq_iff k k),
)
