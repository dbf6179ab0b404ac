-- ===== src/DataEqual/Laws.antt =====
-- When two data maps count as equal.
use cicd_tools.Prelude.{◌≡◌, refl, sym, ◌∙◌, ◌↔◌}
use cicd_tools.Prelude.{String, true, false, Option, none, some, [], ◌∷◌, arith}
use cicd_tools.Prelude.{eq_iff, eqb, length, if◌then◌else◌}
use cicd_tools.Dict.{Dict, lookup, NodupKeys}
use cicd_tools.Dict.Laws.{lookup-eq_of_sub, length-le_of_sub}
use cicd_tools.Types.{Bytes}
use cicd_tools.DataEqual.{
  same_elements, bytes_equal, has_bytes, all_bytes, secret_data_equal, binary_data_equal,
}

same_elements_iff : (v bv : Bytes) → length v ≡ length bv → (same_elements v bv ≡ true) ↔ (v ≡ bv)
unfolding same_elements
same_elements_iff [] [] e = ground arith
same_elements_iff [] (y ∷ bv) e = absurd (omega arith)
same_elements_iff (x ∷ v) [] e = absurd (omega arith)
same_elements_iff (x ∷ v) (y ∷ bv) e = ground (arith, same_elements_iff v bv (omega arith))

bytes_equal_iff : (v bv : Bytes) → (bytes_equal v bv ≡ true) ↔ (v ≡ bv)
unfolding bytes_equal
bytes_equal_iff v bv = ground (arith, same_elements_iff v bv)

has_bytes_iff : (o : Option Bytes) (v : Bytes) → (has_bytes o v ≡ true) ↔ (o ≡ some v)
unfolding has_bytes
has_bytes_iff none v = ground arith
has_bytes_iff (some bv) v = ground (arith, bytes_equal_iff v bv)

-- The loop passes exactly if every entry of `a` is one of `b`.
all_bytes_sound :
    (a b : Dict Bytes) (k : String) (v : Bytes)
    → all_bytes a b ≡ true
    → lookup k a ≡ some v
    → lookup k b ≡ some v
unfolding all_bytes lookup
all_bytes_sound [] b k v h e = cc
all_bytes_sound ((i, w) ∷ a) b k v h e =
    ground (arith, eq_iff i k, has_bytes_iff (lookup i b) w, all_bytes_sound a b k v)

all_bytes_complete :
    (a b : Dict Bytes)
    → NodupKeys a
    → ((k : String) (v : Bytes) → lookup k a ≡ some v → lookup k b ≡ some v)
    → all_bytes a b ≡ true
unfolding all_bytes lookup
all_bytes_complete [] b u sub = refl
all_bytes_complete ((i, w) ∷ a) b (fresh, u) sub =
    ground (arith, here, has_bytes_iff (lookup i b) w, all_bytes_complete a b u others)
  where
    here : lookup i b ≡ some w
    here = sub i w (ground (arith, eq_iff i i))

    others : (j : String) (v : Bytes) → lookup j a ≡ some v → lookup j b ≡ some v
    others j v h = sub j v (ground (arith, eq_iff i j))

-- What both loops over binary maps compute, with the test on the sizes.
sized-all_bytes_iff :
    (a b : Dict Bytes)
    → NodupKeys a
    → NodupKeys b
    → ((if eqb (length a) (length b) then all_bytes a b else false) ≡ true)
      ↔ ((k : String) → lookup k a ≡ lookup k b)
sized-all_bytes_iff a b ua ub = (sound, complete)
  where
    sound :
        (if eqb (length a) (length b) then all_bytes a b else false) ≡ true
        → (k : String) → lookup k a ≡ lookup k b
    sound h k =
        let size : length a ≡ length b = ground arith in
        let same : all_bytes a b ≡ true = ground arith in
        lookup-eq_of_sub a b ua ub size (λ j v e. all_bytes_sound a b j v same e) k

    complete :
        ((k : String) → lookup k a ≡ lookup k b)
        → (if eqb (length a) (length b) then all_bytes a b else false) ≡ true
    complete h = ground (
      arith,
      length-le_of_sub a b ua ub (λ k v e. sym (h k) ∙ e),
      length-le_of_sub b a ub ua (λ k v e. h k ∙ e),
      all_bytes_complete a b ua (λ k v e. sym (h k) ∙ e),
    )

-- For maps with distinct keys `secretDataEqual` returns true exactly if each key has the same value
-- in both, or is in neither.
pub secret_data_equal_iff :
    (a b : Dict Bytes)
    → NodupKeys a
    → NodupKeys b
    → (secret_data_equal a b ≡ true) ↔ ((k : String) → lookup k a ≡ lookup k b)
unfolding secret_data_equal
secret_data_equal_iff a b ua ub = sized-all_bytes_iff a b ua ub

-- For maps with distinct keys `binaryDataEqual` returns true exactly if each key has the same value
-- in both, or is in neither.
pub binary_data_equal_iff :
    (a b : Dict Bytes)
    → NodupKeys a
    → NodupKeys b
    → (binary_data_equal a b ≡ true) ↔ ((k : String) → lookup k a ≡ lookup k b)
unfolding binary_data_equal
binary_data_equal_iff a b ua ub = sized-all_bytes_iff a b ua ub
