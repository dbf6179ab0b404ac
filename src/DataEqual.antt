-- ===== src/DataEqual.antt =====
-- `secretDataEqual` of operators/config-sync-zyql/controllers/secret_controller.go, and `dataEqual`
-- and `binaryDataEqual` of configmap_controller.go there. `binaryDataEqual` has the text of
-- `secretDataEqual`.
pub mod Laws
pub mod Texts
use cicd_tools.Prelude.{String, Bool, true, false, Option, none, some, [], ◌∷◌}
use cicd_tools.Prelude.{◌==◌, eqb, length, if◌then◌else◌}
use cicd_tools.Dict.{Dict, lookup}
use cicd_tools.Types.{Bytes}

-- The loop `for i := range v`, over slices of one length.
unfoldable pub same_elements : Bytes → Bytes → Bool
same_elements [] bv = true
same_elements (x ∷ v) [] = false
same_elements (x ∷ v) (y ∷ bv) = if eqb x y then same_elements v bv else false

unfoldable pub bytes_equal : Bytes → Bytes → Bool
unfolding same_elements
bytes_equal v bv = if eqb (length v) (length bv) then same_elements v bv else false

-- `bv, ok := b[k]` and what follows it
unfoldable pub has_bytes : Option Bytes → Bytes → Bool
unfolding bytes_equal
has_bytes none v = false
has_bytes (some bv) v = bytes_equal v bv

unfoldable pub all_bytes : Dict Bytes → Dict Bytes → Bool
unfolding has_bytes lookup
all_bytes [] b = true
all_bytes ((k, v) ∷ a) b = if has_bytes (lookup k b) v then all_bytes a b else false

unfoldable pub secret_data_equal : Dict Bytes → Dict Bytes → Bool
unfolding all_bytes
secret_data_equal a b = if eqb (length a) (length b) then all_bytes a b else false

unfoldable pub binary_data_equal : Dict Bytes → Dict Bytes → Bool
unfolding all_bytes
binary_data_equal a b = if eqb (length a) (length b) then all_bytes a b else false

-- `b[k]`, which is "" for a missing key
unfoldable pub text_at : String → Dict String → String
unfolding lookup
text_at k b = elim (lookup k b) [ none ↦ "" | some v ↦ v ]

unfoldable pub all_texts : Dict String → Dict String → Bool
all_texts [] b = true
all_texts ((k, v) ∷ a) b = if text_at k b == v then all_texts a b else false

unfoldable pub data_equal : Dict String → Dict String → Bool
unfolding all_texts
data_equal a b = if eqb (length a) (length b) then all_texts a b else false
