-- ===== src/Tests/Values.antt =====
-- Witnesses on maps of data and on the interval.

use cicd_tools.Prelude.{ℕ, ◌*◌, String, ◌≡◌, ◌≢◌, ◌↔◌, refl, true, eq_iff, some, [], ◌∷◌, arith}
use cicd_tools.Prelude.Int.{pos, negsuc}
use cicd_tools.Dict.{Dict, lookup}
use cicd_tools.Types.{Bytes}
use cicd_tools.Decimal.{decimal}
use cicd_tools.DataEqual.{secret_data_equal, data_equal, text_at}
use cicd_tools.DataEqual.Laws.{secret_data_equal_iff}
use cicd_tools.DataEqual.Texts.{same_of_data_equal, data_equal_misses}
use cicd_tools.Interval.{second, get_sync_interval}
use cicd_tools.Interval.Bounds.{AtLeast, get_sync_interval-AtLeast, get_sync_interval-overflow}

abbrev user_pass : Dict Bytes
user_pass = ("user", 1 ∷ []) ∷ ("pass", 2 ∷ 3 ∷ []) ∷ []

abbrev pass_user : Dict Bytes
pass_user = ("pass", 2 ∷ 3 ∷ []) ∷ ("user", 1 ∷ []) ∷ []

secret_data_equal_iff_example :
    (secret_data_equal user_pass pass_user ≡ true)
    ↔ ((k : String) → lookup k user_pass ≡ lookup k pass_user)
unfolding lookup
secret_data_equal_iff_example =
    secret_data_equal_iff user_pass pass_user (refl, (refl, tt)) (refl, (refl, tt))

abbrev settings : Dict String
settings = ("level", "info") ∷ ("port", "80") ∷ []

abbrev level : Dict String
level = ("level", "info") ∷ []

level-full : (k : String) → lookup k level ≢ some ""
unfolding lookup
level-full k h = ground (arith, eq_iff "info" "")

same_of_data_equal_example : lookup "level" level ≡ lookup "level" level
unfolding lookup data_equal text_at
same_of_data_equal_example =
    same_of_data_equal level level (refl, tt) (refl, tt) level-full refl "level"

data_equal_misses_example :
    (data_equal (("old", "") ∷ settings) (("new", "") ∷ settings) ≡ true)
    × (lookup "old" (("old", "") ∷ settings) ≢ lookup "old" (("new", "") ∷ settings))
unfolding lookup
data_equal_misses_example =
    data_equal_misses "old" "new" settings (refl, (refl, (refl, tt))) (refl, (refl, (refl, tt)))
      (λ e. ground (arith, eq_iff "old" "new"))

get_sync_interval-AtLeast_example : AtLeast (60 * second) (get_sync_interval (some (pos 90)))
get_sync_interval-AtLeast_example = get_sync_interval-AtLeast (some (pos 90)) (omega arith)

get_sync_interval-overflow_example :
    (m : ℕ) × (get_sync_interval (some (pos 10000000000)) ≡ negsuc m)
get_sync_interval-overflow_example =
    get_sync_interval-overflow 10000000000 (omega arith) (omega arith)

decimal_zero : decimal 0 ≡ "0"
unfolding decimal
decimal_zero = refl

decimal_long : decimal 1205 ≡ "1205"
unfolding decimal
decimal_long = refl
