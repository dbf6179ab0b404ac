-- ===== src/Decimal.antt =====
-- `fmt.Sprintf` with `%d` for a count. The digits are found by division, with one unit of fuel for
-- each digit; a number has at most as many digits as its value plus one.
pub mod Fuel
use Prim.Native.Nat.{◌/◌, ◌%◌}
use cicd_tools.Prelude.{ℕ, zero, suc, String, ◌<>◌, ltb, eqb, if◌then◌else◌}

pub digit : ℕ → String
digit n =
    if eqb n 0
    then "0"
    else if eqb n 1
    then "1"
    else if eqb n 2
    then "2"
    else if eqb n 3
    then "3"
    else if eqb n 4
    then "4"
    else if eqb n 5
    then "5"
    else if eqb n 6
    then "6"
    else if eqb n 7
    then "7"
    else if eqb n 8
    then "8"
    else "9"

unfoldable pub digits : ℕ → ℕ → String
digits zero n = ""
digits (suc fuel) n =
    let rest = digits fuel (n / 10) in if ltb n 10 then digit n else rest <> digit (n % 10)

unfoldable pub decimal : ℕ → String
unfolding digits digit
decimal n = digits (suc n) n
