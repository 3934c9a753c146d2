-- ===== src/Engines/Money.antt =====
-- `money` of backend/src/home_compass/common.py, for a whole amount that a float holds exactly: such an
-- amount is what `_to_int_half_away_from_zero` makes of it.
pub mod Nearest
use Prim.Native.String.{◌++◌ as str_append}
use home_compass.Prelude.{
  ℕ, zero, suc, ◌+◌, ◌*◌, ◌/◌, ◌%◌, String, Bool, true, false, eqb, ltb, leb, if◌then◌else◌,
  decimal,
}

-- `_round_half_up`
abbrev pub round_half_up : ℕ → ℕ → ℕ
round_half_up amount unit = (amount + unit / 2) / unit

-- the numbers in a formatted amount
pub data Shown : Type 0 where
  eok_and_man : ℕ → ℕ → Shown
  only_eok only_man only_won : ℕ → Shown

abbrev if_any : ℕ → ℕ → Shown
if_any eok man = if eqb man 0 then only_eok eok else eok_and_man eok man

-- the carry: 199,999,000 is two eok, not one eok and 10,000 man
unfoldable pub carried : ℕ → ℕ → Shown
carried eok man = if leb 10_000 man then if_any (eok + 1) 0 else if_any eok man

unfoldable pub shown_amount : ℕ → Shown
shown_amount amount =
    if leb 100_000_000 amount
    then carried (amount / 100_000_000) (round_half_up (amount % 100_000_000) 10_000)
    else if leb 10_000 amount
    then only_man (round_half_up amount 10_000)
    else only_won amount

-- the last three digits
abbrev three_digits : ℕ → String
three_digits n =
    if ltb n 10
    then str_append "00" (decimal n)
    else if ltb n 100
    then str_append "0" (decimal n)
    else decimal n

-- f"{n:,}", on fuel: a number has no more groups of digits than it has units, and one
with_commas_from : ℕ → ℕ → String
with_commas_from zero n = ""
with_commas_from (suc fuel) n =
    let higher = with_commas_from fuel (n / 1000) in
    if ltb n 1000 then decimal n else str_append higher (str_append "," (three_digits (n % 1000)))

unfoldable pub with_commas : ℕ → String
unfolding with_commas_from
with_commas n = with_commas_from (n + 1) n

abbrev pub print_amount : Shown → String
print_amount (eok_and_man eok man) =
    str_append (decimal eok) (str_append "억 " (str_append (with_commas man) "만원"))
print_amount (only_eok eok) = str_append (decimal eok) "억원"
print_amount (only_man man) = str_append (with_commas man) "만원"
print_amount (only_won won) = str_append (with_commas won) "원"

abbrev sign_of : Bool → ℕ → String
sign_of true (suc n) = "-"
sign_of _ _ = ""

-- `money`, of an amount below zero where `negative` is true
unfoldable pub money : Bool → ℕ → String
money negative size = str_append (sign_of negative size) (print_amount (shown_amount size))
