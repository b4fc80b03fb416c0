-- ===== src/RateLimit/Syntax.antt =====
-- web/src/lib/rate-limit-shared.ts: `<count>/<window>`. The regular expression is read from left to
-- right: no token that follows a run of digits or of spaces begins with one, so it never has to go
-- back. Numbers are exact, which JavaScript's are for windows below 2 ^ 53; what greater ones print
-- as is a parameter.
pub mod RoundTrip
use chicoree.Prelude.{
  ℕ, zero, suc, ◌+◌, ◌-◌, ◌*◌, ◌/◌, ◌%◌, Bool, true, false, ◌&&◌, Option, none, some, List, [], ◌∷◌,
  ◌++◌, ltb, leb, ◌==◌, if◌then◌else◌, Str, is_empty, is_space,
}
use chicoree.RateLimit.{RateLimit}

pub data LimitError : Type 0 where
  not_a_limit count_not_positive window_not_positive : LimitError

-- `{ limit: null }` is `unlimited`.
pub data ParsedLimit : Type 0 where
  unlimited : ParsedLimit
  limited : RateLimit → ParsedLimit
  refused : LimitError → ParsedLimit

abbrev pub is_digit : ℕ → Bool
is_digit c = leb b'0' c && leb c b'9'

-- `\s*`
unfoldable pub skip_spaces : Str → Str
unfolding is_space
skip_spaces [] = []
skip_spaces (c ∷ s) = let rest = skip_spaces s in if is_space c then rest else c ∷ s

-- What is left of a run of digits, with the value of those before.
unfoldable pub number_from : ℕ → Str → ℕ × Str
number_from value [] = (value, [])
number_from value (c ∷ s) =
    let rest = number_from (value * 10 + (c - b'0')) s in
    if is_digit c then rest else (value, c ∷ s)

-- `\d+`
unfoldable pub number : Str → Option (ℕ × Str)
unfolding number_from
number [] = none
number (c ∷ s) = if is_digit c then some (number_from (c - b'0') s) else none

-- `[smhd]`, as the seconds of the unit.
unfoldable pub unit_seconds : ℕ → Option ℕ
unit_seconds c =
    if c == b's'
    then some 1
    else if c == b'm'
    then some 60
    else if c == b'h'
    then some 3600
    else if c == b'd'
    then some 86400
    else none

-- `Number.isSafeInteger` of a natural number.
abbrev pub max_safe_integer : ℕ
max_safe_integer = 9_007_199_254_740_991

unfoldable pub limit_of : (count n unit : ℕ) → ParsedLimit
limit_of count n unit =
    if ltb max_safe_integer count
    then refused count_not_positive
    else if count == 0
    then refused count_not_positive
    else if n == 0
    then refused window_not_positive
    else limited (record { count = count; window_seconds = n * unit })

-- Behind the unit: the end.
unfoldable pub at_end : (count n : ℕ) → Str → Option ℕ → ParsedLimit
at_end count n s none = refused not_a_limit
at_end count n s (some unit) =
    if is_empty (skip_spaces s) then limit_of count n unit else refused not_a_limit

-- Behind the two numbers: the unit and the end.
unfoldable pub with_unit : (count n : ℕ) → Str → ParsedLimit
unfolding at_end unit_seconds limit_of skip_spaces
with_unit count n [] = refused not_a_limit
with_unit count n (c ∷ s) = at_end count n s (unit_seconds c)

unfoldable pub with_window : ℕ → Option (ℕ × Str) → ParsedLimit
unfolding with_unit skip_spaces
with_window count none = refused not_a_limit
with_window count (some (n, s)) = with_unit count n (skip_spaces s)

unfoldable pub with_slash : ℕ → Str → ParsedLimit
unfolding with_window skip_spaces number
with_slash count [] = refused not_a_limit
with_slash count (c ∷ s) =
    if c == b'/' then with_window count (number (skip_spaces s)) else refused not_a_limit

unfoldable pub with_count : Option (ℕ × Str) → ParsedLimit
unfolding with_slash skip_spaces
with_count none = refused not_a_limit
with_count (some (count, s)) = with_slash count (skip_spaces s)

-- `text.trim() === ""` says that the text is nothing but spaces.
unfoldable pub parse_rate_limit : Str → ParsedLimit
unfolding with_count skip_spaces number
parse_rate_limit text =
    if is_empty (skip_spaces text) then unlimited else with_count (number (skip_spaces text))

-- The digits of a number in front of a text; one digit for each unit of fuel, enough with `suc n`.
unfoldable pub digits_from : ℕ → ℕ → Str → Str
digits_from zero n s = s
digits_from (suc fuel) n s =
    let rest = digits_from fuel (n / 10) ((b'0' + n % 10) ∷ s) in
    if ltb n 10 then (b'0' + n) ∷ s else rest

unfoldable pub digits : ℕ → Str → Str
unfolding digits_from
digits n s = digits_from (suc n) n s

-- `String` of a number in front of a text: the digits of one that JavaScript holds exactly, and what
-- the host prints of a greater one.
unfoldable pub number_text : (large : ℕ → Str) → ℕ → Str → Str
unfolding digits
number_text large n s = if leb n max_safe_integer then digits n s else large n ++ s

unfoldable pub format_window : (large : ℕ → Str) → ℕ → Str
unfolding number_text
format_window large seconds =
    if seconds % 86400 == 0
    then number_text large (seconds / 86400) (b'd' ∷ [])
    else if seconds % 3600 == 0
    then number_text large (seconds / 3600) (b'h' ∷ [])
    else if seconds % 60 == 0
    then number_text large (seconds / 60) (b'm' ∷ [])
    else number_text large seconds (b's' ∷ [])
