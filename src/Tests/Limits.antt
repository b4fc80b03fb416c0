-- ===== src/Tests/Limits.antt =====
-- Limits on requests, printed and read, and requests against one of them.
use chicoree.Prelude.{ℕ, Str, ◌-◌, ◌≡◌, refl, none, some, List, [], ◌∷◌, min, str, arith}
use chicoree.RateLimit.{RateLimit, Counter, sa, key_for, counter_of, window_start_of}
use chicoree.RateLimit.Windows.{requests, passed, in_window, requests-passed}
use chicoree.RateLimit.Syntax.{
  limited, refused, window_not_positive, parse_rate_limit, format_window, digits, number_text,
}
use chicoree.RateLimit.Syntax.RoundTrip.{parse-format}

parsed :
    parse_rate_limit (str " 100 / 6h ") ≡ limited (record { count = 100; window_seconds = 21600 })
unfolding parse_rate_limit
parsed = refl

empty_window : parse_rate_limit (str "100/0s") ≡ refused window_not_positive
unfolding parse_rate_limit
empty_window = refl

-- No number here is so great.
abbrev large : ℕ → Str
large n = []

formatted : format_window large 21600 ≡ str "6h"
unfolding format_window number_text digits
formatted = refl

parse-format_example :
    parse_rate_limit (number_text large 100 (b'/' ∷ format_window large 21600))
    ≡ limited (record { count = 100; window_seconds = 21600 })
parse-format_example =
    parse-format large 100 21600 (omega arith) (omega arith) (omega arith) (omega arith)

abbrev two_per_minute : RateLimit
two_per_minute = record { count = 2; window_seconds = 60 }

abbrev counters : List Counter
counters = record { key = str "api|sa:s"; window_start = 120; count = 1 } ∷ []

requests-passed_example :
    passed (
      requests
        (sa (str "s"))
        none
        none
        (some two_per_minute)
        (121_000 ∷ 122_000 ∷ 123_000 ∷ [])
        counters)
    ≡ min 3 (2 - in_window 120 (counter_of (str "api|sa:s") counters))
unfolding window_start_of key_for
requests-passed_example =
    requests-passed (sa (str "s")) none none (some two_per_minute) two_per_minute refl refl 120
      (121_000 ∷ 122_000 ∷ 123_000 ∷ []) counters (refl, (refl, (refl, tt)))
