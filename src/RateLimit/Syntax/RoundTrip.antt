-- ===== src/RateLimit/Syntax/RoundTrip.antt =====
-- A printed limit is read back.
use chicoree.Prelude.{
  leb, ap, ℕ, zero, suc, ◌+◌, ◌-◌, ◌*◌, ◌/◌, ◌%◌, ◌≤◌, ◌<◌, ◌==◌, ltb, ◌≡◌, refl, ◌∙◌, true, false,
  Bool-cases, Option, some, inl, inr, [], ◌∷◌, Str, arith, is_space, is_empty,
}
use chicoree.RateLimit.Syntax.{
  number_text, limited, is_digit, skip_spaces, number_from, number, unit_seconds, limit_of,
  with_unit, at_end, with_window, with_slash, with_count, parse_rate_limit, digits_from, digits,
  format_window, max_safe_integer,
}

is_digit-plus : (d : ℕ) → d < 10 → is_digit (48 + d) ≡ true
is_digit-plus d h = ground arith

plus-minus : (d : ℕ) → 48 + d - 48 ≡ d
plus-minus d = omega arith

ltb→lt : (a b : ℕ) → ltb a b ≡ true → a < b
ltb→lt a b h = ground arith

div-mod-ten : (n : ℕ) → n / 10 * 10 + n % 10 ≡ n
div-mod-ten n = omega arith

mod_ten-lt : (n : ℕ) → n % 10 < 10
mod_ten-lt n = omega arith

digit-reads :
    (n : ℕ) (s : Str)
    → ◌≡◌ {A = Option (ℕ × Str)}
        (some (number_from (n / 10) ((48 + n % 10) ∷ s)))
        (some (number_from n s))
unfolding number_from
digit-reads n s =
    rw (is_digit-plus (n % 10) (mod_ten-lt n), plus-minus (n % 10), div-mod-ten n) refl

number-digits_from :
    (fuel n : ℕ) (s : Str) → n < fuel → number (digits_from fuel n s) ≡ some (number_from n s)
unfolding number digits_from
number-digits_from zero n s h = ground arith
number-digits_from (suc fuel) n s h = elim (Bool-cases (ltb n 10)) [
  | inl e ↦ rw (e, is_digit-plus n (ltb→lt n 10 e), plus-minus n) refl
  | inr e ↦
      rw e (number-digits_from fuel (n / 10) ((b'0' + n % 10) ∷ s) (ground arith) ∙ digit-reads n s)
]

-- A printed number begins with a digit.
record BeginsWithDigit (s : Str) : Type 0 where
  digit : ℕ
  tail : Str
  small : digit < 10
  splits : s ≡ (48 + digit) ∷ tail

digits_from-BeginsWithDigit :
    (fuel n : ℕ) (s : Str) → n < fuel → BeginsWithDigit (digits_from fuel n s)
unfolding digits_from
digits_from-BeginsWithDigit zero n s h = ground arith
digits_from-BeginsWithDigit (suc fuel) n s h = elim (Bool-cases (ltb n 10)) [
  | inl e ↦ rw e (record { digit = n; tail = s; small = ltb→lt n 10 e; splits = refl })
  | inr e ↦ rw e (digits_from-BeginsWithDigit fuel (n / 10) ((b'0' + n % 10) ∷ s) (ground arith))
]

is_space-plus : (d : ℕ) → d < 10 → is_space (48 + d) ≡ false
unfolding is_space
is_space-plus d h = ground arith

skip_spaces-digit : (s : Str) → BeginsWithDigit s → skip_spaces s ≡ s
unfolding skip_spaces
skip_spaces-digit s h = rw (h.splits, is_space-plus h.digit h.small) refl

skip_spaces-digits : (n : ℕ) (s : Str) → skip_spaces (digits n s) ≡ digits n s
unfolding digits
skip_spaces-digits n s =
    skip_spaces-digit (digits_from (suc n) n s)
      (digits_from-BeginsWithDigit (suc n) n s (omega arith))

is_empty-digit : (s : Str) → BeginsWithDigit s → is_empty s ≡ false
is_empty-digit s h = rw (h.splits) refl

is_empty-digits : (n : ℕ) (s : Str) → is_empty (skip_spaces (digits n s)) ≡ false
unfolding digits
is_empty-digits n s =
    ap is_empty (skip_spaces-digits n s)
    ∙ is_empty-digit (digits_from (suc n) n s)
        (digits_from-BeginsWithDigit (suc n) n s (omega arith))

number-digits : (n : ℕ) (s : Str) → number (skip_spaces (digits n s)) ≡ some (number_from n s)
unfolding digits
number-digits n s =
    ap number (skip_spaces-digits n s) ∙ number-digits_from (suc n) n s (omega arith)

with_unit-limit_of :
    (count n c unit : ℕ)
    → unit_seconds c ≡ some unit
    → with_unit count n (c ∷ []) ≡ limit_of count n unit
unfolding with_unit at_end skip_spaces
with_unit-limit_of count n c unit e = rw e refl

-- A printed window is read as its number and its unit.
with_window-digits :
    (count n c unit : ℕ)
    → unit_seconds c ≡ some unit
    → is_digit c ≡ false
    → is_space c ≡ false
    → with_window count (number (skip_spaces (digits n (c ∷ [])))) ≡ limit_of count n unit
unfolding with_window number_from skip_spaces
with_window-digits count n c unit e d s =
    ap (with_window count) (number-digits n (c ∷ []))
    ∙ rw (d, s) (with_unit-limit_of count n c unit e)

abbrev IsCount : ℕ → Type 0
IsCount count = (0 < count) × (count ≤ max_safe_integer)

limit_of-limited :
    (count n unit seconds : ℕ)
    → IsCount count
    → 0 < seconds
    → n * unit ≡ seconds
    → limit_of count n unit ≡ limited (record { count = count; window_seconds = seconds })
unfolding limit_of
limit_of-limited count zero unit seconds c h e = ground arith
limit_of-limited count (suc n) unit seconds c h e =
    let safe : ltb max_safe_integer count ≡ false = ground arith in
    let positive : (count == 0) ≡ false = ground arith in
    let not_empty : (suc n == 0) ≡ false = ground arith in
    rw (safe, positive, not_empty)
      (ap (λ w. limited (record { count = count; window_seconds = w })) e)

-- A number that is held exactly prints as its digits.
number_text-digits :
    (large : ℕ → Str) (n : ℕ) (s : Str) → n ≤ max_safe_integer → number_text large n s ≡ digits n s
unfolding number_text
number_text-digits large n s h =
    let exact : leb n max_safe_integer ≡ true = ground arith in rw exact refl

window-reads :
    (large : ℕ → Str) (count seconds : ℕ)
    → IsCount count
    → 0 < seconds
    → seconds ≤ max_safe_integer
    → with_window count (number (skip_spaces (format_window large seconds)))
      ≡ limited (record { count = count; window_seconds = seconds })
unfolding format_window unit_seconds is_space
window-reads large count seconds c h m =
    let reads : (n u unit : ℕ)
        → unit_seconds u ≡ some unit
        → is_digit u ≡ false
        → is_space u ≡ false
        → n ≤ max_safe_integer
        → n * unit ≡ seconds
        → with_window count (number (skip_spaces (number_text large n (u ∷ []))))
          ≡ limited (record { count = count; window_seconds = seconds }) =
      λ n u unit e d s small t.
        ap (λ w. with_window count (number (skip_spaces w)))
          (number_text-digits large n (u ∷ []) small)
        ∙ with_window-digits count n u unit e d s
        ∙ limit_of-limited count n unit seconds c h t in
    elim (Bool-cases (seconds % 86400 == 0)) [
      | inl e ↦
          rw e (reads (seconds / 86400) b'd' 86400 refl refl refl (omega (arith, m)) (ground arith))
      | inr a ↦ elim (Bool-cases (seconds % 3600 == 0)) [
        | inl e ↦
            rw (a, e)
              (reads (seconds / 3600) b'h' 3600 refl refl refl (omega (arith, m)) (ground arith))
        | inr b ↦ elim (Bool-cases (seconds % 60 == 0)) [
          | inl e ↦
              rw (a, b, e)
                (reads (seconds / 60) b'm' 60 refl refl refl (omega (arith, m)) (ground arith))
          | inr d ↦ rw (a, b, d) (reads seconds b's' 1 refl refl refl m (omega arith))
        ]
      ]
    ]

-- A limit that is printed as its count, a slash and its window is read back, for a positive count
-- and a window that is not empty, both of which JavaScript holds exactly (up to MAX_SAFE_INTEGER).
pub parse-format :
    (large : ℕ → Str) (count seconds : ℕ)
    → 0 < count
    → count ≤ max_safe_integer
    → 0 < seconds
    → seconds ≤ max_safe_integer
    → parse_rate_limit (number_text large count (b'/' ∷ format_window large seconds))
      ≡ limited (record { count = count; window_seconds = seconds })
unfolding parse_rate_limit with_count with_slash number_from
parse-format large count seconds c m h w =
    rw
      (
        number_text-digits large count (b'/' ∷ format_window large seconds) m,
        is_empty-digits count (b'/' ∷ format_window large seconds),
        number-digits count (b'/' ∷ format_window large seconds),
      )
      (window-reads large count seconds (c, m) h w)
