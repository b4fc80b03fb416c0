-- ===== src/Prelude/Text.antt =====
-- A JavaScript string is the list of its code units.
use Prim.Native.Nat.{ℕ, ◌+◌}
use Prim.Native.Char.{code}
use Prim.Native.String.{String}
use mathlib.Core.Path.{◌≡◌, refl, sym, ap, ◌∙◌}
use mathlib.Core.Logic.{◌↔◌, ◌≢◌}
use mathlib.Core.Bool.{Bool, true, false, ◌||◌, ◌&&◌, not}
use mathlib.Core.Option.{Option, none, some}
use mathlib.Core.List.{List, [], ◌∷◌, ◌++◌, map, reverse}
use native.Mathlib.Omega.{arith}
use chicoree.Prelude.Tests.{leb, ◌==◌, if◌then◌else◌, is_some}
use chicoree.Prelude.Arrays.{is_empty, filter}

abbrev pub Str : Type 0
Str = List ℕ

-- A literal of the source, all of them ASCII.
abbrev pub str : String → Str
str String.[] = []
str (String.◌∷◌ c s) = code c ∷ str s

-- `===` on strings
unfoldable pub str_eq : Str → Str → Bool
str_eq [] [] = true
str_eq [] (_ ∷ _) = false
str_eq (_ ∷ _) [] = false
str_eq (a ∷ s) (b ∷ t) = a == b && str_eq s t

pub str_eq→eq : (s t : Str) → str_eq s t ≡ true → s ≡ t
unfolding str_eq
str_eq→eq [] [] h = refl
str_eq→eq [] (_ ∷ _) h = cc
str_eq→eq (_ ∷ _) [] h = cc
str_eq→eq (a ∷ s) (b ∷ t) h = ground (arith, str_eq→eq s t)

pub str_eq_refl : (s : Str) → str_eq s s ≡ true
unfolding str_eq
str_eq_refl [] = refl
str_eq_refl (a ∷ s) = ground (arith, str_eq_refl s)

pub str_eq_sym : (s t : Str) → str_eq s t ≡ str_eq t s
unfolding str_eq
str_eq_sym [] [] = refl
str_eq_sym [] (_ ∷ _) = refl
str_eq_sym (_ ∷ _) [] = refl
str_eq_sym (a ∷ s) (b ∷ t) = ground (arith, str_eq_sym s t)

pub str_eq_iff : (s t : Str) → (str_eq s t ≡ true) ↔ (s ≡ t)
str_eq_iff s t = (str_eq→eq s t, λ e. rw e (str_eq_refl t))

-- `list.includes(s)` on an array of strings
unfoldable pub includes : List Str → Str → Bool
unfolding str_eq
includes [] s = false
includes (t ∷ ts) s = str_eq t s || includes ts s

-- `\s`: the white space and the line ends of the language.
unfoldable pub is_space : ℕ → Bool
is_space c =
    (leb 9 c && leb c 13)
    || c == 0x20
    || c == 0xa0
    || c == 0x1680
    || (leb 0x2000 c && leb c 0x200a)
    || c == 0x2028
    || c == 0x2029
    || c == 0x202f
    || c == 0x205f
    || c == 0x3000
    || c == 0xfeff

drop_spaces : Str → Str
unfolding is_space
drop_spaces [] = []
drop_spaces (c ∷ s) = let rest = drop_spaces s in if is_space c then rest else c ∷ s

-- `s.trim()`
unfoldable pub trim : Str → Str
unfolding drop_spaces
trim s = reverse (drop_spaces (reverse (drop_spaces s)))

-- One letter of `toLowerCase`, in the ASCII range.
unfoldable pub lower_code : ℕ → ℕ
lower_code c = if leb b'A' c && leb c b'Z' then c + 32 else c

unfoldable pub lower : Str → Str
unfolding lower_code
lower = map lower_code

-- The loop of `split` at the code units of a class: the piece that is being read, and the rest.
split_from : (ℕ → Bool) → Str → Str → List Str
split_from sep piece [] = piece ∷ []
split_from sep piece (c ∷ s) =
    let closed = piece ∷ split_from sep [] s in
    let longer = split_from sep (piece ++ c ∷ []) s in if sep c then closed else longer

-- `s.split(/[...]+/)` followed by `filter(Boolean)`: the empty pieces are dropped, so that a run of
-- separators counts as one.
unfoldable pub split_words : (ℕ → Bool) → Str → List Str
unfolding split_from
split_words sep s = filter (λ w. not (is_empty w)) (split_from sep [] s)

-- The text behind a literal prefix.
unfoldable pub after_prefix : Str → Str → Option Str
after_prefix [] s = some s
after_prefix (p ∷ ps) [] = none
after_prefix (p ∷ ps) (c ∷ s) = let rest = after_prefix ps s in if p == c then rest else none

-- `s.startsWith(prefix)`
unfoldable pub starts_with : Str → Str → Bool
unfolding after_prefix
starts_with prefix s = is_some (after_prefix prefix s)

-- `s.includes(part)`
unfoldable pub contains : Str → Str → Bool
unfolding starts_with
contains part [] = starts_with part []
contains part (c ∷ s) = starts_with part (c ∷ s) || contains part s

-- `s.split(c)[0]`
unfoldable pub before_first : ℕ → Str → Str
before_first c [] = []
before_first c (d ∷ s) = let rest = before_first c s in if d == c then [] else d ∷ rest

pub true-false : true ≢ false
true-false e = cc (e)

-- Two texts, equal or apart, as the test tells.
pub by_equality {ℓ} : {Goal : Type ℓ} → (a b : Str) → (a ≡ b → Goal) → (a ≢ b → Goal) → Goal
by_equality {Goal} a b same apart =
    let by_test : (x : Bool) → str_eq a b ≡ x → Goal = λ x. elim x as (λ k. str_eq a b ≡ k → Goal) [
      | true ↦ λ e. same (str_eq→eq a b e)
      | false ↦ λ e. apart (λ eq. true-false (sym (str_eq_refl a) ∙ ap (str_eq a) eq ∙ e))
    ] in
    by_test (str_eq a b) refl

pub differs : (a b : Str) → a ≢ b → str_eq a b ≡ false
differs a b n =
    let by_test : (x : Bool) → str_eq a b ≡ x → x ≡ false = λ x.
      elim x as (λ k. str_eq a b ≡ k → k ≡ false) [
        | true ↦ λ e. absurd (n (str_eq→eq a b e))
        | false ↦ λ e. refl
      ] in
    by_test (str_eq a b) refl
