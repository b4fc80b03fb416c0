-- ===== src/TagAdmin/Newest.antt =====
-- The newest of several images, `pickNewest` of web/src/lib/mirror.ts.
use Prim.Native.Nat.{Ordering, compare}
use chicoree.Prelude.{
  ℕ, ◌+◌, ◌-◌, ◌*◌, Bool, true, false, ◌&&◌, ◌||◌, Option, none, some, get_or, List, [], ◌∷◌, drop,
  length, leb, ◌==◌, if◌then◌else◌, Str,
}
use chicoree.Prelude.Sorting.{or_else}

pub record Tag : Type 0 where
  pub name : Str
  pub digest : Str

abbrev is_digit : ℕ → Bool
is_digit c = leb b'0' c && leb c b'9'

-- `\d+`: the number that is read, and the rest; `seen` says whether there was a digit.
digits_from : (seen : Bool) → ℕ → Str → Option (ℕ × Str)
digits_from seen n [] = if seen then some (n, []) else none
digits_from seen n (c ∷ s) =
    let further = digits_from true (n * 10 + (c - b'0')) s in
    if is_digit c then further else if seen then some (n, c ∷ s) else none

-- `(?:\.(\d+))?`, where it matches.
dotted : Str → Option (ℕ × Str)
unfolding digits_from
dotted [] = none
dotted (c ∷ s) = if c == b'.' then digits_from false 0 s else none

-- `(?=([-+.])|$)`: 1 at the end, 0 before a suffix.
at_end : Str → Option ℕ
at_end [] = some 1
at_end (c ∷ s) = if c == b'-' || c == b'+' || c == b'.' then some 0 else none

pub record VersionKey : Type 0 where
  pub major : ℕ
  pub minor : ℕ
  pub patch : ℕ
  pub plain : ℕ

abbrev version : ℕ → ℕ → ℕ → ℕ → VersionKey
version a b c d = record { major = a; minor = b; patch = c; plain = d }

-- A group that is followed by neither the end nor a suffix is given up, for the dot before it.
patch_key : ℕ → ℕ → Option (ℕ × Str) → Str → Option VersionKey
unfolding at_end
patch_key a b none rest = elim (at_end rest) [
  | none ↦ some (version a 0 0 0)
  | some d ↦ some (version a b 0 d)
]
patch_key a b (some (c, s)) rest = elim (at_end s) [
  | none ↦ some (version a b 0 0)
  | some d ↦ some (version a b c d)
]

minor_key : ℕ → Option (ℕ × Str) → Str → Option VersionKey
unfolding at_end patch_key dotted
minor_key a none rest = elim (at_end rest) [ none ↦ none | some d ↦ some (version a 0 0 d) ]
minor_key a (some (b, s)) rest = patch_key a b (dotted s) s

major_key : Option (ℕ × Str) → Option VersionKey
unfolding minor_key dotted
major_key none = none
major_key (some (a, s)) = minor_key a (dotted s) s

without_v : Str → Str
without_v [] = []
without_v (c ∷ s) = if c == b'v' then s else c ∷ s

unfoldable pub version_key : Str → Option VersionKey
unfolding major_key digits_from without_v
version_key tag = major_key (digits_from false 0 (without_v tag))

abbrev is_below : Ordering → Bool
is_below Ordering.lt = true
is_below Ordering.eq = false
is_below Ordering.gt = false

older_key : VersionKey → VersionKey → Bool
older_key x y = is_below (
    or_else (compare x.major y.major) (
      or_else (compare x.minor y.minor)
        (or_else (compare x.patch y.patch) (compare x.plain y.plain))))

-- The loop over versioned tags: the last of the greatest.
better_version : Tag → Option VersionKey → Option (Tag × VersionKey) → Option (Tag × VersionKey)
unfolding older_key
better_version t none best = best
better_version t (some key) none = some (t, key)
better_version t (some key) (some (b, k)) = if older_key key k then some (b, k) else some (t, key)

newest_version : Option (Tag × VersionKey) → List Tag → Option (Tag × VersionKey)
unfolding better_version version_key
newest_version best [] = best
newest_version best (t ∷ ts) = newest_version (better_version t (version_key t.name) best) ts

-- The loop over dates, an image without one being the oldest.
better_date : Tag → ℕ → Option (Tag × ℕ) → Option (Tag × ℕ)
better_date t date none = some (t, date)
better_date t date (some (b, d)) = if leb d date then some (t, date) else some (b, d)

newest_date : (Str → Option ℕ) → Option (Tag × ℕ) → List Tag → Option (Tag × ℕ)
unfolding better_date
newest_date created_at best [] = best
newest_date created_at best (t ∷ ts) =
    newest_date created_at (better_date t (get_or (created_at t.digest) 0) best) ts

picked_date : Option (Tag × ℕ) → Option Tag
picked_date none = none
picked_date (some (t, date)) = some t

picked : (Str → Option ℕ) → List Tag → Option (Tag × VersionKey) → Option Tag
unfolding newest_date picked_date
picked created_at candidates (some (t, key)) = some t
picked created_at candidates none =
    picked_date (newest_date created_at none (drop (length candidates - 100) candidates))

unfoldable pub pick_newest : (created_at : Str → Option ℕ) → List Tag → Option Tag
unfolding picked newest_version
pick_newest created_at candidates = picked created_at candidates (newest_version none candidates)
