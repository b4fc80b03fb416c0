-- ===== src/Compare/Layers/Repeats.antt =====
-- The layers of the new image, a shared one once, and what dropping repeated rows keeps.
use chicoree.Prelude.{
  ℕ, ◌≡◌, refl, Bool, true, false, not, ◌&&◌, List, [], ◌∷◌, map, filter, if◌then◌else◌, Str,
  str_eq_refl, includes, arith,
}
use chicoree.Compare.Layers.{
  LayerInfo, LayerChange, LayerDiffRow, has_layer, Pointers, is_added, adds, removes, keeps,
  is_removed, is_unchanged, drop_repeated,
}

-- The layers that an image does not have.
abbrev pub missing_in : List LayerInfo → LayerInfo → Bool
missing_in ls l = not (has_layer ls l.digest)

abbrev pub layers_of : List LayerDiffRow → List LayerInfo
layers_of = map (λ (r : LayerDiffRow). r.layer)

-- The rows that the new image has.
abbrev pub stays : LayerDiffRow → Bool
stays r = not (is_removed r)

-- The layers of an image in their order, a layer that the other image has too only once.
unfoldable pub each_once : List LayerInfo → List Str → List LayerInfo → List LayerInfo
each_once from seen [] = []
each_once from seen (l ∷ ls) =
    let shared = has_layer from l.digest in
    let again = shared && includes seen l.digest in
    let rest = each_once from (if shared && not again then l.digest ∷ seen else seen) ls in
    if again then rest else l ∷ rest

keeps-removes : (c : LayerChange) → keeps c && removes c ≡ false
unfolding keeps removes
keeps-removes LayerChange.added = refl
keeps-removes LayerChange.removed = refl
keeps-removes LayerChange.unchanged = refl

keeps-adds : (c : LayerChange) → keeps c && adds c ≡ false
unfolding keeps adds
keeps-adds LayerChange.added = refl
keeps-adds LayerChange.removed = refl
keeps-adds LayerChange.unchanged = refl

pub removed-drop_repeated :
    (seen : List Str) (rows : List LayerDiffRow)
    → filter is_removed (drop_repeated seen rows) ≡ filter is_removed rows
unfolding drop_repeated is_removed is_unchanged
removed-drop_repeated seen [] = refl
removed-drop_repeated seen (r ∷ rs) =
    let s =
      if is_unchanged r && not (is_unchanged r && includes seen r.layer.digest)
      then r.layer.digest ∷ seen
      else seen in
    let rest = removed-drop_repeated s rs in ground (arith, keeps-removes r.change, rest)

pub added-drop_repeated :
    (seen : List Str) (rows : List LayerDiffRow)
    → filter is_added (drop_repeated seen rows) ≡ filter is_added rows
unfolding drop_repeated is_added is_unchanged
added-drop_repeated seen [] = refl
added-drop_repeated seen (r ∷ rs) =
    let s =
      if is_unchanged r && not (is_unchanged r && includes seen r.layer.digest)
      then r.layer.digest ∷ seen
      else seen in
    let rest = added-drop_repeated s rs in ground (arith, keeps-adds r.change, rest)

abbrev pub at : (f t : ℕ) → (fs ts : List LayerInfo) → Pointers
at f t fs ts = record { f = f; t = t; from_rest = fs; to_rest = ts }

pub includes-more :
    (x d : Str) (seen : List Str) → includes seen d ≡ true → includes (x ∷ seen) d ≡ true
unfolding includes
includes-more x d seen h = ground (arith, h)

pub includes-head : (x : Str) (seen : List Str) → includes (x ∷ seen) x ≡ true
unfolding includes
includes-head x seen = ground (arith, str_eq_refl x)

pub has_layer-head : (l : LayerInfo) (ls : List LayerInfo) → has_layer (l ∷ ls) l.digest ≡ true
unfolding has_layer
has_layer-head l ls = ground (arith, str_eq_refl l.digest)
