-- ===== src/Compare/Layers.antt =====
-- The layers of two images side by side, from web/src/lib/compare-shared.ts.
pub mod Repeats
pub mod Rounds
pub mod Walk
pub mod Counts
use chicoree.Prelude.{
  ℕ, zero, suc, ◌+◌, ◌-◌, Bool, true, false, not, ◌&&◌, ◌||◌, Option, none, some, get_or, List, [],
  ◌∷◌, ◌++◌, map, filter, drop, length, ◌==◌, if◌then◌else◌, Str, str, str_eq, includes, is_empty,
  is_space, trim, after_prefix,
}

pub record LayerInfo : Type 0 where
  pub digest : Str
  pub size : ℕ
  pub media_type : Option Str
  pub command : Option Str

-- `xs[0]`, where the array may end.
abbrev pub head {ℓ} : {A : Type ℓ} → List A → Option A
head [] = none
head (x ∷ xs) = some x

pub data LayerChange : Type 0 where
  added removed unchanged : LayerChange

pub record LayerDiffRow : Type 0 where
  pub change : LayerChange
  pub layer : LayerInfo
  pub from_index : Option ℕ
  pub to_index : Option ℕ

pub record LayerDiff : Type 0 where
  pub rows : List LayerDiffRow
  pub added : ℕ
  pub removed : ℕ
  pub unchanged : ℕ
  pub added_bytes : ℕ
  pub removed_bytes : ℕ

-- `fromIdx.has(digest)`: an image has a layer.
unfoldable pub has_layer : List LayerInfo → Str → Bool
has_layer [] digest = false
has_layer (l ∷ ls) digest = str_eq l.digest digest || has_layer ls digest

-- `fromIdx.get(digest)`: where an image has it first.
layer_index : ℕ → List LayerInfo → Str → Option ℕ
layer_index i [] digest = none
layer_index i (l ∷ ls) digest =
    let rest = layer_index (i + 1) ls digest in if str_eq l.digest digest then some i else rest

-- The variables of the loop: the two pointers, with the layers from each of them on.
pub record Pointers : Type 0 where
  pub f : ℕ
  pub t : ℕ
  pub from_rest : List LayerInfo
  pub to_rest : List LayerInfo

abbrev pub skip_from : Pointers → Pointers
skip_from p = record p { f = p.f + 1; from_rest = drop 1 p.from_rest }

abbrev pub skip_to : Pointers → Pointers
skip_to p = record p { t = p.t + 1; to_rest = drop 1 p.to_rest }

-- What a round of the loop pushes, and the pointers behind it.
abbrev pub Round : Type 0
Round = List LayerDiffRow × Pointers

abbrev pub removed_row : ℕ → LayerInfo → LayerDiffRow
removed_row f l = record {
  change = LayerChange.removed;
  layer = l;
  from_index = some (f + 1);
  to_index = none;
}

abbrev pub added_row : ℕ → LayerInfo → LayerDiffRow
added_row t l = record {
  change = LayerChange.added;
  layer = l;
  from_index = none;
  to_index = some (t + 1);
}

abbrev pub unchanged_row : ℕ → ℕ → LayerInfo → LayerDiffRow
unchanged_row f t l = record {
  change = LayerChange.unchanged;
  layer = l;
  from_index = some (f + 1);
  to_index = some (t + 1);
}

with_rows : List LayerDiffRow → Option (List LayerDiffRow) → Option (List LayerDiffRow)
with_rows rows none = none
with_rows rows (some rest) = some (rows ++ rest)

-- Behind a round; `again` is the rest of the loop.
after_round : (Pointers → Option (List LayerDiffRow)) → Option Round → Option (List LayerDiffRow)
unfolding with_rows
after_round again none = some []
after_round again (some (rows, q)) = with_rows rows (again q)

module _ (from to : List LayerInfo) where
  -- Both pointers are at a layer that the images share.
  both_shared : Pointers → LayerInfo → LayerInfo → Round
  unfolding layer_index
  both_shared p fl tl =
      if str_eq fl.digest tl.digest
      then (unchanged_row p.f p.t tl ∷ [], skip_from (skip_to p))
      else (
        unchanged_row (get_or (layer_index 0 from tl.digest) 0) p.t tl ∷ [],
        if not (has_layer (drop 1 p.to_rest) fl.digest) then skip_from (skip_to p) else skip_to p,
      )

  round_at : Pointers → (fl tl : Option LayerInfo) → Option Round
  unfolding both_shared
  round_at p none none = none
  round_at p (some fl) none =
      if not (has_layer to fl.digest)
      then some (removed_row p.f fl ∷ [], skip_from p)
      else some ([], skip_from p)
  round_at p none (some tl) =
      if not (has_layer from tl.digest)
      then some (added_row p.t tl ∷ [], skip_to p)
      else some ([], skip_to p)
  round_at p (some fl) (some tl) =
      if not (has_layer to fl.digest)
      then some (removed_row p.f fl ∷ [], skip_from p)
      else if not (has_layer from tl.digest)
      then some (added_row p.t tl ∷ [], skip_to p)
      else some (both_shared p fl tl)

  -- One round of the loop; `none` where its condition fails.
  layer_round : Pointers → Option Round
  unfolding round_at
  layer_round p = round_at p (head p.from_rest) (head p.to_rest)

  -- The loop on fuel; `none` means that it ran out.
  walk_layers : ℕ → Pointers → Option (List LayerDiffRow)
  unfolding layer_round after_round
  walk_layers zero p = none
  walk_layers (suc n) p = after_round (walk_layers n) (layer_round p)

adds : LayerChange → Bool
adds LayerChange.added = true
adds LayerChange.removed = false
adds LayerChange.unchanged = false

removes : LayerChange → Bool
removes LayerChange.added = false
removes LayerChange.removed = true
removes LayerChange.unchanged = false

keeps : LayerChange → Bool
keeps LayerChange.added = false
keeps LayerChange.removed = false
keeps LayerChange.unchanged = true

pub is_added : LayerDiffRow → Bool
unfolding adds
is_added r = adds r.change

pub is_removed : LayerDiffRow → Bool
unfolding removes
is_removed r = removes r.change

is_unchanged : LayerDiffRow → Bool
unfolding keeps
is_unchanged r = keeps r.change

-- An unchanged row of a digest is dropped if there was one before.
pub drop_repeated : List Str → List LayerDiffRow → List LayerDiffRow
unfolding is_unchanged
drop_repeated seen [] = []
drop_repeated seen (r ∷ rs) =
    let again = is_unchanged r && includes seen r.layer.digest in
    let rest =
      drop_repeated (if is_unchanged r && not again then r.layer.digest ∷ seen else seen) rs in
    if again then rest else r ∷ rest

total_size : List LayerDiffRow → ℕ
total_size [] = 0
total_size (r ∷ rs) = r.layer.size + total_size rs

pub diff_of : List LayerDiffRow → LayerDiff
unfolding is_added is_removed total_size
diff_of deduped =
    let new = filter is_added deduped in
    let old = filter is_removed deduped in
    record {
      rows = deduped;
      added = length new;
      removed = length old;
      unchanged = length deduped - length new - length old;
      added_bytes = total_size new;
      removed_bytes = total_size old;
    }

compared : Option (List LayerDiffRow) → Option LayerDiff
unfolding drop_repeated diff_of
compared none = none
compared (some rows) = some (diff_of (drop_repeated [] rows))

-- A round moves a pointer on, so there are at most as many as layers.
unfoldable pub diff_layers : List LayerInfo → List LayerInfo → Option LayerDiff
unfolding walk_layers compared
diff_layers from to = compared (
    walk_layers from to (suc (length from + length to))
      (record { f = 0; t = 0; from_rest = from; to_rest = to }))
