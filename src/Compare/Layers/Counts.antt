-- ===== src/Compare/Layers/Counts.antt =====
-- The figures of a comparison of layers.
use chicoree.Prelude.{
  ℕ, suc, ◌+◌, ◌≤◌, ◌≡◌, refl, sym, ap, ◌∙◌, false, ◌&&◌, List, [], ◌∷◌, filter, length, arith,
}
use chicoree.Compare.Layers.{
  LayerInfo, LayerChange, LayerDiffRow, LayerDiff, is_added, adds, is_removed, removes, total_size,
  diff_of,
}
use chicoree.Compare.Layers.Repeats.{missing_in, layers_of}

-- The sizes of layers, added up.
pub bytes : List LayerInfo → ℕ
bytes [] = 0
bytes (l ∷ ls) = l.size + bytes ls

bytes-layers_of : (rows : List LayerDiffRow) → total_size rows ≡ bytes (layers_of rows)
unfolding total_size bytes
bytes-layers_of [] = refl
bytes-layers_of (r ∷ rs) = ap (λ n. r.layer.size + n) (bytes-layers_of rs)

length-layers_of : (rows : List LayerDiffRow) → length (layers_of rows) ≡ length rows
length-layers_of [] = refl
length-layers_of (r ∷ rs) = ap suc (length-layers_of rs)

adds-removes : (c : LayerChange) → adds c && removes c ≡ false
unfolding adds removes
adds-removes LayerChange.added = refl
adds-removes LayerChange.removed = refl
adds-removes LayerChange.unchanged = refl

length-kinds :
    (rows : List LayerDiffRow)
    → length (filter is_added rows) + length (filter is_removed rows) ≤ length rows
unfolding is_added is_removed
length-kinds [] = omega arith
length-kinds (r ∷ rs) = ground (arith, length-kinds rs, adds-removes r.change)

-- The figures are those of the rows.
pub record Adds (from to : List LayerInfo) (d : LayerDiff) : Type 0 where
  pub new_layers : d.added ≡ length (filter (missing_in from) to)
  pub old_layers : d.removed ≡ length (filter (missing_in to) from)
  pub new_bytes : d.added_bytes ≡ bytes (filter (missing_in from) to)
  pub old_bytes : d.removed_bytes ≡ bytes (filter (missing_in to) from)
  pub all_rows : d.added + d.removed + d.unchanged ≡ length d.rows

pub diff_of-Adds :
    (from to : List LayerInfo) (rows : List LayerDiffRow)
    → layers_of (filter is_removed rows) ≡ filter (missing_in to) from
    → layers_of (filter is_added rows) ≡ filter (missing_in from) to
    → Adds from to (diff_of rows)
unfolding diff_of
diff_of-Adds from to rows o n = record {
  new_layers = sym (length-layers_of (filter is_added rows)) ∙ ap length n;
  old_layers = sym (length-layers_of (filter is_removed rows)) ∙ ap length o;
  new_bytes = bytes-layers_of (filter is_added rows) ∙ ap bytes n;
  old_bytes = bytes-layers_of (filter is_removed rows) ∙ ap bytes o;
  all_rows = omega (arith, length-kinds rows);
}
