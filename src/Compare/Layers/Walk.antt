-- ===== src/Compare/Layers/Walk.antt =====
-- The walk over the layers of two images ends, and its rows are the layers that a description by
-- sets gives.
use chicoree.Prelude.{
  not-false, ℕ, zero, suc, ◌+◌, ◌<◌, ◌≡◌, refl, sym, ap, ◌∙◌, subst, true, not, if-cases, Option,
  some, get_or, List, [], ◌∷◌, ◌++◌, filter, length, str_eq, str_eq→eq, includes, arith,
}
use chicoree.Compare.Layers.{
  LayerInfo, LayerDiffRow, LayerDiff, has_layer, layer_index, Pointers, removed_row, added_row,
  unchanged_row, both_shared, round_at, layer_round, with_rows, after_round, walk_layers, is_added,
  is_removed, drop_repeated, diff_of, compared, diff_layers,
}
use chicoree.Compare.Layers.Repeats.{
  missing_in, layers_of, stays, each_once, removed-drop_repeated, added-drop_repeated, at,
}
use chicoree.Compare.Layers.Rounds.{
  Covers, Covers-skip, Walked, Walked-end, Walked-removed, Walked-added, Walked-passed, Walked-over,
  Walked-unchanged,
}
use chicoree.Compare.Layers.Counts.{Adds, diff_of-Adds}

module _ (from to : List LayerInfo) where
  abbrev Ends : Option (List LayerDiffRow) → List LayerInfo → List LayerInfo → Type 0
  Ends o fs ts = (rows : List LayerDiffRow) × (o ≡ some rows) × Walked from to fs ts rows

  Ends-with_rows :
      (rows : List LayerDiffRow) (o : Option (List LayerDiffRow)) (fs ts fs' ts' : List LayerInfo)
      → ((rest : List LayerDiffRow)
          → Walked from to fs' ts' rest
          → Walked from to fs ts (rows ++ rest))
      → Ends o fs' ts'
      → Ends (with_rows rows o) fs ts
  unfolding with_rows
  Ends-with_rows rows o fs ts fs' ts' k e = (rows ++ e.0, rw (e.1) refl, k e.0 e.2)

  module _ (again : Pointers → Option (List LayerDiffRow)) where
    -- Both pointers are at a shared layer.
    both_shared-Ends :
        (f t : ℕ) (fl tl : LayerInfo) (fs ts : List LayerInfo)
        → has_layer to fl.digest ≡ true
        → has_layer from tl.digest ≡ true
        → ((g u : ℕ) (fs' ts' : List LayerInfo)
            → length fs' + length ts' < length (fl ∷ fs) + length (tl ∷ ts)
            → Ends (again (at g u fs' ts')) fs' ts')
        → Ends
            (after_round again (some (both_shared from to (at f t (fl ∷ fs) (tl ∷ ts)) fl tl)))
            (fl ∷ fs)
            (tl ∷ ts)
    unfolding both_shared after_round
    both_shared-Ends f t fl tl fs ts h k ih =
        if-cases (λ r. Ends (after_round again (some r)) (fl ∷ fs) (tl ∷ ts))
          (str_eq fl.digest tl.digest)
          (λ e.
            Ends-with_rows (unchanged_row f t tl ∷ []) (again (at (f + 1) (t + 1) fs ts)) (fl ∷ fs)
              (tl ∷ ts) fs ts
              (λ rest.
                Walked-unchanged from to f t tl fs (fl ∷ fs) ts rest k (rw (h) refl) (λ seen m.
                  Covers-skip from to seen fl fs ts (λ d same i j.
                    subst (λ x. includes seen x ≡ true)
                      (sym (str_eq→eq fl.digest tl.digest e) ∙ same) m)))
              (ih (f + 1) (t + 1) fs ts (omega arith)))
          (λ e.
            if-cases
              (λ q.
                Ends
                  (after_round again
                    (some (unchanged_row (get_or (layer_index 0 from tl.digest) 0) t tl ∷ [], q)))
                  (fl ∷ fs) (tl ∷ ts))
              (not (has_layer ts fl.digest))
              (λ i.
                Ends-with_rows (unchanged_row (get_or (layer_index 0 from tl.digest) 0) t tl ∷ [])
                  (again (at (f + 1) (t + 1) fs ts)) (fl ∷ fs) (tl ∷ ts) fs ts
                  (λ rest.
                    Walked-unchanged from to (get_or (layer_index 0 from tl.digest) 0) t tl fs
                      (fl ∷ fs) ts rest k (rw (h) refl)
                      (λ seen m.
                        Covers-skip from to seen fl fs ts (λ d same j g.
                          let x = ap (has_layer ts) same in ground (arith, i, x, j))))
                  (ih (f + 1) (t + 1) fs ts (omega arith)))
              (λ i.
                Ends-with_rows (unchanged_row (get_or (layer_index 0 from tl.digest) 0) t tl ∷ [])
                  (again (at f (t + 1) (fl ∷ fs) ts)) (fl ∷ fs) (tl ∷ ts) (fl ∷ fs) ts
                  (λ rest.
                    Walked-unchanged from to (get_or (layer_index 0 from tl.digest) 0) t tl
                      (fl ∷ fs) (fl ∷ fs) ts rest k refl (λ seen m c. c))
                  (ih f (t + 1) (fl ∷ fs) ts (omega arith))))

    round-Ends :
        (f t : ℕ) (fs ts : List LayerInfo)
        → ((g u : ℕ) (fs' ts' : List LayerInfo)
            → length fs' + length ts' < length fs + length ts
            → Ends (again (at g u fs' ts')) fs' ts')
        → Ends (after_round again (layer_round from to (at f t fs ts))) fs ts
    unfolding layer_round round_at after_round
    round-Ends f t [] [] ih = ([], refl, Walked-end from to)
    round-Ends f t (fl ∷ fs) [] ih =
        if-cases (λ r. Ends (after_round again r) (fl ∷ fs) []) (not (has_layer to fl.digest))
          (λ h.
            Ends-with_rows (removed_row f fl ∷ []) (again (at (f + 1) t fs [])) (fl ∷ fs) [] fs []
              (λ rest. Walked-removed from to f fl fs [] rest h) (ih (f + 1) t fs [] (omega arith)))
          (λ h.
            Ends-with_rows [] (again (at (f + 1) t fs [])) (fl ∷ fs) [] fs []
              (λ rest. Walked-passed from to fl fs rest h) (ih (f + 1) t fs [] (omega arith)))
    round-Ends f t [] (tl ∷ ts) ih =
        if-cases (λ r. Ends (after_round again r) [] (tl ∷ ts)) (not (has_layer from tl.digest))
          (λ h.
            Ends-with_rows (added_row t tl ∷ []) (again (at f (t + 1) [] ts)) [] (tl ∷ ts) [] ts
              (λ rest. Walked-added from to t tl [] ts rest h) (ih f (t + 1) [] ts (omega arith)))
          (λ h.
            Ends-with_rows [] (again (at f (t + 1) [] ts)) [] (tl ∷ ts) [] ts
              (λ rest. Walked-over from to tl ts rest h) (ih f (t + 1) [] ts (omega arith)))
    round-Ends f t (fl ∷ fs) (tl ∷ ts) ih =
        if-cases (λ r. Ends (after_round again r) (fl ∷ fs) (tl ∷ ts))
          (not (has_layer to fl.digest))
          (λ h.
            Ends-with_rows (removed_row f fl ∷ []) (again (at (f + 1) t fs (tl ∷ ts))) (fl ∷ fs)
              (tl ∷ ts) fs (tl ∷ ts) (λ rest. Walked-removed from to f fl fs (tl ∷ ts) rest h)
              (ih (f + 1) t fs (tl ∷ ts) (omega arith)))
          (λ h.
            if-cases (λ r. Ends (after_round again r) (fl ∷ fs) (tl ∷ ts))
              (not (has_layer from tl.digest))
              (λ k.
                Ends-with_rows (added_row t tl ∷ []) (again (at f (t + 1) (fl ∷ fs) ts)) (fl ∷ fs)
                  (tl ∷ ts) (fl ∷ fs) ts (λ rest. Walked-added from to t tl (fl ∷ fs) ts rest k)
                  (ih f (t + 1) (fl ∷ fs) ts (omega arith)))
              (λ k.
                both_shared-Ends f t fl tl fs ts (not-false (has_layer to fl.digest) h)
                  (not-false (has_layer from tl.digest) k) ih))

  walk_layers-Ends :
      (n f t : ℕ) (fs ts : List LayerInfo)
      → length fs + length ts < n
      → Ends (walk_layers from to n (at f t fs ts)) fs ts
  unfolding walk_layers
  walk_layers-Ends zero f t fs ts h = absurd (omega (arith, h))
  walk_layers-Ends (suc n) f t fs ts h =
      round-Ends (walk_layers from to n) f t fs ts
        (λ g u fs' ts' less. walk_layers-Ends n g u fs' ts' (omega (arith, h, less)))

  Covers-start : Covers from to [] from to
  unfolding includes
  Covers-start d h k = (h, ground (arith, k))

  compared-sides :
      (o : Option (List LayerDiffRow))
      → Ends o from to
      → (d : LayerDiff) × (compared o ≡ some d)
        × (layers_of (filter is_removed d.rows) ≡ filter (missing_in to) from)
        × (layers_of (filter is_added d.rows) ≡ filter (missing_in from) to)
        × (layers_of (filter stays d.rows) ≡ each_once from [] to)
        × Adds from to d
  unfolding compared diff_of
  compared-sides o e =
      let old = ap layers_of (removed-drop_repeated [] e.0) ∙ e.2.old in
      let new = ap layers_of (added-drop_repeated [] e.0) ∙ e.2.new in
      let deduped = drop_repeated [] e.0 in
      (
        diff_of deduped,
        rw (e.1) refl,
        old,
        new,
        e.2.kept [] Covers-start,
        diff_of-Adds from to deduped old new,
      )

  rows-sides :
      (d : LayerDiff) × (diff_layers from to ≡ some d)
      × (layers_of (filter is_removed d.rows) ≡ filter (missing_in to) from)
      × (layers_of (filter is_added d.rows) ≡ filter (missing_in from) to)
      × (layers_of (filter stays d.rows) ≡ each_once from [] to)
      × Adds from to d
  unfolding diff_layers
  rows-sides =
      compared-sides (walk_layers from to (suc (length from + length to)) (at 0 0 from to))
        (walk_layers-Ends (suc (length from + length to)) 0 0 from to (omega arith))

  -- The walk over the layers of two images ends. The removed rows are the layers that the new image
  -- lacks, the added rows those that the old image lacks, each in its image's order, and the rows
  -- of the new image are its layers in their order, a shared layer once.
  pub diff_layers-sides :
      (d : LayerDiff) × (diff_layers from to ≡ some d)
      × (layers_of (filter is_removed d.rows) ≡ filter (missing_in to) from)
      × (layers_of (filter is_added d.rows) ≡ filter (missing_in from) to)
      × (layers_of (filter stays d.rows) ≡ each_once from [] to)
  diff_layers-sides = (rows-sides.0, rows-sides.1, rows-sides.2, rows-sides.3, rows-sides.4)

  -- The figures of a comparison are those of the layers: numbers and bytes added and removed are
  -- those of the layers that the other image lacks, and the three numbers add up to the rows.
  pub diff_layers-Adds : (d : LayerDiff) × (diff_layers from to ≡ some d) × Adds from to d
  diff_layers-Adds = (rows-sides.0, rows-sides.1, rows-sides.5)
