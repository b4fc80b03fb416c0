-- ===== src/Compare/Layers/Rounds.antt =====
-- What each round of the walk adds to the rows that follow it.
use chicoree.Prelude.{
  not-true, not-false, ℕ, ◌≡◌, refl, sym, ap, ◌∙◌, true, false, not, ◌||◌, Bool-cases, inl, inr,
  List, [], ◌∷◌, filter, Str, str_eq, str_eq→eq, includes, arith,
}
use chicoree.Compare.Layers.{
  LayerInfo, LayerDiffRow, has_layer, removed_row, added_row, unchanged_row, is_added, adds,
  removes, keeps, is_removed, is_unchanged, drop_repeated,
}
use chicoree.Compare.Layers.Repeats.{
  missing_in, layers_of, stays, each_once, includes-more, includes-head, has_layer-head,
}

module _ (from to : List LayerInfo) where
  -- A shared layer that is still to come has been seen, or is still to come in the old image too.
  abbrev pub Covers : List Str → List LayerInfo → List LayerInfo → Type 0
  Covers seen fs ts =
      (d : Str)
      → has_layer ts d ≡ true
      → has_layer from d ≡ true
      → (has_layer to d ≡ true) × (has_layer fs d || includes seen d ≡ true)

  pub Covers-skip :
      (seen : List Str) (fl : LayerInfo) (fs ts : List LayerInfo)
      → ((d : Str)
          → fl.digest ≡ d
          → has_layer ts d ≡ true
          → has_layer to d ≡ true
          → includes seen d ≡ true)
      → Covers seen (fl ∷ fs) ts
      → Covers seen fs ts
  unfolding has_layer
  Covers-skip seen fl fs ts k c d h s =
      let both = c d h s in
      elim (Bool-cases (str_eq fl.digest d)) [
        | inl e ↦ let i = k d (str_eq→eq fl.digest d e) h both.0 in (both.0, ground (arith, i))
        | inr e ↦ (both.0, ground (arith, e, both.1))
      ]

  Covers-next :
      (seen s : List Str) (fs : List LayerInfo) (tl : LayerInfo) (ts : List LayerInfo)
      → ((d : Str) → includes seen d ≡ true → includes s d ≡ true)
      → Covers seen fs (tl ∷ ts)
      → Covers s fs ts
  unfolding has_layer
  Covers-next seen s fs tl ts k c d h g =
      let both = c d (ground (arith, h)) g in
      elim (Bool-cases (includes seen d)) [
        | inl e ↦ let i = k d e in (both.0, ground (arith, i))
        | inr e ↦ (both.0, ground (arith, e, both.1))
      ]

  -- What the rows of the walk from two pointers on come to.
  pub record Walked (fs ts : List LayerInfo) (rows : List LayerDiffRow) : Type 0 where
    pub old : layers_of (filter is_removed rows) ≡ filter (missing_in to) fs
    pub new : layers_of (filter is_added rows) ≡ filter (missing_in from) ts
    pub kept :
        (seen : List Str)
        → Covers seen fs ts
        → layers_of (filter stays (drop_repeated seen rows)) ≡ each_once from seen ts

  unchanged-kept :
      (i j : ℕ) (tl : LayerInfo) (rest : List LayerDiffRow) (ts : List LayerInfo) (seen : List Str)
      → has_layer from tl.digest ≡ true
      → ((s : List Str)
          → includes s tl.digest ≡ true
          → ((d : Str) → includes seen d ≡ true → includes s d ≡ true)
          → layers_of (filter stays (drop_repeated s rest)) ≡ each_once from s ts)
      → layers_of (filter stays (drop_repeated seen (unchanged_row i j tl ∷ rest)))
        ≡ each_once from seen (tl ∷ ts)
  unfolding drop_repeated each_once is_removed is_unchanged removes keeps
  unchanged-kept i j tl rest ts seen h k = elim (Bool-cases (includes seen tl.digest)) [
    | inl e ↦ let r = k seen e (λ d q. q) in rw (h, e) r
    | inr e ↦
        let r =
          k (tl.digest ∷ seen) (includes-head tl.digest seen)
            (λ d. includes-more tl.digest d seen) in
        rw (h, e) (ap (λ ls. tl ∷ ls) r)
  ]

  -- The rounds of the walk.
  pub Walked-end : Walked [] [] []
  unfolding drop_repeated each_once
  Walked-end = record { old = refl; new = refl; kept = λ seen c. refl }

  pub Walked-removed :
      (f : ℕ) (fl : LayerInfo) (fs ts : List LayerInfo) (rest : List LayerDiffRow)
      → not (has_layer to fl.digest) ≡ true
      → Walked fs ts rest
      → Walked (fl ∷ fs) ts (removed_row f fl ∷ rest)
  unfolding drop_repeated is_removed is_added is_unchanged removes adds keeps
  Walked-removed f fl fs ts rest h w = record {
    old = rw (h) (ap (λ ls. fl ∷ ls) w.old);
    new = w.new;
    kept = λ seen c. w.kept seen (
        Covers-skip seen fl fs ts
          (λ d e i k. let same = ap (has_layer to) e in ground (arith, h, same, k)) c);
  }

  pub Walked-added :
      (t : ℕ) (tl : LayerInfo) (fs ts : List LayerInfo) (rest : List LayerDiffRow)
      → not (has_layer from tl.digest) ≡ true
      → Walked fs ts rest
      → Walked fs (tl ∷ ts) (added_row t tl ∷ rest)
  unfolding drop_repeated is_removed is_added is_unchanged removes adds keeps each_once
  Walked-added t tl fs ts rest h w = record {
    old = w.old;
    new = rw (h) (ap (λ ls. tl ∷ ls) w.new);
    kept = λ seen c.
        let r = w.kept seen (Covers-next seen seen fs tl ts (λ d q. q) c) in
        rw (not-true (has_layer from tl.digest) h) (ap (λ ls. tl ∷ ls) r);
  }

  -- A layer of the old image that is passed over is not lost: the new one has it before.
  pub Walked-passed :
      (fl : LayerInfo) (fs : List LayerInfo) (rest : List LayerDiffRow)
      → not (has_layer to fl.digest) ≡ false
      → Walked fs [] rest
      → Walked (fl ∷ fs) [] rest
  unfolding has_layer
  Walked-passed fl fs rest h w = record {
    old = rw (h) w.old;
    new = w.new;
    kept = λ seen c. w.kept seen (Covers-skip seen fl fs [] (λ d e i k. cc (i)) c);
  }

  -- A shared layer behind the end of the old image has been seen.
  pub Walked-over :
      (tl : LayerInfo) (ts : List LayerInfo) (rest : List LayerDiffRow)
      → not (has_layer from tl.digest) ≡ false
      → Walked [] ts rest
      → Walked [] (tl ∷ ts) rest
  unfolding each_once has_layer
  Walked-over tl ts rest h w = record {
    old = w.old;
    new = rw (h) w.new;
    kept = λ seen c.
        let g = not-false (has_layer from tl.digest) h in
        let both = c tl.digest (has_layer-head tl ts) g in
        let r = w.kept seen (Covers-next seen seen [] tl ts (λ d q. q) c) in rw (g, both.1) r;
  }

  pub Walked-unchanged :
      (i j : ℕ) (tl : LayerInfo) (fs old ts : List LayerInfo) (rest : List LayerDiffRow)
      → has_layer from tl.digest ≡ true
      → filter (missing_in to) old ≡ filter (missing_in to) fs
      → ((seen : List Str)
          → includes seen tl.digest ≡ true
          → Covers seen old ts
          → Covers seen fs ts)
      → Walked fs ts rest
      → Walked old (tl ∷ ts) (unchanged_row i j tl ∷ rest)
  unfolding is_removed is_added removes adds
  Walked-unchanged i j tl fs old ts rest h e k w = record {
    old = w.old ∙ sym e;
    new = rw (h) w.new;
    kept = λ seen c.
        unchanged-kept i j tl rest ts seen h
          (λ s m more. w.kept s (k s m (Covers-next seen s old tl ts more c)));
  }
