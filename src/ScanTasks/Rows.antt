-- ===== src/ScanTasks/Rows.antt =====
-- Rows of the queue by their ids, and the row that a claim chooses.
use mathlib.Core.List.{Memᴰ}
use chicoree.Prelude.{
  ℕ, ◌≡◌, ◌⊎◌, ◌≢◌, sym, ap, ◌∙◌, subst, Bool, true, false, inl, inr, none, some, List, [], ◌∷◌,
  All, map, filter, if-cases, zero, suc, take, All-map, All-filter, All-take, All-members,
  filter-passes, leb, &&-left, Str, str_eq, str_eq→eq, str_eq_refl, arith,
}
use Prim.Native.Nat.{Ordering}
use chicoree.Prelude.Sorting.{is_gt, insert, sort, All-insert, All-sort}
use chicoree.ScanTasks.Reports.{due_inline, created_first, is_waiting}
use chicoree.ScanTasks.{is_queued, Task, update_task, is_due, older, oldest_due}

-- The row chosen is the first one, which is due, or the one that is chosen from the others.
oldest_due-cases :
    (now : ℕ) {t : Task} (u : Task) (us : List Task)
    → oldest_due now (u ∷ us) ≡ some t
    → ((is_due now u ≡ true) × (u ≡ t)) ⊎ (oldest_due now us ≡ some t)
unfolding oldest_due older
oldest_due-cases now {t} u us e = grind arith

pub oldest_due-Memᴰ : (now : ℕ) {t : Task} (ts : List Task) → oldest_due now ts ≡ some t → Memᴰ t ts
unfolding oldest_due
oldest_due-Memᴰ now [] e = cc (e)
oldest_due-Memᴰ now (u ∷ us) e = elim (oldest_due-cases now u us e) [
  | inl h ↦ Memᴰ.head (sym h.1)
  | inr h ↦ Memᴰ.tail (oldest_due-Memᴰ now us h)
]

pub oldest_due-due :
    (now : ℕ) {t : Task} (ts : List Task) → oldest_due now ts ≡ some t → is_due now t ≡ true
unfolding oldest_due
oldest_due-due now [] e = cc (e)
oldest_due-due now (u ∷ us) e = elim (oldest_due-cases now u us e) [
  | inl h ↦ ap (is_due now) (sym h.1) ∙ h.0
  | inr h ↦ oldest_due-due now us h
]

pub oldest_due-none :
    (now : ℕ) (ts : List Task)
    → oldest_due now ts ≡ none
    → All (λ (t : Task). is_due now t ≡ false) ts
unfolding oldest_due
oldest_due-none now [] e = tt
oldest_due-none now (t ∷ ts) e = ground (arith, oldest_due-none now ts)

-- Rows of other ids, and a table in which no two rows have the same id.
abbrev pub Lacks : Str → List Task → Type 0
Lacks id = All (λ (u : Task). u.id ≢ id)

abbrev pub Distinct : List Task → Type 0
Distinct [] = Unit
Distinct (t ∷ ts) = Lacks t.id ts × Distinct ts

pub differs_from_itself : {s t : Str} → s ≡ t → str_eq s t ≢ false
differs_from_itself {s} {t} e h = let same = str_eq_refl t in ground (arith, e, h, same)

module _ (f : Task → Task) where
  pub update-Memᴰ : {t : Task} (ts : List Task) → Memᴰ t ts → Memᴰ (f t) (update_task t.id f ts)
  unfolding update_task
  update-Memᴰ [] m = elim m [ ]
  update-Memᴰ {t} (u ∷ us) (Memᴰ.head e) =
      if-cases (Memᴰ (f t)) (str_eq u.id t.id) (λ h. Memᴰ.head (ap f e))
        (λ h. absurd (differs_from_itself (ap (λ (x : Task). x.id) (sym e)) h))
  update-Memᴰ {t} (u ∷ us) (Memᴰ.tail m) =
      let rest = update-Memᴰ us m in
      if-cases (Memᴰ (f t)) (str_eq u.id t.id) (λ h. Memᴰ.tail rest) (λ h. Memᴰ.tail rest)

  pub update-Memᴰ-other :
      (id : Str) {t : Task} (ts : List Task) → t.id ≢ id → Memᴰ t ts → Memᴰ t (update_task id f ts)
  unfolding update_task
  update-Memᴰ-other id [] n m = elim m [ ]
  update-Memᴰ-other id {t} (u ∷ us) n (Memᴰ.head e) =
      if-cases (Memᴰ t) (str_eq u.id id)
        (λ h. absurd (n (ap (λ (x : Task). x.id) e ∙ str_eq→eq u.id id h))) (λ h. Memᴰ.head e)
  update-Memᴰ-other id {t} (u ∷ us) n (Memᴰ.tail m) =
      let rest = update-Memᴰ-other id us n m in
      if-cases (Memᴰ t) (str_eq u.id id) (λ h. Memᴰ.tail rest) (λ h. Memᴰ.tail rest)

  pub update-All :
      (P : Task → Type 0) (id : Str) (ts : List Task)
      → ((t : Task) → P t → P (f t))
      → All P ts
      → All P (update_task id f ts)
  unfolding update_task
  update-All P id [] k h = tt
  update-All P id (t ∷ ts) k h = ground (arith, k t h.0, update-All P id ts k h.1)

  pub update-Distinct :
      (id : Str) (ts : List Task)
      → ((t : Task) → (f t).id ≡ t.id)
      → Distinct ts
      → Distinct (update_task id f ts)
  unfolding update_task
  update-Distinct id [] k h = tt
  update-Distinct id (t ∷ ts) k h =
      let l = update-All (λ (u : Task). u.id ≢ t.id) id ts (λ u n e. n (sym (k u) ∙ e)) h.0 in
      let rest = update-Distinct id ts k h.1 in
      if-cases Distinct (str_eq t.id id)
        (λ e. (subst (λ i. Lacks i (update_task id f ts)) (sym (k t)) l, rest)) (λ e. (l, rest))

module _ (g : Task → Task) (keeps : (t : Task) → (g t).id ≡ t.id) where
  map-Lacks : (id : Str) (ts : List Task) → Lacks id ts → Lacks id (map g ts)
  map-Lacks id [] h = tt
  map-Lacks id (t ∷ ts) h = (λ e. h.0 (sym (keeps t) ∙ e), map-Lacks id ts h.1)

  pub map-Distinct : (ts : List Task) → Distinct ts → Distinct (map g ts)
  map-Distinct [] h = tt
  map-Distinct (t ∷ ts) h =
      (subst (λ i. Lacks i (map g ts)) (sym (keeps t)) (map-Lacks t.id ts h.0), map-Distinct ts h.1)

pub filter-Distinct : (p : Task → Bool) (ts : List Task) → Distinct ts → Distinct (filter p ts)
filter-Distinct p [] h = tt
filter-Distinct p (t ∷ ts) h =
    let l = All-filter (λ (u : Task). u.id ≢ t.id) p ts h.0 in
    let rest = filter-Distinct p ts h.1 in if-cases Distinct (p t) (λ e. (l, rest)) (λ e. rest)

take-Distinct : (n : ℕ) (ts : List Task) → Distinct ts → Distinct (take n ts)
take-Distinct zero ts h = tt
take-Distinct (suc n) [] h = tt
take-Distinct (suc n) (t ∷ ts) h =
    (All-take (λ (u : Task). u.id ≢ t.id) n ts h.0, take-Distinct n ts h.1)

module _ (cmp : Task → Task → Ordering) where
  insert-Distinct :
      (t : Task) (ts : List Task) → Lacks t.id ts → Distinct ts → Distinct (insert cmp t ts)
  unfolding insert
  insert-Distinct t [] l d = (tt, tt)
  insert-Distinct t (u ∷ us) l d =
      let rest = insert-Distinct t us l.1 d.1 in
      let apart = All-insert cmp (λ (x : Task). x.id ≢ u.id) t us (λ e. l.0 (sym e)) d.0 in
      if-cases Distinct (is_gt (cmp t u)) (λ h. (apart, rest)) (λ h. (l, d))

  sort-Distinct : (ts : List Task) → Distinct ts → Distinct (sort cmp ts)
  unfolding sort
  sort-Distinct [] d = tt
  sort-Distinct (t ∷ ts) d =
      insert-Distinct t (sort cmp ts) (All-sort cmp (λ (u : Task). u.id ≢ t.id) ts d.0)
        (sort-Distinct ts d.1)

-- The rows that a tick runs itself are rows of the table that wait, each of them once.
pub due_inline-Distinct : (now : ℕ) (ts : List Task) → Distinct ts → Distinct (due_inline now ts)
due_inline-Distinct now ts d = take-Distinct 3 (sort created_first (filter (is_waiting now) ts)) (
    sort-Distinct created_first (filter (is_waiting now) ts)
      (filter-Distinct (is_waiting now) ts d))

pub due_inline-All :
    (now : ℕ) (ts : List Task)
    → All (λ t. Memᴰ t ts × (is_queued t.status ≡ true)) (due_inline now ts)
due_inline-All now ts =
    let P = λ (t : Task). Memᴰ t ts × (is_queued t.status ≡ true) in
    All-take P 3 (sort created_first (filter (is_waiting now) ts)) (
      All-sort created_first P (filter (is_waiting now) ts) (
        All-map (λ (t : Task). Memᴰ t ts × (is_waiting now t ≡ true)) P (filter (is_waiting now) ts)
          (λ t h. (h.0, &&-left (is_queued t.status) (leb t.available_at now) h.1))
          (filter-passes (λ (t : Task). Memᴰ t ts) (is_waiting now) ts (All-members ts))))
