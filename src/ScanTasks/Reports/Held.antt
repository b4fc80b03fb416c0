-- ===== src/ScanTasks/Reports/Held.antt =====
-- Whose reports on a task are accepted.
use mathlib.Core.List.{Memᴰ}
use chicoree.Prelude.{
  ℕ, ◌≡◌, ◌≢◌, ◌⊎◌, inl, inr, refl, sym, ap, ◌∙◌, true, false, ◌&&◌, Bool-cases, Option, none, some,
  Option-cases, List, All, All-map, find-none, find-some, find-Memᴰ, Str, str_eq, str_eq→eq,
  str_eq_refl, true-false, &&-left, &&-right,
}
use chicoree.ScanTasks.{Task, TaskStatus, queued, leased, done, failed, Tables, is_leased}
use chicoree.ScanTasks.Reports.{
  holds, is_leased_to, leased_task, complete_found, complete_scan_task, fail_found, fail_scan_task,
}
use chicoree.ScanTasks.Reports.Refused.{unheld-refused}

-- A stored row of the id is leased, by the worker.
pub record IsHeld (id name : Str) (tasks : List Task) : Type 0 where
  pub row : Task
  pub stored : Memᴰ row tasks
  pub same_id : row.id ≡ id
  pub out : row.status ≡ leased
  pub by_worker : row.leased_by ≡ some name

-- A row of another id, one that is not leased, or one of another worker.
abbrev pub IsForeign : Str → Str → Task → Type 0
IsForeign id name t = (t.id ≢ id) ⊎ ((t.status ≢ leased) ⊎ (t.leased_by ≢ some name))

is_leased-leased : (s : TaskStatus) → is_leased s ≡ true → s ≡ leased
is_leased-leased queued h = cc (h)
is_leased-leased leased h = refl
is_leased-leased done h = cc (h)
is_leased-leased failed h = cc (h)

holds-some : (name : Str) (by : Option Str) → holds name by ≡ true → by ≡ some name
holds-some name none h = cc (h)
holds-some name (some b) h = ap some (str_eq→eq b name h)

leased_to-IsForeign :
    (id name : Str) (t : Task) → is_leased_to id name t ≡ false → IsForeign id name t
leased_to-IsForeign id name t h = elim (Bool-cases (str_eq t.id id)) [
  | inr a ↦ inl (λ e. true-false (sym (str_eq_refl id) ∙ sym (ap (λ i. str_eq i id) e) ∙ a))
  | inl a ↦ elim (Bool-cases (is_leased t.status)) [
    | inr b ↦ inr (inl (λ e. true-false (sym (ap is_leased e) ∙ b)))
    | inl b ↦ inr (
        inr (λ e. true-false (
          sym (ap (holds name) e ∙ str_eq_refl name)
          ∙ sym (
              ap (λ x. x && (is_leased t.status && holds name t.leased_by)) a
              ∙ ap (λ x. x && holds name t.leased_by) b)
          ∙ h)))
  ]
]

module _ (id name error : Str) (now : ℕ) (db : Tables) where
  accepted :
      (t : Task)
      → leased_task id name db ≡ some t
      → ((complete_scan_task id name now db).0 ≡ true)
        × ((fail_scan_task id name error now db).0 ≡ true)
  unfolding complete_scan_task fail_scan_task complete_found fail_found
  accepted t e = rw e (refl, refl)

  found-IsHeld : (t : Task) → leased_task id name db ≡ some t → IsHeld id name db.tasks
  found-IsHeld t e =
      let p = find-some (is_leased_to id name) db.tasks e in
      let rest = &&-right (str_eq t.id id) (is_leased t.status && holds name t.leased_by) p in
      record {
        row = t;
        stored = find-Memᴰ (is_leased_to id name) db.tasks e;
        same_id =
            str_eq→eq t.id id
              (&&-left (str_eq t.id id) (is_leased t.status && holds name t.leased_by) p);
        out =
            is_leased-leased t.status (&&-left (is_leased t.status) (holds name t.leased_by) rest);
        by_worker =
            holds-some name t.leased_by
              (&&-right (is_leased t.status) (holds name t.leased_by) rest);
      }

  -- Either a stored task of the id is leased, by the worker, and its result and its failure are
  -- accepted; or every stored task has another id, is not leased, or is another worker's or
  -- nobody's, and both are refused and change nothing.
  pub reports-IsHeld :
      (IsHeld id name db.tasks
        × ((complete_scan_task id name now db).0 ≡ true)
        × ((fail_scan_task id name error now db).0 ≡ true))
      ⊎ (All (IsForeign id name) db.tasks
          × (complete_scan_task id name now db ≡ (false, db))
          × (fail_scan_task id name error now db ≡ (false, db)))
  reports-IsHeld = elim (Option-cases (leased_task id name db)) [
    | inl none_found ↦
        let missed = find-none (is_leased_to id name) db.tasks none_found in
        let refused = unheld-refused id name error now db missed in
        inr (
          All-map (λ (t : Task). is_leased_to id name t ≡ false) (IsForeign id name) db.tasks
              (leased_to-IsForeign id name) missed,
          refused.0,
          refused.1,
        )
    | inr (t, e) ↦ let both = accepted t e in inl (found-IsHeld t e, both.0, both.1)
  ]
