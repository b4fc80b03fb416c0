-- ===== src/ScanTasks/Reports/Refused.antt =====
-- Reports on tasks that the worker does not hold, or no longer.
use chicoree.Prelude.{
  ℕ, ◌≡◌, refl, subst, find-some, str_eq→eq, true, false, if-cases, Option, none, some, find, List,
  [], ◌∷◌, All, Str, str_eq, &&-left, arith, ◌&&◌, if◌then◌else◌, leb,
}
use chicoree.ScanTasks.{Task, Tables, is_leased, update_task, max_attempts}
use chicoree.ScanTasks.Reports.{
  holds, is_leased_to, leased_task, completed, given_up, put_back, cut, complete_found,
  complete_scan_task, fail_found, fail_scan_task,
}

-- No row of the id is leased to the worker.
abbrev pub IsNotHeld : Str → Str → List Task → Type 0
IsNotHeld id name = All (λ (t : Task). is_leased_to id name t ≡ false)

IsNotHeld-find :
    (id name : Str) (ts : List Task) → IsNotHeld id name ts → find (is_leased_to id name) ts ≡ none
IsNotHeld-find id name [] h = refl
IsNotHeld-find id name (t ∷ ts) h = ground (arith, h.0, IsNotHeld-find id name ts h.1)

pub unheld-refused :
    (id name error : Str) (now : ℕ) (db : Tables)
    → IsNotHeld id name db.tasks
    → (complete_scan_task id name now db ≡ (false, db))
      × (fail_scan_task id name error now db ≡ (false, db))
unfolding complete_scan_task fail_scan_task complete_found fail_found
unheld-refused id name error now db h = rw (IsNotHeld-find id name db.tasks h) (refl, refl)

update-IsNotHeld :
    (f : Task → Task) (id other : Str) (ts : List Task)
    → ((t : Task) → is_leased (f t).status ≡ false)
    → IsNotHeld id other (update_task id f ts)
unfolding update_task
update-IsNotHeld f id other [] h = tt
update-IsNotHeld f id other (t ∷ ts) h = ground (arith, h t, update-IsNotHeld f id other ts h)

-- The row that was found has the id that was asked for.
found-id : (id name : Str) (db : Tables) (t : Task) → leased_task id name db ≡ some t → t.id ≡ id
found-id id name db t e = str_eq→eq t.id id (
    &&-left (str_eq t.id id) (is_leased t.status && holds name t.leased_by)
      (find-some (is_leased_to id name) db.tasks e))

complete_found-IsNotHeld :
    (id name other : Str) (now : ℕ) (db : Tables) (found : Option Task)
    → leased_task id name db ≡ found
    → (complete_found name now db found).0 ≡ true
    → IsNotHeld id other (complete_found name now db found).1.tasks
unfolding complete_found
complete_found-IsNotHeld id name other now db none e h = cc (h)
complete_found-IsNotHeld id name other now db (some t) e h =
    subst (λ i. IsNotHeld i other (update_task t.id (completed now) db.tasks))
      (found-id id name db t e) (update-IsNotHeld (completed now) t.id other db.tasks (λ u. refl))

complete-IsNotHeld :
    (id name other : Str) (now : ℕ) (db : Tables)
    → (complete_scan_task id name now db).0 ≡ true
    → IsNotHeld id other (complete_scan_task id name now db).1.tasks
unfolding complete_scan_task
complete-IsNotHeld id name other now db =
    complete_found-IsNotHeld id name other now db (leased_task id name db) refl

fail_found-IsNotHeld :
    (id name other error : Str) (now : ℕ) (db : Tables) (found : Option Task)
    → leased_task id name db ≡ found
    → (fail_found name error now db found).0 ≡ true
    → IsNotHeld id other (fail_found name error now db found).1.tasks
unfolding fail_found
fail_found-IsNotHeld id name other error now db none e h = cc (h)
fail_found-IsNotHeld id name other error now db (some t) e h =
    let f =
      if leb max_attempts t.attempts
      then given_up (cut error) now
      else put_back (cut error) t.attempts now in
    subst (λ i. IsNotHeld i other (update_task t.id f db.tasks)) (found-id id name db t e)
      (update-IsNotHeld f t.id other db.tasks (λ u.
        if-cases (λ (g : Task → Task). is_leased (g u).status ≡ false) (leb max_attempts t.attempts)
          (λ p. refl) (λ p. refl)))

fail-IsNotHeld :
    (id name other error : Str) (now : ℕ) (db : Tables)
    → (fail_scan_task id name error now db).0 ≡ true
    → IsNotHeld id other (fail_scan_task id name error now db).1.tasks
unfolding fail_scan_task
fail-IsNotHeld id name other error now db =
    fail_found-IsNotHeld id name other error now db (leased_task id name db) refl

-- After a result has been accepted for an id, a second result or a failure for it is refused,
-- whichever worker sends it, and changes nothing.
pub complete_scan_task-once :
    (id name other error : Str) (now later : ℕ) (db : Tables)
    → (complete_scan_task id name now db).0 ≡ true
    → let after = (complete_scan_task id name now db).1 in
      (complete_scan_task id other later after ≡ (false, after))
      × (fail_scan_task id other error later after ≡ (false, after))
complete_scan_task-once id name other error now later db h =
    unheld-refused id other error later (complete_scan_task id name now db).1
      (complete-IsNotHeld id name other now db h)

-- The same after a failure.
pub fail_scan_task-once :
    (id name other error message : Str) (now later : ℕ) (db : Tables)
    → (fail_scan_task id name message now db).0 ≡ true
    → let after = (fail_scan_task id name message now db).1 in
      (complete_scan_task id other later after ≡ (false, after))
      × (fail_scan_task id other error later after ≡ (false, after))
fail_scan_task-once id name other error message now later db h =
    unheld-refused id other error later (fail_scan_task id name message now db).1
      (fail-IsNotHeld id name other message now db h)
