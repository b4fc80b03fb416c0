-- ===== src/ScanTasks/Claiming.antt =====
-- A claim comes to an end: each round but the last ends a row that was due.
use chicoree.Prelude.{
  ℕ, zero, suc, ◌≤◌, ◌<◌, ◌≡◌, refl, sym, ap, ◌∙◌, subst, if-cases, ◌≢◌, true, false, Option, none,
  some, List, [], ◌∷◌, All, filter, length, length-filter-le, Str, str_eq, str_eq_refl, arith,
}
use chicoree.ScanTasks.{
  Task, Tables, update_task, is_due, oldest_due, claimed, abandoned, handed_out, claim_found, claim,
  claim_scan_task, Claimed,
}
use mathlib.Core.List.{Memᴰ}
use chicoree.ScanTasks.Rows.{oldest_due-none, oldest_due-Memᴰ, oldest_due-due, update-Memᴰ}
use chicoree.ScanTasks.Moves.{asks, Change, stay, act, follow, claims, abandons}
use chicoree.Scans.{Target, scan_target}

true-false : true ≢ false
true-false e = cc (e)

-- The rows that a claim could take.
due : ℕ → List Task → List Task
unfolding is_due
due now = filter (is_due now)

claimed-not_due : (name : Str) (now : ℕ) (t : Task) → is_due now (claimed name now t) ≡ false
unfolding is_due
claimed-not_due name now t = ground arith

abandoned-not_due : (now : ℕ) (t : Task) → is_due now (abandoned now t) ≡ false
unfolding is_due
abandoned-not_due now t = ground arith

length-due-update :
    (id : Str) (f : Task → Task) (now : ℕ) (ts : List Task)
    → ((t : Task) → is_due now (f t) ≡ false)
    → length (due now (update_task id f ts)) ≤ length (due now ts)
unfolding due update_task
length-due-update id f now [] h = omega arith
length-due-update id f now (t ∷ ts) h = ground (arith, h t, length-due-update id f now ts h)

length-due-member :
    (f : Task → Task) (now : ℕ) {t : Task} (ts : List Task)
    → ((u : Task) → is_due now (f u) ≡ false)
    → is_due now t ≡ true
    → Memᴰ t ts
    → length (due now (update_task t.id f ts)) < length (due now ts)
unfolding due update_task
length-due-member f now [] h d m = elim m [ ]
length-due-member f now {t} (u ∷ us) h d (Memᴰ.head e) =
    ground (arith, h u, e, str_eq_refl t.id, length-due-update t.id f now us h)
length-due-member f now {t} (u ∷ us) h d (Memᴰ.tail m) =
    ground (arith, h u, length-due-member f now us h d m, length-due-update t.id f now us h)

-- An answer that is there.
abbrev pub Returns : Option Claimed → Type 0
Returns o = (c : Claimed) × (o ≡ some c)

module _ (target : (path digest : Str) → Target) where
  handed_out-Returns :
      (again : Tables → Option Claimed) (now : ℕ) (t : Task) (db : Tables) (found : Option Str)
      → Returns (again (record db { tasks = update_task t.id (abandoned now) db.tasks }))
      → Returns (handed_out target again now t db found)
  unfolding handed_out
  handed_out-Returns again now t db none h = h
  handed_out-Returns again now t db (some repository_id) h = (_, refl)

  claim_found-Returns :
      (again : Tables → Option Claimed) (name : Str) (now : ℕ) (db : Tables) (chosen : Option Task)
      → oldest_due now db.tasks ≡ chosen
      → ((b : Tables) → length (due now b.tasks) < length (due now db.tasks) → Returns (again b))
      → Returns (claim_found target again name now db chosen)
  unfolding claim_found
  claim_found-Returns again name now db none e h = (_, refl)
  claim_found-Returns again name now db (some t) e h =
      let ts = update_task t.id (claimed name now) db.tasks in
      handed_out-Returns again now (claimed name now t) (record db { tasks = ts })
        (scan_target (target t.repository_path t.digest))
        (h (record db { tasks = update_task t.id (abandoned now) ts })
          (omega (
            arith,
            length-due-update t.id (abandoned now) now ts (abandoned-not_due now),
            length-due-member (claimed name now) now db.tasks (claimed-not_due name now)
                (oldest_due-due now db.tasks e) (oldest_due-Memᴰ now db.tasks e),
          )))

  claim-Returns :
      (fuel : ℕ) (name : Str) (now : ℕ) (db : Tables)
      → length (due now db.tasks) < fuel
      → Returns (claim target fuel name now db)
  unfolding claim
  claim-Returns zero name now db h = absurd (omega (arith, h))
  claim-Returns (suc fuel) name now db h =
      claim_found-Returns (claim target fuel name now) name now db (oldest_due now db.tasks) refl
        (λ b less. claim-Returns fuel name now b (omega (arith, h, less)))

  pub claim_scan_task-Returns :
      (name : Str) (now : ℕ) (db : Tables) → Returns (claim_scan_task target name now db)
  unfolding claim_scan_task due
  claim_scan_task-Returns name now db =
      claim-Returns (suc (length db.tasks)) name now db
        (omega (arith, length-filter-le (is_due now) db.tasks))

-- A row that is due after rows were made undue was there before.
update-due :
    (id : Str) (f : Task → Task) (now : ℕ) {t : Task} (ts : List Task)
    → ((u : Task) → is_due now (f u) ≡ false)
    → is_due now t ≡ true
    → Memᴰ t (update_task id f ts)
    → Memᴰ t ts
unfolding update_task
update-due id f now [] h d m = elim m [ ]
update-due id f now {t} (u ∷ us) h d m =
    let rest = update-due id f now {t = t} us h d in
    if-cases (λ ts. Memᴰ t ts → Memᴰ t (u ∷ us)) (str_eq u.id id)
      (λ e. λ k. elim k [
        | Memᴰ.head p ↦ absurd (true-false (sym d ∙ ap (is_due now) p ∙ h u))
        | Memᴰ.tail q ↦ Memᴰ.tail (rest q)
      ])
      (λ e. λ k. elim k [ Memᴰ.head p ↦ Memᴰ.head p | Memᴰ.tail q ↦ Memᴰ.tail (rest q) ]) m

-- What a claim hands out: a row of the table as it was, which was due, and is leased now to the
-- worker; nothing only where no row is due any more.
abbrev pub Handed : Str → ℕ → List Task → Claimed → Type 0
Handed name now ts (none, db) = All (λ (t : Task). is_due now t ≡ false) db.tasks
Handed name now ts (some p, db) =
    (t : Task) × Memᴰ t ts
    × (is_due now t ≡ true)
    × (p.task ≡ claimed name now t)
    × Memᴰ p.task db.tasks

-- An answer, if there is one, changes the table by allowed changes.
abbrev pub Sound : Str → ℕ → List Task → Option Claimed → Type 0
Sound name now ts none = Unit
Sound name now ts (some c) = Change now (asks name) ts c.1.tasks × Handed name now ts c

Sound-after :
    (name : Str) (now : ℕ) {ts us : List Task} (o : Option Claimed)
    → Change now (asks name) ts us
    → ((t : Task) → is_due now t ≡ true → Memᴰ t us → Memᴰ t ts)
    → Sound name now us o
    → Sound name now ts o
Sound-after name now none c k h = tt
Sound-after name now (some (none, db)) c k h = (follow c h.0, h.1)
Sound-after name now (some (some p, db)) c k h =
    (follow c h.0, (h.1.0, k h.1.0 h.1.2 h.1.1, h.1.2, h.1.3, h.1.4))

module _ (target : (path digest : Str) → Target) where
  handed_out-Sound :
      (again : Tables → Option Claimed) (name : Str) (now : ℕ) (t : Task) (db : Tables)
      (found : Option Str)
      → Memᴰ t db.tasks
      → is_due now t ≡ true
      → ((b : Tables) → Sound name now b.tasks (again b))
      → let held = update_task t.id (claimed name now) db.tasks in
        Sound name now db.tasks
          (handed_out target again now (claimed name now t) (record db { tasks = held }) found)
  unfolding handed_out
  handed_out-Sound again name now t db none m d k =
      let c = claimed name now t in
      let held = update_task t.id (claimed name now) db.tasks in
      let mc = update-Memᴰ (claimed name now) db.tasks m in
      let b = record db { tasks = update_task t.id (abandoned now) held } in
      Sound-after name now (again b) (follow (act m (claims name d)) (act mc (abandons refl refl)))
        (λ u e x.
          update-due t.id (claimed name now) now db.tasks (claimed-not_due name now) e
            (update-due t.id (abandoned now) now held (abandoned-not_due now) e x))
        (k b)
  handed_out-Sound again name now t db (some repository_id) m d k =
      (act m (claims name d), (t, m, d, refl, update-Memᴰ (claimed name now) db.tasks m))

  claim_found-Sound :
      (again : Tables → Option Claimed) (name : Str) (now : ℕ) (db : Tables) (chosen : Option Task)
      → oldest_due now db.tasks ≡ chosen
      → ((b : Tables) → Sound name now b.tasks (again b))
      → Sound name now db.tasks (claim_found target again name now db chosen)
  unfolding claim_found
  claim_found-Sound again name now db none e k = (stay, oldest_due-none now db.tasks e)
  claim_found-Sound again name now db (some t) e k =
      handed_out-Sound again name now t db (scan_target (target t.repository_path t.digest))
        (oldest_due-Memᴰ now db.tasks e) (oldest_due-due now db.tasks e) k

  claim-Sound :
      (fuel : ℕ) (name : Str) (now : ℕ) (db : Tables)
      → Sound name now db.tasks (claim target fuel name now db)
  unfolding claim
  claim-Sound zero name now db = tt
  claim-Sound (suc fuel) name now db =
      claim_found-Sound (claim target fuel name now) name now db (oldest_due now db.tasks) refl
        (claim-Sound fuel name now)

  pub claim_scan_task-Sound :
      (name : Str) (now : ℕ) (db : Tables)
      → Sound name now db.tasks (claim_scan_task target name now db)
  unfolding claim_scan_task
  claim_scan_task-Sound name now db = claim-Sound (suc (length db.tasks)) name now db

  -- A claim comes to an end. It hands out a task that was in the table and was due, which the table
  -- now has as leased to the worker, or nothing where no task is due in the table it leaves.
  pub claim_scan_task-Handed :
      (name : Str) (now : ℕ) (db : Tables)
      → (c : Claimed) × (claim_scan_task target name now db ≡ some c) × Handed name now db.tasks c
  claim_scan_task-Handed name now db =
      let r = claim_scan_task-Returns target name now db in
      let s = subst (Sound name now db.tasks) r.1 (claim_scan_task-Sound name now db) in
      (r.0, r.1, s.1)
