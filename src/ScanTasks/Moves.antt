-- ===== src/ScanTasks/Moves.antt =====
-- What the operations of the queue do to its rows, as changes of the table, and what every change
-- keeps: the lease that a row names fits its status, and no two rows have the same id.
use mathlib.Core.List.{Memᴰ}
use chicoree.Prelude.{
  ℕ, ◌≤◌, ◌≡◌, ◌≢◌, refl, sym, true, if-cases, Option, none, some, is_some, List, [], ◌∷◌, All,
  All-filter, map, filter, Str, str_eq, arith,
}
use chicoree.ScanTasks.{
  Task, TaskStatus, queued, leased, done, failed, is_queued, is_leased, update_task, is_due,
  claimed, abandoned, put_task,
}
use chicoree.ScanTasks.Rows.{
  Lacks, Distinct, update-All, update-Distinct, map-Distinct, filter-Distinct,
}
use chicoree.ScanTasks.Reports.{
  completed, given_up, put_back, release_if_expired, is_expired, web_inline, taken_inline, ended,
  is_kept,
}

-- Who changes rows: a push, a worker that asks for a task or reports on one, the scheduler.
pub data Call : Type 0 where
  pushes ticks : Call
  asks reports : (name : Str) → Call

-- What a call may do to a row, by what the row is like.
pub data Legal (now : ℕ) (t : Task) : Call → (Task → Task) → Type 0 where
  claims : (name : Str) → is_due now t ≡ true → Legal now t (asks name) (claimed name now)
  abandons :
      {name : Str}
      → is_leased t.status ≡ true
      → t.leased_by ≡ some name
      → Legal now t (asks name) (abandoned now)
  completes :
      {name : Str}
      → is_leased t.status ≡ true
      → t.leased_by ≡ some name
      → Legal now t (reports name) (completed now)
  gives_up :
      {name : Str} (message : Str)
      → is_leased t.status ≡ true
      → t.leased_by ≡ some name
      → Legal now t (reports name) (given_up message now)
  puts_back :
      {name : Str} (message : Str) (n : ℕ)
      → is_leased t.status ≡ true
      → t.leased_by ≡ some name
      → Legal now t (reports name) (put_back message n now)
  takes : is_queued t.status ≡ true → Legal now t ticks (taken_inline now)
  ends : is_leased t.status ≡ true → t.leased_by ≡ some web_inline → Legal now t ticks (ended now)

pub data Change (now : ℕ) : Call → List Task → List Task → Type 0 where
  stay : {c : Call} {ts : List Task} → Change now c ts ts
  put :
      (id path digest repository_id : Str) {ts : List Task}
      → Lacks id ts
      → Change now pushes ts (put_task id path digest repository_id now ts)
  act :
      {c : Call} {t : Task} {f : Task → Task} {ts : List Task}
      → Memᴰ t ts
      → Legal now t c f
      → Change now c ts (update_task t.id f ts)
  release : {ts : List Task} → Change now ticks ts (map (release_if_expired now) ts)
  forget : {ts : List Task} → Change now ticks ts (filter (is_kept now) ts)
  follow :
      {c : Call} {ts us vs : List Task}
      → Change now c ts us
      → Change now c us vs
      → Change now c ts vs

-- A row that waits names no lease; one that a worker has names the worker, the end of the lease and
-- at least one attempt.
abbrev pub LeaseFits : TaskStatus → Option Str → Option ℕ → ℕ → Type 0
LeaseFits queued by until n = (by ≡ none) × (until ≡ none)
LeaseFits leased by until n = (is_some by ≡ true) × (is_some until ≡ true) × (1 ≤ n)
LeaseFits done by until n = Unit
LeaseFits failed by until n = Unit

abbrev pub IsSound : Task → Type 0
IsSound t = LeaseFits t.status t.leased_by t.lease_until t.attempts

Legal-IsSound :
    {now : ℕ} {t : Task} {c : Call} {f : Task → Task}
    → Legal now t c f
    → (u : Task) → IsSound u
    → IsSound (f u)
Legal-IsSound (claims name h) u s = (refl, refl, omega arith)
Legal-IsSound (abandons h o) u s = tt
Legal-IsSound (completes h o) u s = tt
Legal-IsSound (gives_up message h o) u s = tt
Legal-IsSound (puts_back message n h o) u s = (refl, refl)
Legal-IsSound (takes h) u s = (refl, refl, omega arith)
Legal-IsSound (ends h o) u s = tt

pub Legal-id :
    {now : ℕ} {t : Task} {c : Call} {f : Task → Task}
    → Legal now t c f
    → (u : Task) → (f u).id ≡ u.id
Legal-id (claims name h) u = refl
Legal-id (abandons h o) u = refl
Legal-id (completes h o) u = refl
Legal-id (gives_up message h o) u = refl
Legal-id (puts_back message n h o) u = refl
Legal-id (takes h) u = refl
Legal-id (ends h o) u = refl

release-IsSound : (now : ℕ) (t : Task) → IsSound t → IsSound (release_if_expired now t)
release-IsSound now t s = if-cases IsSound (is_expired now t) (λ e. (refl, refl)) (λ e. s)

map-IsSound :
    (now : ℕ) (ts : List Task) → All IsSound ts → All IsSound (map (release_if_expired now) ts)
map-IsSound now [] h = tt
map-IsSound now (t ∷ ts) h = (release-IsSound now t h.0, map-IsSound now ts h.1)

pub release-id : (now : ℕ) (t : Task) → (release_if_expired now t).id ≡ t.id
release-id now t = if-cases (λ (u : Task). u.id ≡ t.id) (is_expired now t) (λ e. refl) (λ e. refl)

module _ (id path digest repository_id : Str) (now : ℕ) where
  put_task-IsSound :
      (ts : List Task) → All IsSound ts → All IsSound (put_task id path digest repository_id now ts)
  unfolding put_task
  put_task-IsSound [] h = ((refl, refl), tt)
  put_task-IsSound (t ∷ ts) h =
      let rest = put_task-IsSound ts h.1 in
      if-cases (All IsSound) (str_eq t.digest digest) (λ e. ((refl, refl), h.1)) (λ e. (h.0, rest))

  put_task-Lacks :
      (other : Str) (ts : List Task)
      → id ≢ other
      → Lacks other ts
      → Lacks other (put_task id path digest repository_id now ts)
  unfolding put_task
  put_task-Lacks other [] n h = (n, tt)
  put_task-Lacks other (t ∷ ts) n h =
      let rest = put_task-Lacks other ts n h.1 in
      if-cases (Lacks other) (str_eq t.digest digest) (λ e. h) (λ e. (h.0, rest))

  put_task-Distinct :
      (ts : List Task)
      → Lacks id ts
      → Distinct ts
      → Distinct (put_task id path digest repository_id now ts)
  unfolding put_task
  put_task-Distinct [] l d = (tt, tt)
  put_task-Distinct (t ∷ ts) l d =
      let rest = put_task-Distinct ts l.1 d.1 in
      let apart = put_task-Lacks t.id ts (λ e. l.0 (sym e)) d.0 in
      if-cases Distinct (str_eq t.digest digest) (λ e. d) (λ e. (apart, rest))

pub Change-IsSound :
    {now : ℕ} {c : Call} {ts us : List Task} → Change now c ts us → All IsSound ts → All IsSound us
Change-IsSound stay h = h
Change-IsSound {now} {ts = ts} (put id path digest repository_id l) h =
    put_task-IsSound id path digest repository_id now ts h
Change-IsSound {ts = ts} (act {t} {f} m legal) h =
    update-All f IsSound t.id ts (Legal-IsSound legal) h
Change-IsSound {now} {ts = ts} release h = map-IsSound now ts h
Change-IsSound {now} {ts = ts} forget h = All-filter IsSound (is_kept now) ts h
Change-IsSound (follow a b) h = Change-IsSound b (Change-IsSound a h)

pub Change-Distinct :
    {now : ℕ} {c : Call} {ts us : List Task} → Change now c ts us → Distinct ts → Distinct us
Change-Distinct stay d = d
Change-Distinct {now} {ts = ts} (put id path digest repository_id l) d =
    put_task-Distinct id path digest repository_id now ts l d
Change-Distinct {ts = ts} (act {t} {f} m legal) d = update-Distinct f t.id ts (Legal-id legal) d
Change-Distinct {now} {ts = ts} release d =
    map-Distinct (release_if_expired now) (release-id now) ts d
Change-Distinct {now} {ts = ts} forget d = filter-Distinct (is_kept now) ts d
Change-Distinct (follow a b) d = Change-Distinct b (Change-Distinct a d)
