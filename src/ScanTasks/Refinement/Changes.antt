-- ===== src/ScanTasks/Refinement/Changes.antt =====
-- What a change of the table does to the phase of each task.
use mathlib.Core.List.{Memᴰ}
use chicoree.Prelude.{
  ℕ, ◌+◌, ◌≡◌, ◌≢◌, refl, sym, ap, ◌∙◌, subst, Bool, true, false, not, ◌*◌, ◌&&◌, ◌||◌, Bool-cases,
  inl, inr, if-cases, &&-right, Option, none, some, List, [], ◌∷◌, All-Memᴰ, map, filter,
  if◌then◌else◌, Str, str_eq, str_eq→eq, arith, ltb, leb,
}
use chicoree.ScanTasks.{
  Task, TaskStatus, queued, leased, done, failed, is_queued, is_leased, before, day_ms, update_task,
  is_due, lease_time, put_task,
}
use chicoree.ScanTasks.Rows.{Lacks, Distinct, differs_from_itself, update-Memᴰ, update-Distinct}
use chicoree.ScanTasks.Moves.{
  Call, pushes, asks, ticks, Change, stay, put, act, release, forget, Change-Distinct, Legal,
  claims, abandons, completes, gives_up, puts_back, takes, ends, Legal-id,
}
use chicoree.ScanTasks.Reports.{is_kept, web_inline, release_if_expired, is_expired}
use chicoree.ScanTasks.Refinement.{
  Phase, waiting, finished, running, Allowed, idle, asked, granted, regranted, void, returned,
  reported, released, taken, ran, forgotten, follow, phase_at, phase, phase_of,
}

due-Allowed :
    (now : ℕ) (s : TaskStatus) (by : Option Str) (until : Option ℕ) (name : Str)
    → is_queued s || (is_leased s && before until now) ≡ true
    → Allowed now
        (asks name)
        (some (phase_at s by until))
        (some (running (some name) (some (now + lease_time))))
due-Allowed now queued by until name h = granted
due-Allowed now leased by until name h = regranted h
due-Allowed now done by until name h = cc (h)
due-Allowed now failed by until name h = cc (h)

leased-Allowed :
    {c : Call} (now : ℕ) (s : TaskStatus) (by : Option Str) (until : Option ℕ) (name : Str)
    (q : Phase)
    → is_leased s ≡ true
    → by ≡ some name
    → Allowed now c (some (running (some name) until)) (some q)
    → Allowed now c (some (phase_at s by until)) (some q)
leased-Allowed now queued by until name q h o a = cc (h)
leased-Allowed {c} now leased by until name q h o a =
    subst (λ (b : Option Str). Allowed now c (some (running b until)) (some q)) (sym o) a
leased-Allowed now done by until name q h o a = cc (h)
leased-Allowed now failed by until name q h o a = cc (h)

queued-Allowed :
    {c : Call} (now : ℕ) (s : TaskStatus) (by : Option Str) (until : Option ℕ) (q : Phase)
    → is_queued s ≡ true
    → Allowed now c (some waiting) (some q)
    → Allowed now c (some (phase_at s by until)) (some q)
queued-Allowed now queued by until q h a = a
queued-Allowed now leased by until q h a = cc (h)
queued-Allowed now done by until q h a = cc (h)
queued-Allowed now failed by until q h a = cc (h)

Legal-Allowed :
    {now : ℕ} {t : Task} {c : Call} {f : Task → Task}
    → Legal now t c f
    → Allowed now c (some (phase t)) (some (phase (f t)))
unfolding is_due
Legal-Allowed {now} {t} (claims name h) = due-Allowed now t.status t.leased_by t.lease_until name (
    &&-right (leb t.available_at now)
      (is_queued t.status || (is_leased t.status && before t.lease_until now)) h)
Legal-Allowed {now} {t} (abandons {name} h o) =
    leased-Allowed now t.status t.leased_by t.lease_until name finished h o void
Legal-Allowed {now} {t} (completes {name} h o) =
    leased-Allowed now t.status t.leased_by t.lease_until name finished h o reported
Legal-Allowed {now} {t} (gives_up {name} message h o) =
    leased-Allowed now t.status t.leased_by t.lease_until name finished h o reported
Legal-Allowed {now} {t} (puts_back {name} message n h o) =
    leased-Allowed now t.status t.leased_by t.lease_until name waiting h o returned
Legal-Allowed {now} {t} (takes h) =
    queued-Allowed now t.status t.leased_by t.lease_until
      (running (some web_inline) (some (now + lease_time))) h taken
Legal-Allowed {now} {t} (ends h o) =
    leased-Allowed now t.status t.leased_by t.lease_until web_inline finished h o ran

-- The view after a change of the rows of one id.
phase_of-member :
    {t : Task} (ts : List Task) → Distinct ts → Memᴰ t ts → phase_of t.id ts ≡ some (phase t)
unfolding phase_of
phase_of-member [] d m = elim m [ ]
phase_of-member {t} (u ∷ us) d (Memᴰ.head e) =
    let P = λ (o : Option Phase). o ≡ some (phase t) in
    if-cases P (str_eq u.id t.id) (λ h. ap (λ (x : Task). some (phase x)) (sym e))
      (λ h. absurd (differs_from_itself (ap (λ (x : Task). x.id) (sym e)) h))
phase_of-member {t} (u ∷ us) d (Memᴰ.tail m) =
    let P = λ (o : Option Phase). o ≡ some (phase t) in
    if-cases P (str_eq u.id t.id)
      (λ h. absurd (All-Memᴰ (λ (x : Task). x.id ≢ u.id) d.0 m (sym (str_eq→eq u.id t.id h))))
      (λ h. phase_of-member us d.1 m)

phase_of-other :
    (f : Task → Task) (keeps : (t : Task) → (f t).id ≡ t.id) (i id : Str) (ts : List Task)
    → str_eq i id ≡ false
    → phase_of id (update_task i f ts) ≡ phase_of id ts
unfolding phase_of update_task
phase_of-other f keeps i id [] n = refl
phase_of-other f keeps i id (t ∷ ts) n =
    let rest = phase_of-other f keeps i id ts n in
    if-cases (λ l. phase_of id l ≡ phase_of id (t ∷ ts)) (str_eq t.id i)
      (λ e.
        let y = ap (λ j. str_eq j id) (str_eq→eq t.id i e) ∙ n in
        let x = ap (λ j. str_eq j id) (keeps t) ∙ y in ground (arith, x, y, rest))
      (λ e. ground (arith, rest))

act-Allowed :
    {now : ℕ} {c : Call} {t : Task} {f : Task → Task} (ts : List Task) (id : Str)
    → Distinct ts
    → Memᴰ t ts
    → Legal now t c f
    → Allowed now c (phase_of id ts) (phase_of id (update_task t.id f ts))
act-Allowed {now} {c} {t} {f} ts id d m legal = elim (Bool-cases (str_eq t.id id)) [
  | inl e ↦
      (let same = str_eq→eq t.id id e in
        let us = update_task t.id f ts in
        let before = ap (λ i. phase_of i ts) (sym same) ∙ phase_of-member ts d m in
        let after =
          ap (λ i. phase_of i us) (sym same ∙ sym (Legal-id legal t))
          ∙ phase_of-member us (update-Distinct f t.id ts (Legal-id legal) d)
              (update-Memᴰ f ts m) in
        subst (λ p. Allowed now c p (phase_of id us)) (sym before)
          (subst (λ q. Allowed now c (some (phase t)) q) (sym after) (Legal-Allowed legal)))
  | inr e ↦
      subst (λ q. Allowed now c (phase_of id ts) q)
        (sym (phase_of-other f (Legal-id legal) t.id id ts e)) idle
]

if_both-Allowed :
    {now : ℕ} {c : Call} (b : Bool) {p q r s : Option Phase}
    → Allowed now c p q
    → Allowed now c r s
    → Allowed now c (if b then p else r) (if b then q else s)
if_both-Allowed true h k = h
if_both-Allowed false h k = k

put_task-Allowed :
    (new path digest repository_id : Str) (now : ℕ) (ts : List Task) (id : Str)
    → Allowed now pushes
        (phase_of id ts)
        (phase_of id (put_task new path digest repository_id now ts))
unfolding put_task phase_of
put_task-Allowed new path digest repository_id now [] id =
    if-cases (Allowed now pushes none) (str_eq new id) (λ e. asked) (λ e. idle)
put_task-Allowed new path digest repository_id now (t ∷ ts) id =
    let rest = put_task-Allowed new path digest repository_id now ts id in
    if-cases (λ l. Allowed now pushes (phase_of id (t ∷ ts)) (phase_of id l))
      (str_eq t.digest digest) (λ e. if_both-Allowed (str_eq t.id id) asked idle)
      (λ e. if_both-Allowed (str_eq t.id id) idle rest)

expired-Allowed :
    (now : ℕ) (s : TaskStatus) (by : Option Str) (until : Option ℕ)
    → is_leased s && before until now ≡ true
    → Allowed now ticks (some (phase_at s by until)) (some waiting)
expired-Allowed now queued by until h = cc (h)
expired-Allowed now leased by until h = released h
expired-Allowed now done by until h = cc (h)
expired-Allowed now failed by until h = cc (h)

release-Allowed :
    (now : ℕ) (ts : List Task) (id : Str)
    → Allowed now ticks (phase_of id ts) (phase_of id (map (release_if_expired now) ts))
unfolding phase_of is_expired
release-Allowed now [] id = idle
release-Allowed now (t ∷ ts) id =
    let rest = release-Allowed now ts id in
    let gone = phase_of id (map (release_if_expired now) ts) in
    if-cases
      (λ (u : Task).
        Allowed now ticks (phase_of id (t ∷ ts)) (if str_eq u.id id then some (phase u) else gone))
      (is_expired now t)
      (λ e.
        if_both-Allowed (str_eq t.id id) (expired-Allowed now t.status t.leased_by t.lease_until e)
          rest)
      (λ e. if_both-Allowed (str_eq t.id id) idle rest)

phase_of-Lacks : (id : Str) (ts : List Task) → Lacks id ts → phase_of id ts ≡ none
unfolding phase_of
phase_of-Lacks id [] l = refl
phase_of-Lacks id (t ∷ ts) l =
    let rest = phase_of-Lacks id ts l.1 in
    if-cases (λ o. o ≡ none) (str_eq t.id id) (λ e. absurd (l.0 (str_eq→eq t.id id e))) (λ e. rest)

dropped-finished :
    (s : TaskStatus) (by : Option Str) (until : Option ℕ) (b : Bool)
    → is_queued s || is_leased s || b ≡ false
    → phase_at s by until ≡ finished
dropped-finished queued by until b h = cc (h)
dropped-finished leased by until b h = cc (h)
dropped-finished done by until b h = refl
dropped-finished failed by until b h = refl

forget_head-Allowed :
    (now : ℕ) (t : Task) (ts : List Task) (id : Str)
    → Lacks t.id ts
    → phase t ≡ finished
    → Allowed now ticks (phase_of id (t ∷ ts)) (phase_of id ts)
unfolding phase_of
forget_head-Allowed now t ts id l e =
    if-cases (λ p. Allowed now ticks p (phase_of id ts)) (str_eq t.id id)
      (λ same.
        let none_left =
          subst (λ i. phase_of i ts ≡ none) (str_eq→eq t.id id same) (phase_of-Lacks t.id ts l) in
        subst (λ (p : Phase). Allowed now ticks (some p) (phase_of id ts)) (sym e)
          (subst (λ q. Allowed now ticks (some finished) q) (sym none_left) forgotten))
      (λ other. idle)

forget-Allowed :
    (now : ℕ) (ts : List Task) (id : Str)
    → Distinct ts
    → Allowed now ticks (phase_of id ts) (phase_of id (filter (is_kept now) ts))
unfolding phase_of is_kept
forget-Allowed now [] id d = idle
forget-Allowed now (t ∷ ts) id d =
    let rest = forget-Allowed now ts id d.1 in
    if-cases (λ l. Allowed now ticks (phase_of id (t ∷ ts)) (phase_of id l)) (is_kept now t)
      (λ e. if_both-Allowed (str_eq t.id id) idle rest)
      (λ e.
        follow
          (forget_head-Allowed now t ts id d.0 (
            dropped-finished t.status t.leased_by t.lease_until
              (not (ltb (t.updated_at + 7 * day_ms) now)) e))
          rest)

pub Change-Allowed :
    {now : ℕ} {c : Call} {ts us : List Task} (id : Str)
    → Change now c ts us
    → Distinct ts
    → Allowed now c (phase_of id ts) (phase_of id us)
Change-Allowed id stay d = idle
Change-Allowed {now} {ts = ts} id (put new path digest repository_id l) d =
    put_task-Allowed new path digest repository_id now ts id
Change-Allowed {ts = ts} id (act m legal) d = act-Allowed ts id d m legal
Change-Allowed {now} {ts = ts} id release d = release-Allowed now ts id
Change-Allowed {now} {ts = ts} id forget d = forget-Allowed now ts id d
Change-Allowed id (Change.follow a b) d =
    follow (Change-Allowed id a d) (Change-Allowed id b (Change-Distinct a d))
