-- ===== src/LoginThrottle/Locks.antt =====
-- What the query for a lock finds.
use mathlib.Core.List.{Memᴰ}
use mathlib.Core.Option.{some-injective}
use chicoree.Prelude.{
  ap, subst, ℕ, ◌+◌, ◌*◌, ◌-◌, ◌≤◌, ◌<◌, ltb, ◌≡◌, ◌⊎◌, refl, Bool, true, false, Option, none, some,
  inl, inr, List, [], ◌∷◌, Str, includes, max, arith, if◌then◌else◌,
}
use chicoree.Pagination.{ceil_div}
use chicoree.LoginThrottle.{
  Attempt, Lock, present_keys, unexpired, later, latest_lock, as_lock, login_lock,
}

-- A row that locks one of the keys now, until this time.
pub record LocksUntil (keys : List (Option Str)) (now until : ℕ) (rows : List Attempt)
    : Type 0 where
  pub row : Attempt
  pub stored : Memᴰ row rows
  pub asked : includes (present_keys keys) row.key ≡ true
  pub locked : row.locked_until ≡ some until
  pub ahead : now < until

module _ (keys : List (Option Str)) (now : ℕ) where
  weaken :
      (until : ℕ) (r : Attempt) (rows : List Attempt)
      → LocksUntil keys now until rows
      → LocksUntil keys now until (r ∷ rows)
  weaken until r rows h = record {
    row = h.row;
    stored = Memᴰ.tail h.stored;
    asked = h.asked;
    locked = h.locked;
    ahead = h.ahead;
  }

  unexpired-some :
      (o : Option ℕ) (until : ℕ) → unexpired now o ≡ some until → (o ≡ some until) × (now < until)
  unfolding unexpired
  unexpired-some o until h = ground arith

  asked-some :
      (b : Bool) (o : Option ℕ) (until : ℕ)
      → (if b then unexpired now o else none) ≡ some until
      → (b ≡ true) × ((o ≡ some until) × (now < until))
  unfolding unexpired
  asked-some true o until h = (refl, unexpired-some o until h)
  asked-some false o until h = cc (h)

  later-some :
      (a b : Option ℕ) (until : ℕ) → later a b ≡ some until → (a ≡ some until) ⊎ (b ≡ some until)
  unfolding later
  later-some a b until h = ground arith

  latest_lock-LocksUntil :
      (rows : List Attempt) (until : ℕ)
      → latest_lock (present_keys keys) now rows ≡ some until
      → LocksUntil keys now until rows
  unfolding latest_lock
  latest_lock-LocksUntil [] until h = cc (h)
  latest_lock-LocksUntil (r ∷ rows) until h =
      elim (later-some _ (latest_lock (present_keys keys) now rows) until h) [
        | inl e ↦
            let f = asked-some (includes (present_keys keys) r.key) r.locked_until until e in
            record { row = r; stored = Memᴰ.head refl; asked = f.0; locked = f.1.0; ahead = f.1.1 }
        | inr e ↦ weaken until r rows (latest_lock-LocksUntil rows until e)
      ]

  later-left :
      (o : Option ℕ) (until : ℕ)
      → (latest : ℕ) × ((later (some until) o ≡ some latest) × (until ≤ latest))
  unfolding later
  later-left none until = (until, (refl, omega arith))
  later-left (some b) until = (max until b, (refl, omega arith))

  later-right :
      (a : Option ℕ) (b until : ℕ)
      → until ≤ b
      → (latest : ℕ) × ((later a (some b) ≡ some latest) × (until ≤ latest))
  unfolding later
  later-right none b until h = (b, (refl, h))
  later-right (some a) b until h = (max a b, (refl, omega (arith, h)))

  -- The first of the rows locks.
  row-locks :
      (r : Attempt) (rows : List Attempt) (until : ℕ)
      → includes (present_keys keys) r.key ≡ true
      → r.locked_until ≡ some until
      → now < until
      → (latest : ℕ) × ((latest_lock (present_keys keys) now (r ∷ rows) ≡ some latest)
          × (until ≤ latest))
  unfolding latest_lock unexpired
  row-locks r rows until asked locked ahead =
      let now_ahead : ltb now until ≡ true = ground arith in
      rw (asked, locked, now_ahead) (later-left (latest_lock (present_keys keys) now rows) until)

  latest_of :
      (rows : List Attempt) (until : ℕ) (row : Attempt)
      → Memᴰ row rows
      → includes (present_keys keys) row.key ≡ true
      → row.locked_until ≡ some until
      → now < until
      → (latest : ℕ) × ((latest_lock (present_keys keys) now rows ≡ some latest) × (until ≤ latest))
  unfolding latest_lock
  latest_of [] until row m asked locked ahead = elim m [ ]
  latest_of (r ∷ rows) until row (Memᴰ.head e) asked locked ahead =
      row-locks r rows until (subst (λ x. includes (present_keys keys) x.key ≡ true) e asked)
        (subst (λ x. x.locked_until ≡ some until) e locked) ahead
  latest_of (r ∷ rows) until row (Memᴰ.tail m) asked locked ahead =
      let rest = latest_of rows until row m asked locked ahead in
      rw (rest.1.0) (later-right _ rest.0 until rest.1.1)

  latest_lock-latest :
      (rows : List Attempt) (until : ℕ)
      → LocksUntil keys now until rows
      → (latest : ℕ) × ((latest_lock (present_keys keys) now rows ≡ some latest) × (until ≤ latest))
  latest_lock-latest rows until h = latest_of rows until h.row h.stored h.asked h.locked h.ahead

  -- The advice to wait reaches the end of the lock, and is less than a second too long.
  abbrev pub Waits : Lock → Type 0
  Waits lock =
      (lock.locked_until ≤ now + lock.retry_after_seconds * 1000)
      × (now + lock.retry_after_seconds * 1000 < lock.locked_until + 1000)

  lock_at : ℕ → Lock
  lock_at until = record {
    locked_until = until;
    retry_after_seconds = max 1 (ceil_div (until - now) 1000);
  }

  lock_at-Waits : (until : ℕ) → now < until → Waits (lock_at until)
  unfolding lock_at
  lock_at-Waits until h = omega (arith, h)

  as_lock-Waits :
      (rows : List Attempt) (o : Option ℕ) (lock : Lock)
      → latest_lock (present_keys keys) now rows ≡ o
      → as_lock now o ≡ some lock
      → LocksUntil keys now lock.locked_until rows × Waits lock
  unfolding as_lock lock_at
  as_lock-Waits rows none lock e h = cc (h)
  as_lock-Waits rows (some until) lock e h =
      let found = latest_lock-LocksUntil rows until e in
      subst (λ l. LocksUntil keys now l.locked_until rows × Waits l)
        (some-injective (lock_at until) lock h) (found, lock_at-Waits until found.ahead)

  -- A reported lock is that of a row of one of the keys, and its advice to wait ends with the lock,
  -- less than a second later.
  pub login_lock-LocksUntil :
      (rows : List Attempt) (lock : Lock)
      → login_lock keys now rows ≡ some lock
      → LocksUntil keys now lock.locked_until rows × Waits lock
  unfolding login_lock
  login_lock-LocksUntil rows lock h =
      as_lock-Waits rows (latest_lock (present_keys keys) now rows) lock refl h

  -- If a row locks one of the keys, a lock that is at least as long is reported.
  pub login_lock-latest :
      (rows : List Attempt) (until : ℕ)
      → LocksUntil keys now until rows
      → (lock : Lock) × ((login_lock keys now rows ≡ some lock) × (until ≤ lock.locked_until))
  unfolding login_lock as_lock lock_at
  login_lock-latest rows until h =
      let l = latest_lock-latest rows until h in (lock_at l.0, (ap (as_lock now) l.1.0, l.1.1))
