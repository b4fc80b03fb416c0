-- ===== src/LoginThrottle/Locking.antt =====
-- How failures add up to a lock.
use chicoree.Prelude.{
  ap, ℕ, suc, ◌+◌, ◌≤◌, ◌<◌, leb, ◌≡◌, refl, ◌∙◌, Bool, true, false, Option, none, some, inl, List,
  [], ◌∷◌, ◌++◌, All, Str, length, arith,
}
use chicoree.LoginThrottle.{
  Attempt, Entry, login_window, login_lock_time, row_of, count_row, count_failure, failures_of,
  record_key, record_entry, record_entries, record_login_failure,
}
use chicoree.LoginThrottle.Counting.{
  IsOther, row_of-count_failure, locked_row, row_of-lock_row, other-record_entries,
}
use chicoree.LoginThrottle.Reporting.{
  record_entries-append, later-lock, record_entries-Reports, record_entries-lock, swept,
}

-- A recorded failure: its time, whether old rows are swept, and the entries before and behind the one
-- of the key.
pub record Failure : Type 0 where
  pub now : ℕ
  pub sweep : Bool
  pub ahead : List Entry
  pub behind : List Entry

module _ (c : ℕ) (tail : Str) (most : ℕ) where
  abbrev pub key : Str
  key = c ∷ tail

  abbrev pub one : Entry
  one = record { key = some key; most = most }

  -- The failure is recorded for the key and for others.
  abbrev pub entries : Failure → List Entry
  entries f = f.ahead ++ one ∷ f.behind

  abbrev pub IsApart : Failure → Type 0
  IsApart f = All (IsOther key) f.ahead × All (IsOther key) f.behind

  abbrev pub recorded : Failure → List Attempt → Option ℕ × List Attempt
  recorded f rows = record_login_failure f.sweep (entries f) f.now rows

  count_row-updated : (now : ℕ) (o : Option Attempt) → (count_row key now o).updated_at ≡ now
  unfolding count_row
  count_row-updated now none = refl
  count_row-updated now (some r) = refl

  -- Until the entry of the key, and from there on.
  abbrev before : Failure → List Attempt → Option ℕ × List Attempt
  before f rows = record_entries f.now f.ahead (none, rows)

  before-row :
      (f : Failure) (rows : List Attempt)
      → IsApart f
      → row_of key (before f rows).1 ≡ row_of key rows
  before-row f rows h = other-record_entries f.now key f.ahead (none, rows) h.0

  counted_row :
      (f : Failure) (rows : List Attempt)
      → IsApart f
      → row_of key (count_failure key f.now (before f rows).1)
        ≡ some (count_row key f.now (row_of key rows))
  counted_row f rows h =
      row_of-count_failure key f.now (before f rows).1
      ∙ ap (λ o. some (count_row key f.now o)) (before-row f rows h)

  recorded-row :
      (f : Failure) (rows : List Attempt) (r : Attempt)
      → IsApart f
      → row_of key (record_key f.now most key (before f rows)).1 ≡ some r
      → r.updated_at ≡ f.now
      → row_of key (recorded f rows).1 ≡ some r
  unfolding record_login_failure record_entries record_entry
  recorded-row f rows r h e u =
      let done = record_entries f.now (entries f) (none, rows) in
      let split = record_entries-append f.now f.ahead (one ∷ f.behind) (none, rows) in
      swept f.sweep key f.now done.1 r
        (ap (λ (st : Option ℕ × List Attempt). row_of key st.1) split
          ∙ other-record_entries f.now key f.behind (record_key f.now most key (before f rows)) h.1
          ∙ e)
        u

  -- One more failure, below the limit and at it.
  failure-counts :
      (f : Failure) (rows : List Attempt)
      → IsApart f
      → failures_of (some (count_row key f.now (row_of key rows))) < most
      → row_of key (recorded f rows).1 ≡ some (count_row key f.now (row_of key rows))
  unfolding record_key failures_of
  failure-counts f rows h below =
      let r = count_row key f.now (row_of key rows) in
      let seen = counted_row f rows h in
      let not_yet : leb most r.failures ≡ false = ground arith in
      recorded-row f rows r h (rw (seen, not_yet) seen) (count_row-updated f.now (row_of key rows))

  failure-locks :
      (f : Failure) (rows : List Attempt)
      → IsApart f
      → most ≤ failures_of (some (count_row key f.now (row_of key rows)))
      → ((recorded f rows).0 ≡ some (f.now + login_lock_time))
        × (row_of key (recorded f rows).1
            ≡ locked_row f.now (some (count_row key f.now (row_of key rows))))
  unfolding record_login_failure record_entries record_entry record_key failures_of locked_row
  failure-locks f rows h reached =
      let r = count_row key f.now (row_of key rows) in
      let seen = counted_row f rows h in
      let now_locked : leb most r.failures ≡ true = ground arith in
      (
        ap (λ (st : Option ℕ × List Attempt). st.0)
              (record_entries-append f.now f.ahead (one ∷ f.behind) (none, rows))
            ∙ record_entries-lock f.now f.behind (record_key f.now most key (before f rows)) (
                rw (seen, now_locked)
                  (later-lock f.now (before f rows).0
                    (record_entries-Reports f.now f.ahead (none, rows) (inl refl)))),
        recorded-row f rows
            (record r {
              locked_until = some (f.now + login_lock_time);
              failures = 0;
              window_start = f.now;
            })
            h
            (rw (seen, now_locked)
              (row_of-lock_row key f.now (count_failure key f.now (before f rows).1)
                ∙ ap (locked_row f.now) seen))
            (count_row-updated f.now (row_of key rows)),
      )

  -- Between two failures: what the row says.
  record IsCounted (rows : List Attempt) (n start : ℕ) : Type 0 where
    row : Attempt
    stored : row_of key rows ≡ some row
    counted : row.failures ≡ n
    started : row.window_start ≡ start
    free : row.locked_until ≡ none

  -- The row of the key has no lock, or one until the time.
  abbrev pub IsLockedUntil : Option ℕ → List Attempt → Type 0
  IsLockedUntil until rows = (r : Attempt) × ((row_of key rows ≡ some r) × (r.locked_until ≡ until))

  -- The rows behind some failures, and that none of these leaves the key locked.
  abbrev pub rows_after : List Failure → List Attempt → List Attempt
  rows_after [] rows = rows
  rows_after (f ∷ fs) rows = rows_after fs (recorded f rows).1

  abbrev pub StaysFree : List Failure → List Attempt → Type 0
  StaysFree [] rows = Unit
  StaysFree (f ∷ fs) rows =
      IsLockedUntil none (recorded f rows).1 × StaysFree fs (recorded f rows).1

  abbrev Locks : Failure → List Attempt → Type 0
  Locks last rows =
      ((recorded last rows).0 ≡ some (last.now + login_lock_time))
      × IsLockedUntil (some (last.now + login_lock_time)) (recorded last rows).1

  count_row-IsCounted :
      (now n start : ℕ) (rows : List Attempt)
      → IsCounted rows n start
      → now ≤ start + login_window
      → ((count_row key now (row_of key rows)).failures ≡ suc n)
        × ((count_row key now (row_of key rows)).window_start ≡ start)
        × ((count_row key now (row_of key rows)).locked_until ≡ none)
  unfolding count_row
  count_row-IsCounted now n start rows c h = rw (c.stored) (
    ground (arith, c.counted, c.started),
    ground (arith, c.counted, c.started),
    ground (arith, c.free),
  )

  others-lock :
      (others : List Failure) (last : Failure) (n start : ℕ) (rows : List Attempt)
      → IsCounted rows n start
      → All IsApart (others ++ last ∷ [])
      → All (λ (f : Failure). f.now ≤ start + login_window) (others ++ last ∷ [])
      → n + suc (length others) ≡ most
      → StaysFree others rows × Locks last (rows_after others rows)
  unfolding failures_of locked_row
  others-lock [] last n start rows c apart inside e =
      let q = count_row-IsCounted last.now n start rows c inside.0 in
      let locks = failure-locks last rows apart.0 (omega (arith, q.0, e)) in
      (tt, (locks.0, (_, (locks.1, refl))))
  others-lock (f ∷ others) last n start rows c apart inside e =
      let q = count_row-IsCounted f.now n start rows c inside.0 in
      let counts = failure-counts f rows apart.0 (omega (arith, q.0, e)) in
      let rest =
        others-lock others last (suc n) start (recorded f rows).1
          (record {
            row = count_row key f.now (row_of key rows);
            stored = counts;
            counted = q.0;
            started = q.1;
            free = q.2;
          })
          apart.1 inside.1 (omega (arith, e)) in
      (((_, (counts, q.2)), rest.0), rest.1)

  -- Under a limit of two or more, the failures that are recorded for a key without a row leave it
  -- free while they are fewer than the limit; the one that reaches it locks the key from its time
  -- on and is answered with that lock, where all fall into the window that the first of them
  -- opened. Each may be recorded together with entries of other keys, before and behind, and may
  -- sweep old rows.
  pub recorded-IsLockedUntil :
      (first last : Failure) (others : List Failure) (rows : List Attempt)
      → row_of key rows ≡ none
      → All IsApart (first ∷ others ++ last ∷ [])
      → All (λ (f : Failure). f.now ≤ first.now + login_window) (others ++ last ∷ [])
      → 2 + length others ≡ most
      → let before_last = rows_after (first ∷ others) rows in
        StaysFree (first ∷ others) rows
        × ((recorded last before_last).0 ≡ some (last.now + login_lock_time))
        × IsLockedUntil (some (last.now + login_lock_time)) (recorded last before_last).1
  unfolding failures_of count_row
  recorded-IsLockedUntil first last others rows free apart inside e =
      let counts = failure-counts first rows apart.0 (rw free (omega (arith, e))) in
      let rest =
        others-lock others last 1 first.now (recorded first rows).1
          (record {
            row = count_row key first.now (row_of key rows);
            stored = counts;
            counted = rw free refl;
            started = rw free refl;
            free = rw free refl;
          })
          apart.1 inside (omega (arith, e)) in
      (((_, (counts, rw free refl)), rest.0), rest.1.0, rest.1.1)
