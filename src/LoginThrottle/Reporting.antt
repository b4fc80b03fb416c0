-- ===== src/LoginThrottle/Reporting.antt =====
-- The lock that a call reports, and the rows that its sweep keeps.
use mathlib.Core.Option.{some-injective}
use chicoree.Prelude.{
  ap, ℕ, ◌+◌, leb, ltb, not, ◌≡◌, refl, sym, ◌∙◌, Bool, true, false, Bool-cases, Option, none, some,
  ◌⊎◌, inl, inr, List, [], ◌∷◌, ◌++◌, Str, str_eq, filter, if-cases, if◌then◌else◌, arith,
}
use chicoree.LoginThrottle.{
  Attempt, Entry, login_lock_time, day_ms, row_of, count_failure, later, failures_of, record_key,
  record_entry, record_entries,
}

pub record_entries-append :
    (now : ℕ) (xs ys : List Entry) (st : Option ℕ × List Attempt)
    → record_entries now (xs ++ ys) st ≡ record_entries now ys (record_entries now xs st)
unfolding record_entries
record_entries-append now [] ys st = refl
record_entries-append now (x ∷ xs) ys st = record_entries-append now xs ys (record_entry now x st)

-- The lock that a call reports is none, or that of its time.
abbrev pub Reports : ℕ → Option ℕ → Type 0
Reports now o = (o ≡ none) ⊎ (o ≡ some (now + login_lock_time))

pub later-lock :
    (now : ℕ) (o : Option ℕ)
    → Reports now o
    → later o (some (now + login_lock_time)) ≡ some (now + login_lock_time)
unfolding later
later-lock now o (inl e) = rw e refl
later-lock now o (inr e) = rw e (ap some (omega arith))

record_key-Reports :
    (now most : ℕ) (key : Str) (st : Option ℕ × List Attempt)
    → Reports now st.0
    → Reports now (record_key now most key st).0
unfolding record_key
record_key-Reports now most key (o, rows) h =
    if-cases (λ (done : Option ℕ × List Attempt). Reports now done.0)
      (leb most (failures_of (row_of key (count_failure key now rows))))
      (λ _. inr (later-lock now o h)) (λ _. h)

record_entry-Reports :
    (now : ℕ) (k : Option Str) (most : ℕ) (st : Option ℕ × List Attempt)
    → Reports now st.0
    → Reports now (record_entry now (record { key = k; most = most }) st).0
unfolding record_entry
record_entry-Reports now none most st h = h
record_entry-Reports now (some []) most st h = h
record_entry-Reports now (some (c ∷ k)) most st h = record_key-Reports now most (c ∷ k) st h

pub record_entries-Reports :
    (now : ℕ) (es : List Entry) (st : Option ℕ × List Attempt)
    → Reports now st.0
    → Reports now (record_entries now es st).0
unfolding record_entries
record_entries-Reports now [] st h = h
record_entries-Reports now (e ∷ es) st h =
    record_entries-Reports now es (record_entry now e st)
      (record_entry-Reports now e.key e.most st h)

-- A reported lock stays reported.
record_key-lock :
    (now most : ℕ) (key : Str) (st : Option ℕ × List Attempt)
    → st.0 ≡ some (now + login_lock_time)
    → (record_key now most key st).0 ≡ some (now + login_lock_time)
unfolding record_key
record_key-lock now most key (o, rows) h =
    if-cases (λ (done : Option ℕ × List Attempt). done.0 ≡ some (now + login_lock_time))
      (leb most (failures_of (row_of key (count_failure key now rows))))
      (λ _. later-lock now o (inr h)) (λ _. h)

record_entry-lock :
    (now : ℕ) (k : Option Str) (most : ℕ) (st : Option ℕ × List Attempt)
    → st.0 ≡ some (now + login_lock_time)
    → (record_entry now (record { key = k; most = most }) st).0 ≡ some (now + login_lock_time)
unfolding record_entry
record_entry-lock now none most st h = h
record_entry-lock now (some []) most st h = h
record_entry-lock now (some (c ∷ k)) most st h = record_key-lock now most (c ∷ k) st h

pub record_entries-lock :
    (now : ℕ) (es : List Entry) (st : Option ℕ × List Attempt)
    → st.0 ≡ some (now + login_lock_time)
    → (record_entries now es st).0 ≡ some (now + login_lock_time)
unfolding record_entries
record_entries-lock now [] st h = h
record_entries-lock now (e ∷ es) st h =
    record_entries-lock now es (record_entry now e st) (record_entry-lock now e.key e.most st h)

-- A row that is kept is found among those that are kept.
row_of-filter :
    (key : Str) (p : Attempt → Bool) (rows : List Attempt) (r : Attempt)
    → row_of key rows ≡ some r
    → p r ≡ true
    → row_of key (filter p rows) ≡ some r
unfolding row_of
row_of-filter key p [] r e h = cc (e)
row_of-filter key p (x ∷ rows) r e h = elim (Bool-cases (str_eq x.key key)) [
  | inl a ↦
      let same = some-injective x r (sym (ap (λ b. if b then some x else row_of key rows) a) ∙ e) in
      ap (λ b. row_of key (if b then x ∷ filter p rows else filter p rows)) (ap p same ∙ h)
      ∙ ap (λ b. if b then some x else row_of key (filter p rows)) a
      ∙ ap some same
  | inr a ↦
      let rest =
        row_of-filter key p rows r (sym (ap (λ b. if b then some x else row_of key rows) a) ∙ e)
          h in
      if-cases (λ kept. row_of key kept ≡ some r) (p x)
        (λ _. ap (λ b. if b then some x else row_of key (filter p rows)) a ∙ rest) (λ _. rest)
]

-- The sweep keeps a row of now.
pub swept :
    (sweep : Bool) (key : Str) (now : ℕ) (rows : List Attempt) (r : Attempt)
    → row_of key rows ≡ some r
    → r.updated_at ≡ now
    → row_of key (if sweep then filter (λ a. not (ltb (a.updated_at + day_ms) now)) rows else rows)
      ≡ some r
swept true key now rows r e h =
    row_of-filter key (λ a. not (ltb (a.updated_at + day_ms) now)) rows r e (ground (arith, h))
swept false key now rows r e h = e
