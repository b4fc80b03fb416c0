-- ===== src/LoginThrottle/Counting.antt =====
-- What one recorded failure does to the rows.
use chicoree.Prelude.{
  subst, ℕ, ◌+◌, leb, ◌≡◌, refl, sym, ◌∙◌, true, false, Bool-cases, Option, none, some, inl, inr,
  List, [], ◌∷◌, All, Str, str_eq, str_eq_refl, str_eq→eq, arith,
}
use chicoree.LoginThrottle.{
  Attempt, Entry, login_lock_time, row_of, count_row, count_failure, lock_row, failures_of,
  record_key, record_entry, record_entries, record_login_failure,
}

-- Counting a failure writes the row of the key.
pub row_of-count_failure :
    (key : Str) (now : ℕ) (rows : List Attempt)
    → row_of key (count_failure key now rows) ≡ some (count_row key now (row_of key rows))
unfolding row_of count_failure count_row
row_of-count_failure key now [] = rw (str_eq_refl key) refl
row_of-count_failure key now (r ∷ rows) = ground (arith, row_of-count_failure key now rows)

unfoldable pub locked_row : ℕ → Option Attempt → Option Attempt
locked_row now none = none
locked_row now (some r) =
    some
      (record r { locked_until = some (now + login_lock_time); failures = 0; window_start = now })

pub row_of-lock_row :
    (key : Str) (now : ℕ) (rows : List Attempt)
    → row_of key (lock_row key now rows) ≡ locked_row now (row_of key rows)
unfolding row_of lock_row locked_row
row_of-lock_row key now [] = refl
row_of-lock_row key now (r ∷ rows) = ground (arith, row_of-lock_row key now rows)

differs :
    (key other k : Str) → str_eq key other ≡ false → str_eq k key ≡ true → str_eq k other ≡ false
differs key other k h e = subst (λ s. str_eq s other ≡ false) (sym (str_eq→eq k key e)) h

-- The other keys keep their rows.
other-count_failure :
    (key other : Str) (now : ℕ) (rows : List Attempt)
    → str_eq key other ≡ false
    → row_of other (count_failure key now rows) ≡ row_of other rows
unfolding row_of count_failure count_row
other-count_failure key other now [] h = rw h refl
other-count_failure key other now (r ∷ rows) h = elim (Bool-cases (str_eq r.key key)) [
  | inl e ↦ rw (e, differs key other r.key h e) refl
  | inr e ↦ rw (e, other-count_failure key other now rows h) refl
]

other-lock_row :
    (key other : Str) (now : ℕ) (rows : List Attempt)
    → str_eq key other ≡ false
    → row_of other (lock_row key now rows) ≡ row_of other rows
unfolding row_of lock_row
other-lock_row key other now [] h = refl
other-lock_row key other now (r ∷ rows) h = elim (Bool-cases (str_eq r.key key)) [
  | inl e ↦ rw (e, differs key other r.key h e) (other-lock_row key other now rows h)
  | inr e ↦ rw (e, other-lock_row key other now rows h) refl
]

-- The entry names a key other than this one, or none.
abbrev pub IsOther : Str → Entry → Type 0
IsOther other e = elim e.key [ none ↦ Unit | some k ↦ str_eq k other ≡ false ]

other-record_key :
    (now most : ℕ) (key other : Str) (st : Option ℕ × List Attempt)
    → str_eq key other ≡ false
    → row_of other (record_key now most key st).1 ≡ row_of other st.1
unfolding record_key
other-record_key now most key other (locked, rows) h =
    elim (Bool-cases (leb most (failures_of (row_of key (count_failure key now rows))))) [
      | inl e ↦ rw e (
          other-lock_row key other now (count_failure key now rows) h
          ∙ other-count_failure key other now rows h)
      | inr e ↦ rw e (other-count_failure key other now rows h)
    ]

other-record_entry :
    (now : ℕ) (other : Str) (k : Option Str) (most : ℕ) (st : Option ℕ × List Attempt)
    → IsOther other (record { key = k; most = most })
    → row_of other (record_entry now (record { key = k; most = most }) st).1 ≡ row_of other st.1
unfolding record_entry
other-record_entry now other none most st h = refl
other-record_entry now other (some []) most st h = refl
other-record_entry now other (some (c ∷ k)) most st h = other-record_key now most (c ∷ k) other st h

pub other-record_entries :
    (now : ℕ) (other : Str) (es : List Entry) (st : Option ℕ × List Attempt)
    → All (IsOther other) es
    → row_of other (record_entries now es st).1 ≡ row_of other st.1
unfolding record_entries
other-record_entries now other [] st h = refl
other-record_entries now other (e ∷ es) st h =
    other-record_entries now other es (record_entry now e st) h.1
    ∙ other-record_entry now other e.key e.most st h.0

-- Failures recorded for other keys leave the counter and the lock of a key alone.
pub record_login_failure-other :
    (entries : List Entry) (now : ℕ) (rows : List Attempt) (other : Str)
    → All (IsOther other) entries
    → row_of other (record_login_failure false entries now rows).1 ≡ row_of other rows
unfolding record_login_failure
record_login_failure-other entries now rows other h =
    other-record_entries now other entries (none, rows) h
