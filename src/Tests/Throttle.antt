-- ===== src/Tests/Throttle.antt =====
-- Failed sign-ins of two accounts.
use mathlib.Core.List.{Memᴰ}
use chicoree.Prelude.{
  ℕ, true, Str, Option, includes, ◌+◌, ◌≡◌, refl, false, none, some, List, [], ◌∷◌, str, str_eq,
  arith,
}
use chicoree.LoginThrottle.{
  present_keys, Attempt, Lock, login_lock, login_lock_time, row_of, account_key,
}
use chicoree.LoginThrottle.Locking.{
  Failure, StaysFree, IsLockedUntil, rows_after, recorded, recorded-IsLockedUntil,
}
use chicoree.LoginThrottle.Locks.{LocksUntil}

abbrev locked_account : Attempt
locked_account = record {
  key = str "account:bob";
  failures = 0;
  window_start = 4000;
  locked_until = some 904_000;
  updated_at = 4000;
}

abbrev table : List Attempt
table = locked_account ∷ []

account_key_of : account_key (str " Bob ") ≡ str "account:bob"
unfolding account_key
account_key_of = refl

free : row_of (str "account:ann") table ≡ none
unfolding row_of str_eq
free = refl

other : str_eq (str "account:ann") (str "account:bob") ≡ false
unfolding str_eq
other = refl

-- The failures of a client behind one address, which is counted first.
abbrev failure : ℕ → Failure
failure time = record {
  now = time;
  sweep = true;
  ahead = record { key = some (str "ip:10.0.0.1"); most = 30 } ∷ [];
  behind = [];
}

recorded-IsLockedUntil_example :
    StaysFree b'a' (str "ccount:ann") 3 (failure 1000 ∷ failure 2000 ∷ []) table
    × ((recorded b'a'
          (str "ccount:ann")
          3
          (failure 3000)
          (rows_after b'a' (str "ccount:ann") 3 (failure 1000 ∷ failure 2000 ∷ []) table)).0
        ≡ some (3000 + login_lock_time))
    × IsLockedUntil b'a'
        (str "ccount:ann")
        3
        (some (3000 + login_lock_time))
        (recorded b'a'
          (str "ccount:ann")
          3
          (failure 3000)
          (rows_after b'a' (str "ccount:ann") 3 (failure 1000 ∷ failure 2000 ∷ []) table)).1
unfolding str_eq
recorded-IsLockedUntil_example =
    recorded-IsLockedUntil b'a' (str "ccount:ann") 3 (failure 1000) (failure 3000)
      (failure 2000 ∷ []) table free (((refl, tt), tt), (((refl, tt), tt), (((refl, tt), tt), tt)))
      (omega arith, (omega arith, tt)) refl

abbrev bobs_keys : List (Option Str)
bobs_keys = some (str "account:bob") ∷ none ∷ []

abbrev bobs_lock : Lock
bobs_lock = record { locked_until = 904_000; retry_after_seconds = 899 }

bob_is_locked : login_lock bobs_keys 5000 table ≡ some bobs_lock
unfolding login_lock includes str_eq
bob_is_locked = refl

bobs_row : LocksUntil bobs_keys 5000 904_000 table
unfolding present_keys includes str_eq
bobs_row = record {
  row = locked_account;
  stored = Memᴰ.head refl;
  asked = refl;
  locked = refl;
  ahead = omega arith;
}
