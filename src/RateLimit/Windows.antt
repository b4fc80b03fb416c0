-- ===== src/RateLimit/Windows.antt =====
-- How many requests of a window pass.
use chicoree.Prelude.{
  ℕ, suc, ◌+◌, ◌-◌, min, ltb, ◌==◌, ◌≡◌, refl, Bool, not, true, false, Bool-cases, Option, none,
  some, inl, inr, List, [], ◌∷◌, All, length, Str, str_eq, str_eq_refl, arith, if◌then◌else◌,
}
use chicoree.RateLimit.{
  RateLimit, Counter, ApiCaller, Outcome, unlimited, allowed, rate_limited, is_administrator,
  limit_for, key_for, window_start_of, counted, count_request, counter_of, count_of, judge,
  count_against, check_api_rate_limit,
}

-- The requests of the key that the window has counted.
abbrev pub in_window : ℕ → Option Counter → ℕ
in_window start none = 0
in_window start (some r) = if r.window_start == start then r.count else 0

counter_of-count_request :
    (key : Str) (start : ℕ) (rows : List Counter)
    → (r : Counter) × ((counter_of key (count_request key start rows) ≡ some r)
        × ((r.window_start ≡ start) × (r.count ≡ suc (in_window start (counter_of key rows)))))
unfolding counter_of count_request counted
counter_of-count_request key start [] = (
  record { key = key; window_start = start; count = 1 },
  (rw (str_eq_refl key) refl, (refl, refl)),
)
counter_of-count_request key start (r ∷ rows) = elim (Bool-cases (str_eq r.key key)) [
  | inl e ↦ rw (e, e) (counted start r, (refl, (refl, ground arith)))
  | inr e ↦ rw (e, e) (counter_of-count_request key start rows)
]

is_allowed : Outcome → Bool
is_allowed unlimited = false
is_allowed (allowed state) = true
is_allowed (rate_limited state retry_after) = false

-- How many of the outcomes let the request through under the limit.
pub passed : List Outcome → ℕ
passed [] = 0
passed (o ∷ os) = (if is_allowed o then 1 else 0) + passed os

module _ (c : ApiCaller) (ip : Option Str)
    (for_anonymous for_authenticated : Option RateLimit) where
  -- The requests of a caller, one after the other.
  pub requests : List ℕ → List Counter → List Outcome
  requests [] rows = []
  requests (now ∷ times) rows =
      let done = check_api_rate_limit c ip for_anonymous for_authenticated now rows in
      done.0 ∷ requests times done.1

  module _ (limit : RateLimit) (limited : is_administrator c ≡ false)
      (its : limit_for c for_anonymous for_authenticated ≡ some limit) where
    -- What one request adds.
    request-counts :
        (start now : ℕ) (rows : List Counter)
        → window_start_of limit now ≡ start
        → (n : ℕ) × ((n ≡ suc (in_window start (counter_of (key_for c ip) rows)))
            × ((is_allowed (check_api_rate_limit c ip for_anonymous for_authenticated now rows).0
                  ≡ not (ltb limit.count n))
                × (in_window start (
                      counter_of
                        (key_for c ip)
                        (check_api_rate_limit c ip for_anonymous for_authenticated now rows).1)
                    ≡ n)))
    unfolding check_api_rate_limit count_against judge count_of is_allowed
    request-counts start now rows e =
        let new = counter_of-count_request (key_for c ip) start rows in
        rw (limited, its, e, new.1.0)
          (new.0.count, (new.1.1.1, (ground arith, ground (arith, new.1.1.0))))

    passed-step :
        (count n rest : ℕ) (times : List ℕ) (b : Bool)
        → b ≡ not (ltb count (suc n))
        → rest ≡ min (length times) (count - suc n)
        → (if b then 1 else 0) + rest ≡ min (suc (length times)) (count - n)
    passed-step count n rest times b e h = ground arith

    -- Of the requests of a caller under a limit that fall into one window, as many pass as the
    -- window has left when they begin, or all of them where they are fewer.
    pub requests-passed :
        (start : ℕ) (times : List ℕ) (rows : List Counter)
        → All (λ now. window_start_of limit now ≡ start) times
        → passed (requests times rows)
          ≡ min (length times) (limit.count - in_window start (counter_of (key_for c ip) rows))
    unfolding requests passed
    requests-passed start [] rows h = omega arith
    requests-passed start (now ∷ times) rows h =
        let done = check_api_rate_limit c ip for_anonymous for_authenticated now rows in
        let n = in_window start (counter_of (key_for c ip) rows) in
        let rest = requests-passed start times done.1 h.1 in
        let step = request-counts start now rows h.0 in
        passed-step limit.count n (passed (requests times done.1)) times (is_allowed done.0)
          (ground (arith, step.1.0, step.1.1.0)) (rw (step.1.1.1, step.1.0) at rest)
