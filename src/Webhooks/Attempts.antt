-- ===== src/Webhooks/Attempts.antt =====
-- The attempts of a delivery end with the first answer that is none of the receiver's failures.
use chicoree.Prelude.{
  ℕ, zero, suc, ◌+◌, ◌≤◌, ◌≡◌, refl, sym, ap, ◌∙◌, subst, if-cases, ◌++◌, str, Bool, true, false,
  Option, none, some, List, [], ◌∷◌, length, ltb, if◌then◌else◌, Str, arith,
}
use chicoree.Webhooks.{
  Answer, responds, fails, untried, Outcome, responded, after_answer, attempt_each, Hook, Envelope,
  body, Host, Request, request_of, outcome_of,
}

-- An answer that is not tried again.
pub is_final : Answer → Bool
is_final (responds status text) = ltb status 500
is_final (fails message) = false

pub status_of : Answer → Option ℕ
status_of (responds status text) = some status
status_of (fails message) = none

-- The attempt that is the last one, of those from one on: the first with a final answer, or else the
-- last that there may be.
pub stops_at : (ℕ → Answer) → ℕ → ℕ → ℕ
unfolding is_final
stops_at answer n zero = n
stops_at answer n (suc k) =
    let rest = stops_at answer (n + 1) k in if is_final (answer n) then n else rest

stops_at-le : (answer : ℕ → Answer) (n k : ℕ) → stops_at answer n k ≤ n + k
unfolding stops_at
stops_at-le answer n zero = omega arith
stops_at-le answer n (suc k) = ground (arith, stops_at-le answer (n + 1) k)

module _ (number : ℕ → Str) (answer : ℕ → Answer) where
  abbrev Stops : ℕ → Outcome → Type 0
  Stops n o = (o.attempts ≡ n) × (o.status_code ≡ status_of (answer n))

  -- An attempt that is final ends the loop, and another one leaves its figures to the rest.
  after_answer-Stops :
      (last n : ℕ) (again : Outcome → Outcome) (a : Answer) (o : Outcome)
      → (is_final a ≡ true → last ≡ n)
      → answer n ≡ a
      → ((p : Outcome)
          → p.attempts ≡ n
          → p.status_code ≡ status_of (answer n)
          → is_final a ≡ false
          → Stops last (again p))
      → Stops last (after_answer number answer again n a o)
  unfolding after_answer is_final status_of
  after_answer-Stops last n again (fails message) o h e k =
      k (record { status_code = none; error = some message; snippet = o.snippet; attempts = n })
        refl (sym (ap status_of e)) refl
  after_answer-Stops last n again (responds status text) o h e k =
      if-cases (Stops last) (ltb status 500)
        (λ f. (sym (h f), sym (ap status_of (ap answer (h f) ∙ e))))
        (λ f.
          k (responded n status text (some (str "HTTP " ++ number status))) refl
            (sym (ap status_of e)) f)

  attempt_each-Stops :
      (delay : ℕ) (ds : List ℕ) (o : Outcome)
      → Stops
          (stops_at answer (o.attempts + 1) (length ds))
          (attempt_each number answer (delay ∷ ds) o)
  unfolding attempt_each stops_at
  attempt_each-Stops delay [] o =
      after_answer-Stops (o.attempts + 1) (o.attempts + 1) (λ p. p) (answer (o.attempts + 1)) o
        (λ f. refl) refl (λ p e q f. (e, q))
  attempt_each-Stops delay (d ∷ ds) o =
      let n = o.attempts + 1 in
      let later = stops_at answer (n + 1) (length ds) in
      after_answer-Stops (if is_final (answer n) then n else later) n
        (attempt_each number answer (d ∷ ds)) (answer n) o (λ f. rw (f) refl) refl
        (λ p e q f.
          let rest = attempt_each-Stops d ds p in
          let same = ap (λ m. stops_at answer (m + 1) (length ds)) e in
          rw (f) (subst (λ m. Stops m (attempt_each number answer (d ∷ ds) p)) same rest))

-- A delivery of a body stops at the first attempt that is answered with a status below 500, or else
-- at the last of at most three; the recorded number of attempts is that one's and the recorded
-- status is its answer's.
pub outcome_of-stops :
    (host : Host) (receiver : Request → ℕ → Answer) (hook : Hook) (payload : Envelope) (text : Str)
    → let answer = receiver (request_of host receiver hook payload text) in
      let last = stops_at answer 1 2 in
      let o = outcome_of host receiver hook payload (body text) in
      (o.attempts ≡ last) × (o.status_code ≡ status_of (answer last)) × (last ≤ 3)
unfolding outcome_of
outcome_of-stops host receiver hook payload text =
    let answer = receiver (request_of host receiver hook payload text) in
    let both = attempt_each-Stops host.number answer 0 (2000 ∷ 6000 ∷ []) untried in
    (both.0, both.1, stops_at-le answer 1 2)
