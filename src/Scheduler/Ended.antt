-- ===== src/Scheduler/Ended.antt =====
-- Runs that are ended, as the pass ends those that it starts.
use chicoree.Prelude.{
  and_false, ◌≡◌, refl, sym, ap, ◌∙◌, Bool, true, false, ◌&&◌, ◌||◌, List, [], ◌∷◌, any,
  if◌then◌else◌, if-cases, Str, str_eq, str_eq_refl, true-false,
}
use chicoree.Scheduler.{
  Run, Ending, returns, throws, is_active, runs_of, is_running, set_runs, end_run,
}

pub is_running_cons :
    (job : Str) (r : Run) (rs : List Run)
    → is_running job (r ∷ rs) ≡ (str_eq r.job job && is_active r.status) || is_running job rs
unfolding is_running runs_of
is_running_cons job r rs =
    if-cases
      (λ (kept : List Run).
        any (λ (x : Run). is_active x.status) kept
        ≡ (str_eq r.job job && is_active r.status) || is_running job rs)
      (str_eq r.job job) (λ e. rw (e) refl) (λ e. rw (e) refl)

end_run-inactive : (e : Ending) (r : Run) → is_active (end_run e r).status ≡ false
unfolding end_run
end_run-inactive (returns result at) r = refl
end_run-inactive (throws message at) r = refl

or_mono :
    (a b c d : Bool)
    → (a ≡ true → c ≡ true)
    → (b ≡ true → d ≡ true)
    → (a || b) ≡ true
    → (c || d) ≡ true
or_mono true b c d f g h = rw (f refl) refl
or_mono false b true d f g h = refl
or_mono false b false d f g h = g h

-- Runs that are ended, as the pass ends those that it starts.
set_runs-running :
    (id job : Str) (e : Ending) (rs : List Run)
    → is_running job (set_runs id (end_run e) rs) ≡ true
    → is_running job rs ≡ true
unfolding set_runs
set_runs-running id job e [] h = h
set_runs-running id job e (r ∷ rs) h =
    let r' = if str_eq r.id id then end_run e r else r in
    is_running_cons job r rs
    ∙ or_mono (str_eq r'.job job && is_active r'.status)
        (is_running job (set_runs id (end_run e) rs)) (str_eq r.job job && is_active r.status)
        (is_running job rs)
        (if-cases
          (λ (x : Run).
            (str_eq x.job job && is_active x.status) ≡ true
            → (str_eq r.job job && is_active r.status) ≡ true)
          (str_eq r.id id)
          (λ _ k. absurd (
            true-false (
              sym k
              ∙ ap (λ a. str_eq (end_run e r).job job && a) (end_run-inactive e r)
              ∙ and_false (str_eq (end_run e r).job job))))
          (λ _ k. k))
        (set_runs-running id job e rs)
        (sym (is_running_cons job r' (set_runs id (end_run e) rs)) ∙ h)

-- A run that is ended as it was inserted leaves those before it.
pub ended-running :
    (other : Str) (e : Ending) (r : Run) (rs : List Run)
    → is_running other (set_runs r.id (end_run e) (r ∷ rs)) ≡ true
    → is_running other rs ≡ true
unfolding set_runs
ended-running other e r rs h =
    let r' = if str_eq r.id r.id then end_run e r else r in
    let gone : (str_eq r'.job other && is_active r'.status) ≡ false =
      if-cases (λ (x : Run). (str_eq x.job other && is_active x.status) ≡ false) (str_eq r.id r.id)
        (λ _.
          ap (λ a. str_eq (end_run e r).job other && a) (end_run-inactive e r)
          ∙ and_false (str_eq (end_run e r).job other))
        (λ d. absurd (true-false (sym (str_eq_refl r.id) ∙ d))) in
    set_runs-running r.id other e rs (
      sym (
        is_running_cons other r' (set_runs r.id (end_run e) rs)
        ∙ ap (λ a. a || is_running other (set_runs r.id (end_run e) rs)) gone)
      ∙ h)
