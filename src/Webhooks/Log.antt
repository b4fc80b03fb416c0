-- ===== src/Webhooks/Log.antt =====
-- What a delivery leaves in the log and in the row of the hook.
use chicoree.Prelude.{
  ℕ, zero, suc, ◌≤◌, ◌≡◌, refl, ◌∙◌, Bool, not, List, [], ◌∷◌, filter, length, Str, str_eq,
  str_eq_refl, arith,
}
use chicoree.Webhooks.{
  Hook, Envelope, Host, Request, Answer, Delivery, Tables, webhook_log_max, keep_newest,
  failure_text, delivery_of, render, outcome_of, recorded, deliver_webhook,
}

-- The deliveries of a hook, and those of the others.
abbrev pub of_hook : Str → Delivery → Bool
of_hook id d = str_eq d.webhook_id id

keep_newest-bound :
    (id : Str) (n : ℕ) (ds : List Delivery) → length (filter (of_hook id) (keep_newest id n ds)) ≤ n
unfolding keep_newest
keep_newest-bound id n [] = omega arith
keep_newest-bound id zero (d ∷ ds) = ground (arith, keep_newest-bound id zero ds)
keep_newest-bound id (suc n) (d ∷ ds) =
    ground (arith, keep_newest-bound id (suc n) ds, keep_newest-bound id n ds)

keep_newest-others :
    (id : Str) (n : ℕ) (ds : List Delivery)
    → filter (λ d. not (of_hook id d)) (keep_newest id n ds) ≡ filter (λ d. not (of_hook id d)) ds
unfolding keep_newest
keep_newest-others id n [] = refl
keep_newest-others id zero (d ∷ ds) = ground (arith, keep_newest-others id zero ds)
keep_newest-others id (suc n) (d ∷ ds) =
    ground (arith, keep_newest-others id (suc n) ds, keep_newest-others id n ds)

keep_newest-first :
    (n : ℕ) (d : Delivery) (ds : List Delivery)
    → keep_newest d.webhook_id (suc n) (d ∷ ds) ≡ d ∷ keep_newest d.webhook_id n ds
unfolding keep_newest
keep_newest-first n d ds = rw (str_eq_refl d.webhook_id) refl

module _ (host : Host) (receiver : Request → ℕ → Answer) (hook : Hook) (payload : Envelope)
    (now : ℕ) (db : Tables) where
  -- The log after a delivery: the deliveries of the hook are no more than the limit, those of the
  -- others are what they were, and the delivery is the newest.
  pub record IsLogged (ds : List Delivery) : Type 0 where
    pub bound : length (filter (of_hook hook.id) ds) ≤ webhook_log_max
    pub others :
        filter (λ d. not (of_hook hook.id d)) ds
        ≡ filter (λ d. not (of_hook hook.id d)) db.deliveries
    pub newest :
        let o = outcome_of host receiver hook payload (render host receiver hook payload) in
        (rest : List Delivery) × (ds
          ≡ delivery_of hook payload o (failure_text host.number o) ∷ rest)

  -- After a delivery the log has at most fifty deliveries of the hook, the newest of them the one
  -- that was made, and those of the other hooks as before.
  pub deliver_webhook-IsLogged :
      IsLogged (deliver_webhook host receiver hook payload now db).deliveries
  unfolding deliver_webhook recorded delivery_of
  deliver_webhook-IsLogged =
      let o = outcome_of host receiver hook payload (render host receiver hook payload) in
      let d = delivery_of hook payload o (failure_text host.number o) in
      record {
        bound = keep_newest-bound hook.id 50 (d ∷ db.deliveries);
        others = keep_newest-others hook.id 50 (d ∷ db.deliveries) ∙ rw (str_eq_refl hook.id) refl;
        newest = (keep_newest hook.id 49 db.deliveries, keep_newest-first 49 d db.deliveries);
      }
