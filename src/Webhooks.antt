-- ===== src/Webhooks.antt =====
-- web/src/lib/webhooks.ts: the delivery of an event to the hooks that subscribe to it. Secrets, MACs,
-- JSON and the receivers are parameters; a request is answered or throws.
mod Rows
pub mod Attempts
pub mod Log
pub use Rows.*
use chicoree.Prelude.{
  ℕ, zero, suc, ◌+◌, Bool, true, false, not, ◌&&◌, ◌||◌, Option, none, some, get_or, is_some, List,
  [], ◌∷◌, ◌++◌, filter, take, ltb, leb, if◌then◌else◌, Str, str, str_eq, includes, is_empty,
}
use chicoree.Compare.Configs.{Entries, set_entry}

-- `[0, 2000, 6000]`
abbrev pub delays : List ℕ
delays = 0 ∷ 2000 ∷ 6000 ∷ []

abbrev pub webhook_log_max : ℕ
webhook_log_max = 50

unfoldable pub sends_body : Hook → Bool
unfolding str_eq
sends_body hook = not (str_eq hook.method (str "GET")) && not (str_eq hook.format (str "none"))

abbrev is_given : Option Str → Bool
is_given none = false
is_given (some s) = not (is_empty s)

abbrev responded : ℕ → ℕ → Str → Option Str → Outcome
responded n status text error = record {
  status_code = some status;
  error = error;
  snippet = some (take 500 text);
  attempts = n;
}

abbrev pub untried : Outcome
untried = record { status_code = none; error = none; snippet = none; attempts = 0 }

-- The attempt of a number is answered by `answer`.
module _ (number : ℕ → Str) (answer : ℕ → Answer) where
  -- Behind an attempt; `again` is the rest of the loop.
  after_answer : (Outcome → Outcome) → ℕ → Answer → Outcome → Outcome
  after_answer again n (responds status text) o =
      if ltb status 500
      then responded n status text none
      else again (responded n status text (some (str "HTTP " ++ number status)))
  after_answer again n (fails message) o =
      again (record { status_code = none; error = some message; snippet = o.snippet; attempts = n })

  pub attempt_each : List ℕ → Outcome → Outcome
  unfolding after_answer
  attempt_each [] o = o
  attempt_each (delay ∷ ds) o =
      after_answer (attempt_each ds) (o.attempts + 1) (answer (o.attempts + 1)) o

unfoldable pub is_ok : Option ℕ → Bool
is_ok none = false
is_ok (some status) = leb 200 status && ltb status 300

-- `ok ? null : (error ?? …)`
pub failure_text : (ℕ → Str) → Outcome → Option Str
unfolding is_ok
failure_text number o =
    if is_ok o.status_code
    then none
    else some (
        get_or o.error (elim o.status_code [
          | none ↦ str "HTTP null"
          | some status ↦ str "HTTP " ++ number status
        ]))

-- The newest deliveries of a hook stay, up to a number, and all of the others.
unfoldable pub keep_newest : Str → ℕ → List Delivery → List Delivery
unfolding str_eq
keep_newest id n [] = []
keep_newest id zero (d ∷ ds) =
    let rest = keep_newest id zero ds in if str_eq d.webhook_id id then rest else d ∷ rest
keep_newest id (suc n) (d ∷ ds) =
    let other = keep_newest id (suc n) ds in
    let kept = keep_newest id n ds in if str_eq d.webhook_id id then d ∷ kept else d ∷ other

pub delivery_of : Hook → Envelope → Outcome → Option Str → Delivery
unfolding is_ok
delivery_of hook payload o failed = record {
  webhook_id = hook.id;
  event = payload.event;
  status_code = o.status_code;
  ok = is_ok o.status_code;
  attempts = o.attempts;
  error = failed;
  response_snippet = o.snippet;
}

-- `{ …headers, …more }`
set_each : Entries → Entries → Entries
unfolding set_entry
set_each headers [] = headers
set_each headers (e ∷ es) = set_each (set_entry headers e.0 e.1) es

-- A test counts as a push.
unfoldable pub subscribed : Hook → Str → Bool
unfolding includes str_eq
subscribed hook event =
    includes hook.events (if str_eq event (str "test") then str "push" else event)

abbrev is_id : Option Str → Str → Bool
is_id none id = false
is_id (some s) id = str_eq s id

-- Enabled hooks of an organization that belong to no repository.
unfoldable pub hooks_for_organization : Str → List Hook → List Hook
hooks_for_organization organization_id =
    filter
      (λ h. is_id h.organization_id organization_id && (not (is_some h.repository_id) && h.enabled))

-- Those of the repository, and those of its organization.
unfoldable pub hooks_for_repository : Str → Str → List Hook → List Hook
unfolding hooks_for_organization
hooks_for_repository repository_id organization_id hooks =
    filter (λ h. is_id h.repository_id repository_id && h.enabled) hooks
    ++ hooks_for_organization organization_id hooks

update_hook : Str → (Hook → Hook) → List Hook → List Hook
unfolding str_eq
update_hook id f [] = []
update_hook id f (h ∷ hs) =
    let rest = update_hook id f hs in if str_eq h.id id then f h ∷ rest else h ∷ rest

module _ (host : Host) (receiver : Request → ℕ → Answer) where
  unfoldable pub render : Hook → Envelope → Rendered
  unfolding sends_body str_eq
  render hook payload =
      if not (sends_body hook)
      then body []
      else if str_eq hook.format (str "custom")
      then host.template (get_or hook.payload_template (str "{}")) payload
      else if not (is_empty hook.format) && not (str_eq hook.format (str "json"))
      then body (host.chat hook.format payload)
      else body (host.json payload)

  base_headers : Hook → Envelope → Entries
  unfolding sends_body set_each
  base_headers hook payload =
      let own =
        (str "User-Agent", str "Chicoree-Webhooks/1.0")
        ∷ (str "X-Chicoree-Event", payload.event)
        ∷ (str "X-Chicoree-Delivery", payload.delivery_id)
        ∷ [] in
      set_each (if sends_body hook then (str "Content-Type", str "application/json") ∷ own else own)
        hook.headers

  signed : Hook → Str → Entries → Entries
  unfolding set_entry
  signed hook text headers = elim (host.decrypt hook.signing_secret) [
    | none ↦ headers
    | some key ↦
        if is_empty key
        then headers
        else set_entry headers (str "X-Chicoree-Signature") (str "sha256=" ++ host.hmac key text)
  ]

  with_secret : Hook → Str → Entries → Entries
  unfolding set_entry str_eq
  with_secret hook secret headers =
      if str_eq hook.auth_type (str "bearer")
      then set_entry headers (str "Authorization") (str "Bearer " ++ secret)
      else if str_eq hook.auth_type (str "basic")
      then set_entry headers (str "Authorization") (str "Basic " ++ host.base64 secret)
      else if str_eq hook.auth_type (str "header") && is_given hook.auth_header_name
      then set_entry headers (get_or hook.auth_header_name []) secret
      else headers

  authorized : Hook → Entries → Entries
  unfolding with_secret
  authorized hook headers = elim (host.decrypt hook.auth_secret) [
    | none ↦ headers
    | some secret ↦ if is_empty secret then headers else with_secret hook secret headers
  ]

  unfoldable pub request_of : Hook → Envelope → Str → Request
  unfolding base_headers signed authorized sends_body
  request_of hook payload text = record {
    url = hook.url;
    method = hook.method;
    headers = authorized hook (signed hook text (base_headers hook payload));
    body = if sends_body hook then some text else none;
  }

  -- `if (templateError) error = templateError`, and the delays of the loop.
  pub started : Rendered → Outcome
  started (throws message) = record untried { error = some (str "payload template: " ++ message) }
  started (body text) = untried

  pub delays_of : Rendered → List ℕ
  delays_of (throws message) = []
  delays_of (body text) = delays

  pub text_of : Rendered → Str
  text_of (throws message) = []
  text_of (body text) = text

  unfoldable pub outcome_of : Hook → Envelope → Rendered → Outcome
  unfolding attempt_each request_of started delays_of text_of
  outcome_of hook payload rendered =
      attempt_each host.number (receiver (request_of hook payload (text_of rendered)))
        (delays_of rendered) (started rendered)

  noticed : Hook → Envelope → Outcome → Option Str → List Notice → List Notice
  unfolding is_ok str_eq
  noticed hook payload o failure notices =
      if not (is_ok o.status_code) && not (str_eq payload.event (str "test"))
      then record {
        hook_id = hook.id;
        event_name = payload.event;
        status_code = o.status_code;
        error = get_or failure (str "delivery failed");
        attempts = o.attempts;
      }
        ∷ notices
      else notices

  recorded : Hook → Envelope → ℕ → Outcome → Tables → Tables
  unfolding failure_text keep_newest update_hook noticed delivery_of
  recorded hook payload now o db =
      let failed = failure_text host.number o in
      record {
        hooks =
            update_hook hook.id
              (λ h. record h {
                last_status = o.status_code;
                last_delivered_at = some now;
                last_error = failed;
              })
              db.hooks;
        deliveries =
            keep_newest hook.id webhook_log_max (delivery_of hook payload o failed ∷ db.deliveries);
        notices = noticed hook payload o failed db.notices;
      }

  unfoldable pub deliver_webhook : Hook → Envelope → ℕ → Tables → Tables
  unfolding render outcome_of recorded
  deliver_webhook hook payload now db =
      recorded hook payload now (outcome_of hook payload (render hook payload)) db

  -- The deliveries of an event, one after the other: each changes rows of its own hook.
  deliver_all : List Hook → Envelope → ℕ → Tables → Tables
  unfolding deliver_webhook subscribed
  deliver_all [] payload now db = db
  deliver_all (h ∷ hs) payload now db =
      deliver_all hs payload now
        (if subscribed h payload.event then deliver_webhook h payload now db else db)

  unfoldable pub dispatch_repository_webhooks :
      (repository_id : Str) → (organization_id : Option Str) → Envelope → ℕ → Tables → Tables
  unfolding deliver_all hooks_for_repository
  dispatch_repository_webhooks repository_id none payload now db = db
  dispatch_repository_webhooks repository_id (some organization_id) payload now db =
      deliver_all (hooks_for_repository repository_id organization_id db.hooks) payload now db

  unfoldable pub dispatch_organization_webhooks : Str → Envelope → ℕ → Tables → Tables
  unfolding deliver_all hooks_for_organization
  dispatch_organization_webhooks organization_id payload now db =
      deliver_all (hooks_for_organization organization_id db.hooks) payload now db
