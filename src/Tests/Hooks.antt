-- ===== src/Tests/Hooks.antt =====
-- Deliveries to a receiver that fails first, and to none.
use chicoree.Prelude.{ℕ, suc, ◌≤◌, ◌≡◌, refl, true, none, some, [], ◌∷◌, str, str_eq, includes}
use chicoree.Webhooks.{
  Hook, Envelope, body, throws, Host, Request, Answer, responds, Tables, request_of, outcome_of,
  render, deliver_webhook, subscribed, sends_body,
}
use chicoree.Webhooks.Attempts.{stops_at, status_of, outcome_of-stops}
use chicoree.Webhooks.Log.{IsLogged, deliver_webhook-IsLogged}

abbrev hook : Hook
hook = record {
  id = str "h1";
  repository_id = some (str "r1");
  organization_id = none;
  url = str "https://ci.example.com/hook";
  method = str "POST";
  headers = [];
  auth_type = str "none";
  auth_header_name = none;
  auth_secret = none;
  signing_secret = some (str "key");
  format = str "custom";
  payload_template = some (str "{");
  events = str "push" ∷ [];
  enabled = true;
  last_status = none;
  last_delivered_at = none;
  last_error = none;
}

abbrev push : Envelope
push = record { event = str "push"; delivery_id = str "d1" }

-- The template of the hook is no JSON.
abbrev host : Host
host = record {
  template = λ template payload. throws (str "Unexpected end of JSON input");
  chat = λ format payload. [];
  json = λ payload. str "{}";
  decrypt = λ secret. secret;
  hmac = λ key text. str "00";
  base64 = λ text. text;
  number = λ n. str "503";
}

-- Unavailable once, and then it accepts.
abbrev waking : Request → ℕ → Answer
waking request (suc (suc n)) = responds 204 []
waking request n = responds 503 (str "starting")

abbrev empty_tables : Tables
empty_tables = record { hooks = hook ∷ []; deliveries = []; notices = [] }

test_is_push : subscribed hook (str "test") ≡ true
unfolding subscribed includes str_eq
test_is_push = refl

outcome_of-stops_example :
    ((outcome_of host waking hook push (body (str "{}"))).attempts
      ≡ stops_at (waking (request_of host waking hook push (str "{}"))) 1 2)
    × ((outcome_of host waking hook push (body (str "{}"))).status_code
        ≡ status_of (
            waking
              (request_of host waking hook push (str "{}"))
              (stops_at (waking (request_of host waking hook push (str "{}"))) 1 2)))
    × (stops_at (waking (request_of host waking hook push (str "{}"))) 1 2 ≤ 3)
outcome_of-stops_example = outcome_of-stops host waking hook push (str "{}")

deliver_webhook-IsLogged_example :
    IsLogged host waking hook push 1000 empty_tables
      (deliver_webhook host waking hook push 1000 empty_tables).deliveries
deliver_webhook-IsLogged_example = deliver_webhook-IsLogged host waking hook push 1000 empty_tables

broken_template : render host waking hook push ≡ throws (str "Unexpected end of JSON input")
unfolding render sends_body str_eq
broken_template = refl
