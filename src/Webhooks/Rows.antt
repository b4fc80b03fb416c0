-- ===== src/Webhooks/Rows.antt =====
-- The rows of hooks and their deliveries (web/src/db/registry-schema.ts), what a delivery is made of,
-- and what it calls (web/src/lib/webhooks.ts).
use chicoree.Prelude.{ℕ, Bool, Option, List, Str}
use chicoree.Compare.Configs.{Entries}

pub record Hook : Type 0 where
  pub id : Str
  pub repository_id : Option Str
  pub organization_id : Option Str
  pub url : Str
  pub method : Str
  pub headers : Entries
  pub auth_type : Str
  pub auth_header_name : Option Str
  pub auth_secret : Option Str
  pub signing_secret : Option Str
  pub format : Str
  pub payload_template : Option Str
  pub events : List Str
  pub enabled : Bool
  pub last_status : Option ℕ
  pub last_delivered_at : Option ℕ
  pub last_error : Option Str

-- The part of an event that every kind of it has.
pub record Envelope : Type 0 where
  pub event : Str
  pub delivery_id : Str

pub data Rendered : Type 0 where
  body : Str → Rendered
  throws : (message : Str) → Rendered

-- What the code calls and does not define: the renderers of bodies, the secrets and the MAC.
pub record Host : Type 0 where
  pub template : Str → Envelope → Rendered
  pub chat : (format : Str) → Envelope → Str
  pub json : Envelope → Str
  pub decrypt : Option Str → Option Str
  pub hmac : (key body : Str) → Str
  pub base64 : Str → Str
  pub number : ℕ → Str

pub record Request : Type 0 where
  pub url : Str
  pub method : Str
  pub headers : Entries
  pub body : Option Str

pub data Answer : Type 0 where
  responds : (status : ℕ) → (text : Str) → Answer
  fails : (message : Str) → Answer

-- The variables of a delivery.
pub record Outcome : Type 0 where
  pub status_code : Option ℕ
  pub error : Option Str
  pub snippet : Option Str
  pub attempts : ℕ

pub record Delivery : Type 0 where
  pub webhook_id : Str
  pub event : Str
  pub status_code : Option ℕ
  pub ok : Bool
  pub attempts : ℕ
  pub error : Option Str
  pub response_snippet : Option Str

-- What `notify` is told of a failed delivery.
pub record Notice : Type 0 where
  pub hook_id : Str
  pub event_name : Str
  pub status_code : Option ℕ
  pub error : Str
  pub attempts : ℕ

-- The log has the newest delivery first.
pub record Tables : Type 0 where
  pub hooks : List Hook
  pub deliveries : List Delivery
  pub notices : List Notice
