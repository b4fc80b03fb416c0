-- ===== src/SignUp.antt =====
-- web/src/lib/access-shared.ts and web/src/lib/signup-policy.ts: who may create an account.
-- `null` is `none`; `now` is the time of the query in milliseconds.
pub mod Domains
pub mod Admission
use chicoree.Prelude.{
  ℕ, Bool, true, false, not, ◌&&◌, ◌||◌, Option, none, some, List, [], ◌∷◌, ◌++◌, ltb, leb, ◌==◌,
  get_or, is_some, if◌then◌else◌, Str, str, str_eq, includes, is_empty, is_space, trim, lower,
  split_words, any, all, find, length,
}

pub data SignUpMode : Type 0 where
  «open» invite closed : SignUpMode

pub data OrgCreationPolicy : Type 0 where
  everyone admins : OrgCreationPolicy

pub data LocalSignInMode : Type 0 where
  everyone hidden off : LocalSignInMode

pub record AccessSettings : Type 0 where
  pub sign_up_mode : SignUpMode
  pub allowed_email_domains : List Str
  pub allow_organization_creation : OrgCreationPolicy
  pub max_token_lifetime_days : ℕ
  pub require_token_expiry : Bool
  pub local_sign_in : LocalSignInMode
  pub local_sign_in_path : Str
  pub api_enabled : Bool
  pub mirroring : Bool
  pub mirrors_require_credentials : Bool
  pub proxy_caches : Bool

abbrev pub default_access : AccessSettings
default_access = record {
  sign_up_mode = «open»;
  allowed_email_domains = [];
  allow_organization_creation = OrgCreationPolicy.everyone;
  max_token_lifetime_days = 0;
  require_token_expiry = false;
  local_sign_in = LocalSignInMode.everyone;
  local_sign_in_path = str "local";
  api_enabled = true;
  mirroring = true;
  mirrors_require_credentials = false;
  proxy_caches = true;
}

pub data MirroringMode : Type 0 where
  on credentials off : MirroringMode

unfoldable pub mirroring_mode : AccessSettings → MirroringMode
mirroring_mode access =
    if not access.mirroring
    then MirroringMode.off
    else if access.mirrors_require_credentials
    then MirroringMode.credentials
    else MirroringMode.on

-- The text behind the last `@`, if there is one.
unfoldable pub behind_at : Str → Option Str
behind_at [] = none
behind_at (c ∷ s) =
    let rest = behind_at s in if is_some rest then rest else if c == b'@' then some s else none

-- `s.endsWith(t)`
unfoldable pub ends_with : Str → Str → Bool
unfolding str_eq
ends_with [] t = is_empty t
ends_with (c ∷ s) t = str_eq (c ∷ s) t || ends_with s t

unfoldable pub under : Str → Str → Bool
unfolding ends_with
under domain d = str_eq domain d || ends_with domain (b'.' ∷ d)

domain_allowed : List Str → Option Str → Bool
unfolding under lower
domain_allowed domains none = false
domain_allowed domains (some domain) = any (under (lower domain)) domains

unfoldable pub email_domain_allowed : Str → List Str → Bool
unfolding domain_allowed behind_at
email_domain_allowed email domains =
    if is_empty domains then true else domain_allowed domains (behind_at email)

-- `[a-z0-9.-]`
domain_char : ℕ → Bool
domain_char c = (leb b'a' c && leb c b'z') || (leb b'0' c && leb c b'9') || c == b'.' || c == b'-'

-- `replace(/^@/, "")`
abbrev strip_at : Str → Str
strip_at [] = []
strip_at (c ∷ s) = if c == b'@' then s else c ∷ s

-- `replace(/\.$/, "")`
strip_dot : Str → Str
strip_dot [] = []
strip_dot (c ∷ []) = if c == b'.' then [] else c ∷ []
strip_dot (c ∷ d ∷ s) = c ∷ strip_dot (d ∷ s)

abbrev separator : ℕ → Bool
separator c = is_space c || c == b',' || c == b';'

clean_domain : Str → Str
unfolding trim lower strip_dot
clean_domain part = strip_dot (strip_at (lower (trim part)))

-- The loop, with the values seen so far in the order of insertion.
collect_domains : List Str → List Str → List Str
unfolding clean_domain domain_char includes
collect_domains seen [] = seen
collect_domains seen (part ∷ parts) =
    let d = clean_domain part in
    let kept = if includes seen d then seen else seen ++ d ∷ [] in
    collect_domains (if not (is_empty d) && all domain_char d then kept else seen) parts

unfoldable pub parse_domain_list : Str → List Str
unfolding collect_domains split_words is_space
parse_domain_list raw = collect_domains [] (split_words separator raw)

-- `type` is the field of the body, `none` where there is no body or no field.
unfoldable pub is_local_sign_in_request : Str → Option Str → Bool
unfolding str_eq
is_local_sign_in_request path type =
    if str_eq path (str "/sign-in/email")
      || str_eq path (str "/sign-in/magic-link")
      || str_eq path (str "/sign-in/email-otp")
    then true
    else if str_eq path (str "/email-otp/send-verification-otp")
    then is_empty (get_or type []) || str_eq (get_or type []) (str "sign-in")
    else false

pub data InvitationStatus : Type 0 where
  pending accepted rejected canceled : InvitationStatus

-- A row of the table of invitations; its organization is a foreign key.
pub record Invitation : Type 0 where
  pub id : Str
  pub email : Str
  pub organization_id : Str
  pub status : InvitationStatus
  pub expires_at : ℕ

abbrev is_pending : InvitationStatus → Bool
is_pending pending = true
is_pending accepted = false
is_pending rejected = false
is_pending canceled = false

abbrev pub usable : ℕ → Invitation → Bool
usable now i = is_pending i.status && ltb now i.expires_at

module _ (invitations : List Invitation) (now : ℕ) where
  unfoldable pub find_pending_invitation : Str → Option Invitation
  unfolding str_eq
  find_pending_invitation id =
      if is_empty id || ltb 100 (length id)
      then none
      else find (λ i. str_eq i.id id && usable now i) invitations

  unfoldable pub has_pending_invitation_for : Str → Bool
  unfolding str_eq
  has_pending_invitation_for email = any (λ i. str_eq i.email email && usable now i) invitations

-- Why an account may not be created; the texts of the messages.
pub data Denial : Type 0 where
  domain_restricted sign_up_closed sign_up_by_invitation invitation_invalid : Denial
  sent_to : Str → Denial

module _ (invitations : List Invitation) (now : ℕ) where
  unfoldable pub check_invitation : Str → Option Invitation → Option Denial
  unfolding lower
  check_invitation email none = some invitation_invalid
  check_invitation email (some i) =
      if str_eq (lower i.email) email then none else some (sent_to i.email)

  -- The branch of the mode `invite`; an empty id counts as none.
  unfoldable pub enforce_invite : Str → Option Str → Option Denial
  enforce_invite email invitation_id =
      if is_empty (get_or invitation_id [])
      then (if has_pending_invitation_for invitations now email
          then none
          else some sign_up_by_invitation)
      else check_invitation email
          (find_pending_invitation invitations now (get_or invitation_id []))

  unfoldable pub enforce_mode : SignUpMode → Str → Option Str → Option Denial
  enforce_mode «open» email invitation_id = none
  enforce_mode closed email invitation_id = some sign_up_closed
  enforce_mode invite email invitation_id = enforce_invite email invitation_id

  -- The error that is thrown, `none` where the account may be created.
  unfoldable pub enforce_sign_up_policy :
      Option Str → AccessSettings → (is_first_user : Bool) → Option Str → Option Denial
  enforce_sign_up_policy email access is_first_user invitation_id =
      let address = lower (get_or email []) in
      if not (email_domain_allowed address access.allowed_email_domains)
      then some domain_restricted
      else if is_first_user
      then none
      else enforce_mode access.sign_up_mode address invitation_id

abbrev only_admins : OrgCreationPolicy → Bool
only_admins OrgCreationPolicy.everyone = false
only_admins OrgCreationPolicy.admins = true

unfoldable pub can_create_organization : AccessSettings → Option Str → Bool
unfolding str_eq
can_create_organization access role =
    not (only_admins access.allow_organization_creation) || str_eq (get_or role []) (str "admin")
