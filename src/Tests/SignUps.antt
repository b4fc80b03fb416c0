-- ===== src/Tests/SignUps.antt =====
-- Invitations to a registry that two domains may join.
use chicoree.Prelude.{◌≡◌, ◌↔◌, refl, true, false, none, some, List, [], ◌∷◌, Str, str, lower}
use chicoree.SignUp.{
  invite, AccessSettings, default_access, Invitation, pending, email_domain_allowed,
  parse_domain_list, enforce_sign_up_policy, enforce_mode, enforce_invite, check_invitation,
  find_pending_invitation, sent_to,
}
use chicoree.SignUp.Domains.{IsAllowed, email_domain_allowed-IsAllowed}
use chicoree.SignUp.Admission.{IsEntitled, enforce-IsEntitled}

abbrev domains : List Str
domains = str "example.com" ∷ str "corp.test" ∷ []

abbrev access : AccessSettings
access = record default_access { sign_up_mode = invite; allowed_email_domains = domains }

abbrev invitations : List Invitation
invitations =
    record {
      id = str "i1";
      email = str "ann@corp.test";
      organization_id = str "o";
      status = pending;
      expires_at = 100;
    }
    ∷ []

parsed : parse_domain_list (str "@Example.com, corp.test;;corp.test. no_domain") ≡ domains
unfolding parse_domain_list
parsed = refl

admitted :
    enforce_sign_up_policy invitations 50
      (some (str "Ann@corp.test"))
      access
      false
      (some (str "i1"))
    ≡ none
unfolding enforce_sign_up_policy enforce_mode enforce_invite check_invitation
    find_pending_invitation email_domain_allowed
admitted = refl

refused :
    enforce_sign_up_policy invitations 50
      (some (str "bob@a.corp.test"))
      access
      false
      (some (str "i1"))
    ≡ some (sent_to (str "ann@corp.test"))
unfolding enforce_sign_up_policy enforce_mode enforce_invite check_invitation
    find_pending_invitation email_domain_allowed
refused = refl

email_domain_allowed-IsAllowed_example :
    (email_domain_allowed (str "bob@a.corp.test") domains ≡ true)
    ↔ IsAllowed (str "bob@a.corp.test") domains
email_domain_allowed-IsAllowed_example =
    email_domain_allowed-IsAllowed (str "bob@a.corp.test") (str "example.com")
      (str "corp.test" ∷ [])

enforce-IsEntitled_example :
    (email_domain_allowed (lower (str "Ann@corp.test")) domains ≡ true)
    × IsEntitled invitations 50 (lower (str "Ann@corp.test")) invite false (str "i1")
enforce-IsEntitled_example =
    enforce-IsEntitled invitations 50 (some (str "Ann@corp.test")) access false (some (str "i1"))
      admitted
