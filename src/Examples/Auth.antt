-- ===== src/Examples/Auth.antt =====
-- Runs of the gates before a handler, and of the sessions table.
use nuclei_security_center.Common.{
  ◌≡◌, refl, ◌⊎◌, ◌≤◌, true, false, none, some, [], ◌∷◌, Chars, codes, str_eq, arith,
}
use nuclei_security_center.Auth.{
  Identity, resolved, lookup_failed, not_found, Request, bearer_token, answered, mutation,
  satisfies, role_operator, service_unavailable, require_auth_with_resolvers, resolve_service_token,
  role_rank, any_rank, equal_fold, has_prefix,
}
use nuclei_security_center.Auth.Origin.{same_origin_request, mutation_origin_allowed}
use nuclei_security_center.Auth.Gate.{mutation-authorized, malformed_token-unavailable}
use nuclei_security_center.Auth.Sessions.{
  SessionRow, count_live, max_live_sessions_per_subject, AuthFlow, take_auth_flow, get_session,
  delete_sessions_by_subject,
}
use nuclei_security_center.Auth.Sessions.Runs.{
  created, passed, session_event, session_events, session_events_capped, offboarded-get_session,
}
use nuclei_security_center.Auth.Sessions.Flows.{take_auth_flow_once}

abbrev ann : Identity
ann = record { subject = "ann"; email = ""; name = "Ann"; roles = "admin" ∷ [] }

abbrev with_token : Request
with_token = record {
  authorization = codes "bearer nsc_1";
  session_cookie = none;
  origins = [];
  sec_fetch_site = [];
}

abbrev with_other_token : Request
with_other_token = record {
  authorization = codes "Bearer abc";
  session_cookie = none;
  origins = [];
  sec_fetch_site = [];
}

-- An administrator with a token reaches an operator's handler.
mutation-authorized_example :
    (id : Identity) × (id ≡ ann)
    × (satisfies id role_operator ≡ true)
    × (((tok : Chars) × (bearer_token with_token ≡ some tok) × (resolved ann ≡ resolved id))
        ⊎ ((bearer_token with_token ≡ none)
            × (lookup_failed not_found ≡ resolved id)
            × (str_eq id.subject "" ≡ false)
            × (same_origin_request (λ s. none) (λ s. s) with_token [] ≡ true)))
unfolding equal_fold bearer_token require_auth_with_resolvers role_rank any_rank satisfies mutation
    mutation_origin_allowed
mutation-authorized_example =
    mutation-authorized (λ tok. resolved ann) (λ r. lookup_failed not_found) (λ s. none) (λ s. s) []
      role_operator with_token (λ id. id) ann refl

malformed_token-unavailable_example :
    require_auth_with_resolvers
      (resolve_service_token (λ s. "") (λ h. resolved ann))
      (λ r. resolved ann)
      true
      with_other_token
      (λ id. answered id)
    ≡ service_unavailable
unfolding equal_fold bearer_token has_prefix
malformed_token-unavailable_example =
    malformed_token-unavailable (λ tok. resolved ann) (λ r. resolved ann) (λ s. none) (λ s. s)
      (λ s. "") (λ h. resolved ann) with_other_token (codes "abc") (λ id. answered id) refl refl

abbrev row : SessionRow
row = record { id = "h"; identity = ann; created_at = 1; expires_at = 9 }

session_events_capped_example :
    count_live "ann"
      (session_events (λ a b. true) (λ s. s) (created row ∷ passed 2 ∷ created row ∷ []) (1, [])).0
      (session_events (λ a b. true) (λ s. s) (created row ∷ passed 2 ∷ created row ∷ []) (1, [])).1
    ≤ max_live_sessions_per_subject
session_events_capped_example =
    session_events_capped (λ a b. true) (λ s. s) "ann" (created row ∷ passed 2 ∷ created row ∷ []) 1

abbrev bob_row : SessionRow
bob_row = record {
  id = "b";
  identity = record { subject = "bob"; email = ""; name = ""; roles = [] };
  created_at = 1;
  expires_at = 9;
}

offboarded-get_session_example : str_eq "bob" "ann" ≡ false
unfolding delete_sessions_by_subject session_event session_events get_session
offboarded-get_session_example =
    offboarded-get_session (λ a b. true) (λ s. s) "ann" "b" 1 2 (row ∷ bob_row ∷ [])
      bob_row.identity refl

abbrev flow : AuthFlow
flow = record { state = "s"; nonce = "n"; pkce_verifier = "v"; return_to = ""; expires_at = 5 }

take_auth_flow_once_example : (take_auth_flow "s" 2 (take_auth_flow "s" 1 (flow ∷ [])).0).1 ≡ none
unfolding take_auth_flow
take_auth_flow_once_example = take_auth_flow_once "s" 1 2 (flow ∷ []) (omega arith)
