-- ===== src/Auth.antt =====
-- Who may call what: internal/backend/authz.go, `mutation` of internal/backend/audit.go and the bearer
-- tokens of internal/backend/serviceaccounts.go. A handler is the function from the caller's identity to
-- its answer. Texts of headers are code points. Audit records and metrics are not modelled.
pub mod Origin
pub mod Gate
pub mod Sessions
use nuclei_security_center.Common.{
  ℕ, ◌+◌, String, Bool, true, false, not, ◌&&◌, ◌||◌, Option, none, some, List, [], ◌∷◌, str_eq,
  chars_eq, concat, if◌then◌else◌, Chars, codes, length, take, drop, leb, ltb, ◌==◌,
}

pub record Identity : Type 0 where
  pub subject : String
  pub email : String
  pub name : String
  pub roles : List String

abbrev pub role_viewer : String
role_viewer = "viewer"

abbrev pub role_operator : String
role_operator = "operator"

abbrev pub role_admin : String
role_admin = "admin"

unfoldable pub role_rank : String → ℕ
role_rank r =
    if str_eq r role_viewer
    then 1
    else if str_eq r role_operator
    then 2
    else if str_eq r role_admin
    then 3
    else 0

unfoldable pub any_rank : ℕ → List String → Bool
unfolding role_rank
any_rank need [] = false
any_rank need (r ∷ roles) = if leb need (role_rank r) then true else any_rank need roles

unfoldable pub satisfies : Identity → String → Bool
unfolding any_rank
satisfies id required = any_rank (role_rank required) id.roles

abbrev pub dev_identity : Identity
dev_identity = record {
  subject = "dev";
  email = "";
  name = "";
  roles = role_admin ∷ role_operator ∷ role_viewer ∷ [];
}

-- `store.ErrNotFound`, or another error.
pub data Failure : Type 0 where
  not_found fault : Failure

pub data Lookup : Type 0 where
  resolved : Identity → Lookup
  lookup_failed : Failure → Lookup

-- `strings.EqualFold` with a text of ASCII: the letters' cases, the long s and the Kelvin sign.
abbrev simple_fold : ℕ → ℕ
simple_fold c =
    if leb 65 c && leb c 90 then c + 32 else if c == 383 then 115 else if c == 8490 then 107 else c

unfoldable pub equal_fold : Chars → Chars → Bool
equal_fold [] [] = true
equal_fold [] (d ∷ t) = false
equal_fold (c ∷ s) [] = false
equal_fold (c ∷ s) (d ∷ t) = (simple_fold c == simple_fold d) && equal_fold s t

-- The parts of a request that decide; an absent header is the empty text.
pub record Request : Type 0 where
  pub authorization : Chars
  pub session_cookie : Option Chars
  pub origins : List Chars
  pub sec_fetch_site : Chars

unfoldable pub bearer_token : Request → Option Chars
unfolding equal_fold
bearer_token r =
    let h = r.authorization in
    if leb (length h) 7 || not (equal_fold (take 7 h) (codes "Bearer "))
    then none
    else some (drop 7 h)

pub data AuthMethod : Type 0 where
  by_bearer by_session no_credential : AuthMethod

-- What is answered: by the handler, or 401 with how the caller tried, 503, and the two reasons for 403.
pub data Answer {ℓ} (R : Type ℓ) : Type ℓ where
  answered : R → Answer R
  unauthorized : AuthMethod → Answer R
  service_unavailable : Answer R
  insufficient_role : Answer R
  forbidden_origin : Answer R

abbrev pub tried : Option Chars → AuthMethod
tried none = no_credential
tried (some []) = no_credential
tried (some (c ∷ s)) = by_session

module _ {ℓ} {R : Type ℓ} (resolve_bearer : Chars → Lookup)
    (resolve_session : Request → Lookup) where
  abbrev pub after_bearer : Lookup → (Identity → Answer R) → Answer R
  after_bearer (resolved id) next = next id
  after_bearer (lookup_failed fault) next = service_unavailable
  after_bearer (lookup_failed not_found) next = unauthorized by_bearer

  abbrev pub after_session : Request → Lookup → (Identity → Answer R) → Answer R
  after_session r (lookup_failed e) next = service_unavailable
  after_session r (resolved id) next =
      if str_eq id.subject "" then unauthorized (tried r.session_cookie) else next id

  -- `enabled` says that authentication is configured.
  unfoldable pub require_auth_with_resolvers : Bool → Request → (Identity → Answer R) → Answer R
  unfolding bearer_token
  require_auth_with_resolvers enabled r next =
      if enabled
      then elim (bearer_token r) [
        | some tok ↦ after_bearer (resolve_bearer tok) next
        | none ↦ after_session r (resolve_session r) next
      ]
      else next dev_identity

  unfoldable pub require_role : Bool → String → Request → (Identity → R) → Answer R
  unfolding require_auth_with_resolvers satisfies
  require_role enabled role r next =
      require_auth_with_resolvers enabled r
        (λ id. if satisfies id role then answered (next id) else insufficient_role)

  unfoldable pub mutation : Bool → (Request → Bool) → String → Request → (Identity → R) → Answer R
  unfolding require_auth_with_resolvers satisfies
  mutation enabled origin_allowed role r next = require_auth_with_resolvers enabled r (λ id.
      if not (origin_allowed r)
      then forbidden_origin
      else if satisfies id role
      then answered (next id)
      else insufficient_role)

-- The store's rows for service accounts, and the identity that a live one gives.
pub record ServiceAccount : Type 0 where
  pub name : String
  pub role : String
  pub token_hash : String
  pub expires_at : Option ℕ

abbrev pub not_expired : ℕ → Option ℕ → Bool
not_expired now none = true
not_expired now (some t) = ltb now t

unfoldable pub authenticate_service_account : ℕ → List ServiceAccount → String → Lookup
authenticate_service_account now [] token_hash = lookup_failed not_found
authenticate_service_account now (a ∷ accounts) token_hash =
    let rest = authenticate_service_account now accounts token_hash in
    if str_eq a.token_hash token_hash && not_expired now a.expires_at
    then resolved
        (record { subject = concat "svc:" a.name; email = ""; name = a.name; roles = a.role ∷ [] })
    else rest

-- `strings.HasPrefix`
unfoldable pub has_prefix : Chars → Chars → Bool
has_prefix s [] = true
has_prefix [] (d ∷ p) = false
has_prefix (c ∷ s) (d ∷ p) = (c == d) && has_prefix s p

abbrev pub token_scheme : Chars
token_scheme = codes "nsc_"

-- `hash_token` is the SHA-256 of the token in hexadecimal; `authenticate` is the store's answer.
unfoldable pub resolve_service_token : (Chars → String) → (String → Lookup) → Chars → Lookup
unfolding has_prefix
resolve_service_token hash_token authenticate token =
    if has_prefix token token_scheme then authenticate (hash_token token) else lookup_failed fault
