-- ===== src/Auth/Gate.antt =====
-- Who reaches a handler behind the gates, and who does not.
use nuclei_security_center.Common.{
  ℕ, ◌≡◌, refl, ◌⊎◌, inl, inr, String, Bool, true, false, not, Option, none, some, List, [], ◌∷◌,
  str_eq, if◌then◌else◌, Chars, arith, Bool-cases, Option-cases, ◌≤◌,
}
use nuclei_security_center.Auth.{
  Identity, any_rank, satisfies, not_found, fault, Lookup, resolved, lookup_failed, Request,
  bearer_token, Answer, answered, service_unavailable, insufficient_role, forbidden_origin,
  after_bearer, after_session, require_auth_with_resolvers, require_role, mutation, has_prefix,
  token_scheme, resolve_service_token,
}
use nuclei_security_center.Auth.Origin.{Url, mutation_origin_allowed, same_origin_request}

-- A role of at least the rank of another one.
pub any_rank_mono :
    (m n : ℕ) (roles : List String) → m ≤ n → any_rank n roles ≡ true → any_rank m roles ≡ true
unfolding any_rank
any_rank_mono m n [] h e = e
any_rank_mono m n (r ∷ roles) h e = ground (arith, any_rank_mono m n roles)

-- Whom a request that is answered by a handler comes from, where authentication is configured.
abbrev pub Authenticated : (Chars → Lookup) → (Request → Lookup) → Request → Identity → Type 0
Authenticated resolve_bearer resolve_session r id =
    ((tok : Chars) × (bearer_token r ≡ some tok) × (resolve_bearer tok ≡ resolved id))
    ⊎ ((bearer_token r ≡ none) × (resolve_session r ≡ resolved id) × (str_eq id.subject "" ≡ false))

module _ {ℓ} {R : Type ℓ} (resolve_bearer : Chars → Lookup) (resolve_session : Request → Lookup)
    (r : Request) (next : Identity → Answer R) (x : R) where
  after_bearer-answered :
      (l : Lookup)
      → after_bearer resolve_bearer resolve_session l next ≡ answered x
      → (id : Identity) × (l ≡ resolved id) × (next id ≡ answered x)
  after_bearer-answered (resolved id) h = (id, refl, h)
  after_bearer-answered (lookup_failed fault) h = ground arith
  after_bearer-answered (lookup_failed not_found) h = ground arith

  after_session-answered :
      (l : Lookup)
      → after_session resolve_bearer resolve_session r l next ≡ answered x
      → (id : Identity) × (l ≡ resolved id)
        × (str_eq id.subject "" ≡ false)
        × (next id ≡ answered x)
  after_session-answered (lookup_failed e) h = ground arith
  after_session-answered (resolved id) h = elim (Bool-cases (str_eq id.subject "")) [
    | inl p ↦ ground arith
    | inr p ↦ (id, refl, p, ground arith)
  ]

  require_auth-Authenticated :
      require_auth_with_resolvers resolve_bearer resolve_session true r next ≡ answered x
      → (id : Identity) × Authenticated resolve_bearer resolve_session r id × (next id ≡ answered x)
  unfolding require_auth_with_resolvers
  require_auth-Authenticated h = elim (Option-cases (bearer_token r)) [
    | inr (tok, e) ↦
        let (id, k, n) =
          after_bearer-answered (resolve_bearer tok) (rw (require_auth_with_resolvers, e) at h) in
        (id, inl (tok, e, k), n)
    | inl e ↦
        let (id, k, p, n) =
          after_session-answered (resolve_session r) (rw (require_auth_with_resolvers, e) at h) in
        (id, inr (e, k, p), n)
  ]

module _ {ℓ} {R : Type ℓ} (resolve_bearer : Chars → Lookup) (resolve_session : Request → Lookup)
    (parse_url : Chars → Option Url) (to_lower : Chars → Chars) where
  past_gates :
      (allowed sufficient : Bool) (v x : R)
      → (if not allowed
          then forbidden_origin
          else if sufficient
          then answered v
          else insufficient_role)
        ≡ answered x
      → (allowed ≡ true) × (sufficient ≡ true) × (v ≡ x)
  past_gates true true v x h = (refl, refl, ground arith)
  past_gates true false v x h = ground arith
  past_gates false b v x h = ground arith

  -- Where authentication is configured, a mutating handler answers only a caller that has the role,
  -- and that either has given a bearer token that resolves, or has given none, has a live session of
  -- a known subject, and comes from the configured origin.
  pub mutation-authorized :
      (public_origin : Chars) (role : String) (r : Request) (next : Identity → R) (x : R)
      → mutation resolve_bearer resolve_session true
          (mutation_origin_allowed parse_url to_lower true public_origin)
          role
          r
          next
        ≡ answered x
      → (id : Identity) × (next id ≡ x)
        × (satisfies id role ≡ true)
        × (((tok : Chars) × (bearer_token r ≡ some tok) × (resolve_bearer tok ≡ resolved id))
            ⊎ ((bearer_token r ≡ none)
                × (resolve_session r ≡ resolved id)
                × (str_eq id.subject "" ≡ false)
                × (same_origin_request parse_url to_lower r public_origin ≡ true)))
  unfolding mutation mutation_origin_allowed
  mutation-authorized public_origin role r next x h =
      let (id, who, e) = require_auth-Authenticated resolve_bearer resolve_session r _ x h in
      let (allowed, sufficient, n) =
        past_gates (mutation_origin_allowed parse_url to_lower true public_origin r)
          (satisfies id role) (next id) x e in
      elim who [
        | inl (tok, t, k) ↦ (id, n, sufficient, inl (tok, t, k))
        | inr (t, k, p) ↦
            (id, n, sufficient, inr (t, k, p, rw (mutation_origin_allowed, t) at allowed))
      ]

  -- The same of a handler that only reads, without the origin.
  pub require_role-authorized :
      (role : String) (r : Request) (next : Identity → R) (x : R)
      → require_role resolve_bearer resolve_session true role r next ≡ answered x
      → (id : Identity) × (next id ≡ x)
        × (satisfies id role ≡ true)
        × Authenticated resolve_bearer resolve_session r id
  unfolding require_role
  require_role-authorized role r next x h =
      let (id, who, e) = require_auth-Authenticated resolve_bearer resolve_session r _ x h in
      elim (Bool-cases (satisfies id role)) [
        | inl p ↦ (id, ground arith, p, who)
        | inr p ↦ ground arith
      ]

  -- A bearer token without the service accounts' prefix is answered with 503, not with 401.
  pub malformed_token-unavailable :
      (hash_token : Chars → String) (authenticate : String → Lookup) (r : Request) (tok : Chars)
      (next : Identity → Answer R)
      → bearer_token r ≡ some tok
      → has_prefix tok token_scheme ≡ false
      → require_auth_with_resolvers
          (resolve_service_token hash_token authenticate)
          resolve_session
          true
          r
          next
        ≡ service_unavailable
  unfolding require_auth_with_resolvers resolve_service_token
  malformed_token-unavailable hash_token authenticate r tok next e p =
      rw (require_auth_with_resolvers, e, resolve_service_token, p) refl
