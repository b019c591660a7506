-- ===== src/Auth/Sessions.antt =====
-- The tables sessions and auth_flows, internal/store/auth.go. `hash` is the SHA-256 of a cookie value in
-- hexadecimal and `before` PostgreSQL's order of ids; the database's clock is an argument.
pub mod Cap
pub mod Runs
pub mod Flows
use nuclei_security_center.Common.{
  ℕ, suc, zero, ◌+◌, ◌-◌, String, Bool, true, false, not, ◌&&◌, ◌||◌, Option, none, some, List, [],
  ◌∷◌, str_eq, if◌then◌else◌, leb, ltb, ◌==◌,
}
use nuclei_security_center.Auth.{Identity, Lookup, resolved, lookup_failed, not_found, Request}

pub record SessionRow : Type 0 where
  pub id : String
  pub identity : Identity
  pub created_at : ℕ
  pub expires_at : ℕ

abbrev pub max_live_sessions_per_subject : ℕ
max_live_sessions_per_subject = 20

-- `subject = $1 AND expires_at > now()`
abbrev pub is_live : String → ℕ → SessionRow → Bool
is_live subject now s = str_eq s.identity.subject subject && ltb now s.expires_at

unfoldable pub count_live : String → ℕ → List SessionRow → ℕ
count_live subject now [] = 0
count_live subject now (s ∷ rows) =
    let rest = count_live subject now rows in if is_live subject now s then suc rest else rest

unfoldable pub has_id : String → List SessionRow → Bool
has_id id [] = false
has_id id (s ∷ rows) = str_eq s.id id || has_id id rows

module _ (before : String → String → Bool) where
  -- `ORDER BY created_at ASC, id ASC`
  abbrev pub older : SessionRow → SessionRow → Bool
  older s t = ltb s.created_at t.created_at || ((s.created_at == t.created_at) && before s.id t.id)

  -- The oldest live session of the subject, and the other rows.
  abbrev pub choose :
      Bool
      → SessionRow
      → List SessionRow
      → Option (SessionRow × List SessionRow)
      → Option (SessionRow × List SessionRow)
  choose false s rows none = none
  choose true s rows none = some (s, rows)
  choose false s rows (some (t, rest)) = some (t, s ∷ rest)
  choose true s rows (some (t, rest)) = if older t s then some (t, s ∷ rest) else some (s, rows)

  unfoldable pub take_oldest : String → ℕ → List SessionRow → Option (SessionRow × List SessionRow)
  take_oldest subject now [] = none
  take_oldest subject now (s ∷ rows) =
      choose (is_live subject now s) s rows (take_oldest subject now rows)

  -- The DELETE of the oldest live sessions, `LIMIT n`.
  unfoldable pub evict : ℕ → String → ℕ → List SessionRow → List SessionRow
  unfolding take_oldest
  evict zero subject now rows = rows
  evict (suc n) subject now rows = elim (take_oldest subject now rows) [
    | none ↦ rows
    | some (s, rest) ↦ evict n subject now rest
  ]

  -- Where the id is taken, the insert fails and the transaction is rolled back.
  unfoldable pub create_session : SessionRow → ℕ → List SessionRow → List SessionRow
  unfolding count_live evict has_id
  create_session s now rows =
      let live = count_live s.identity.subject now rows in
      let kept =
        if leb max_live_sessions_per_subject live
        then evict (live - max_live_sessions_per_subject + 1) s.identity.subject now rows
        else rows in
      if has_id s.id kept then rows else s ∷ kept

unfoldable pub get_session : (String → String) → ℕ → List SessionRow → String → Lookup
get_session hash now [] id = lookup_failed not_found
get_session hash now (s ∷ rows) id =
    let rest = get_session hash now rows id in
    if str_eq s.id (hash id) && ltb now s.expires_at then resolved s.identity else rest

unfoldable pub delete_session_by_id : String → List SessionRow → List SessionRow
delete_session_by_id id [] = []
delete_session_by_id id (s ∷ rows) =
    let rest = delete_session_by_id id rows in if str_eq s.id id then rest else s ∷ rest

-- `DeleteSession`: the cookie's value is hashed first.
unfoldable pub delete_session : (String → String) → String → List SessionRow → List SessionRow
unfolding delete_session_by_id
delete_session hash id rows = delete_session_by_id (hash id) rows

unfoldable pub delete_sessions_by_subject : String → List SessionRow → List SessionRow
delete_sessions_by_subject subject [] = []
delete_sessions_by_subject subject (s ∷ rows) =
    let rest = delete_sessions_by_subject subject rows in
    if str_eq s.identity.subject subject then rest else s ∷ rest

-- The first statement of `SweepExpiredAuth`.
unfoldable pub sweep_sessions : ℕ → List SessionRow → List SessionRow
sweep_sessions now [] = []
sweep_sessions now (s ∷ rows) =
    let rest = sweep_sessions now rows in if leb s.expires_at now then rest else s ∷ rest

pub record AuthFlow : Type 0 where
  pub state : String
  pub nonce : String
  pub pkce_verifier : String
  pub return_to : String
  pub expires_at : ℕ

unfoldable pub live_flows : ℕ → List AuthFlow → ℕ
live_flows now [] = 0
live_flows now (f ∷ flows) =
    let rest = live_flows now flows in if ltb now f.expires_at then suc rest else rest

-- One attempt: the lock is probed, then the live flows are counted.
pub data Admitted : Type 0 where
  flow_created : List AuthFlow → Admitted
  flow_limit flow_busy : Admitted

unfoldable pub create_auth_flow_attempt : Bool → ℕ → AuthFlow → ℕ → List AuthFlow → Admitted
unfolding live_flows
create_auth_flow_attempt acquired max_live f now flows =
    if acquired
    then (if leb max_live (live_flows now flows) then flow_limit else flow_created (f ∷ flows))
    else flow_busy

abbrev pub auth_flow_admission_attempts : ℕ
auth_flow_admission_attempts = 3

-- `retryAuthFlowAdmission` while the request lives: what each probe of the lock answers is given; after
-- a probe that is not the last, a busy lock is probed again.
unfoldable pub retry_auth_flow_admission :
    ℕ → List Bool → ℕ → AuthFlow → ℕ → List AuthFlow → Admitted
unfolding create_auth_flow_attempt
retry_auth_flow_admission zero probes max_live f now flows = flow_busy
retry_auth_flow_admission (suc n) [] max_live f now flows = flow_busy
retry_auth_flow_admission (suc n) (acquired ∷ probes) max_live f now flows =
    let rest = retry_auth_flow_admission n probes max_live f now flows in
    elim (create_auth_flow_attempt acquired max_live f now flows) [
      | flow_created fs ↦ flow_created fs
      | flow_limit ↦ flow_limit
      | flow_busy ↦ rest
    ]

-- `DELETE ... RETURNING`: the rows that are left, and the flow that is consumed.
unfoldable pub take_auth_flow : String → ℕ → List AuthFlow → List AuthFlow × Option AuthFlow
take_auth_flow state now [] = ([], none)
take_auth_flow state now (f ∷ flows) =
    let rest = take_auth_flow state now flows in
    if str_eq f.state state && ltb now f.expires_at then (rest.0, some f) else (f ∷ rest.0, rest.1)
