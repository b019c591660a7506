-- ===== src/Auth/Sessions/Runs.antt =====
-- Any run of the statements on the table sessions.
use mathlib.Core.Path.{subst}
use nuclei_security_center.Common.{
  ℕ, ◌+◌, ◌≤◌, ◌≡◌, String, Bool, false, ◌&&◌, List, [], ◌∷◌, str_eq, ltb, arith, Bool-cases, inl,
  inr,
}
use nuclei_security_center.Auth.{Identity, resolved}
use nuclei_security_center.Auth.Sessions.{
  SessionRow, max_live_sessions_per_subject, count_live, create_session, get_session,
  delete_session_by_id, delete_session, delete_sessions_by_subject, sweep_sessions,
}
use nuclei_security_center.Auth.Sessions.Cap.{
  create_session_capped, delete_session_by_id_le, delete_sessions_by_subject_le, sweep_sessions_le,
  count_live-later,
}

-- What happens to the table: the calls of the store, and time.
pub data SessionEvent : Type 0 where
  created : SessionRow → SessionEvent
  logged_out : String → SessionEvent
  revoked : String → SessionEvent
  offboarded : String → SessionEvent
  swept : SessionEvent
  passed : ℕ → SessionEvent

module _ (before : String → String → Bool) (hash : String → String) where
  unfoldable pub session_event : SessionEvent → ℕ × List SessionRow → ℕ × List SessionRow
  unfolding create_session delete_session delete_session_by_id delete_sessions_by_subject
      sweep_sessions
  session_event (created s) (now, rows) = (now, create_session before s now rows)
  session_event (logged_out cookie) (now, rows) = (now, delete_session hash cookie rows)
  session_event (revoked id) (now, rows) = (now, delete_session_by_id id rows)
  session_event (offboarded subject) (now, rows) = (now, delete_sessions_by_subject subject rows)
  session_event swept (now, rows) = (now, sweep_sessions now rows)
  session_event (passed n) (now, rows) = (now + n, rows)

  unfoldable pub session_events : List SessionEvent → ℕ × List SessionRow → ℕ × List SessionRow
  unfolding session_event
  session_events [] db = db
  session_events (e ∷ events) db = session_events events (session_event e db)

  step_capped :
      (q : String) (e : SessionEvent) (now : ℕ) (rows : List SessionRow)
      → count_live q now rows ≤ max_live_sessions_per_subject
      → count_live q (session_event e (now, rows)).0 (session_event e (now, rows)).1
        ≤ max_live_sessions_per_subject
  unfolding session_event delete_session
  step_capped q (created s) now rows h = create_session_capped before q s now rows h
  step_capped q (logged_out cookie) now rows h =
      omega (arith, delete_session_by_id_le before q now (hash cookie) rows)
  step_capped q (revoked id) now rows h =
      omega (arith, delete_session_by_id_le before q now id rows)
  step_capped q (offboarded subject) now rows h =
      omega (arith, delete_sessions_by_subject_le before q now subject rows)
  step_capped q swept now rows h = omega (arith, sweep_sessions_le before q now now rows)
  step_capped q (passed n) now rows h =
      let later : now ≤ now + n = omega arith in
      omega (arith, count_live-later before q now (now + n) rows later)

  events_capped :
      (q : String) (events : List SessionEvent) (now : ℕ) (rows : List SessionRow)
      → count_live q now rows ≤ max_live_sessions_per_subject
      → count_live q (session_events events (now, rows)).0 (session_events events (now, rows)).1
        ≤ max_live_sessions_per_subject
  unfolding session_events
  events_capped q [] now rows h = h
  events_capped q (e ∷ events) now rows h =
      events_capped q events (session_event e (now, rows)).0 (session_event e (now, rows)).1
        (step_capped q e now rows h)

  -- From the empty table, whatever sessions are created, ended, revoked and swept, and however time
  -- passes, no subject ever has more than 20 live sessions.
  pub session_events_capped :
      (subject : String) (events : List SessionEvent) (now : ℕ)
      → count_live subject (session_events events (now, [])).0 (session_events events (now, [])).1
        ≤ max_live_sessions_per_subject
  unfolding count_live
  session_events_capped subject events now = events_capped subject events now [] (omega arith)

  kept_session :
      (subject cookie : String) (now : ℕ) (s : SessionRow) (rows : List SessionRow) (id : Identity)
      → str_eq s.identity.subject subject ≡ false
      → get_session hash now (s ∷ delete_sessions_by_subject subject rows) cookie ≡ resolved id
      → (get_session hash now (delete_sessions_by_subject subject rows) cookie ≡ resolved id
          → str_eq id.subject subject ≡ false)
      → str_eq id.subject subject ≡ false
  unfolding get_session
  kept_session subject cookie now s rows id p h k =
      elim (Bool-cases (str_eq s.id (hash cookie) && ltb now s.expires_at)) [
        | inl q ↦
            let e : s.identity ≡ id = ground (arith, rw (get_session, q) at h) in
            subst (λ i. str_eq i.subject subject ≡ false) e p
        | inr q ↦ k (rw (get_session, q) at h)
      ]

  get_session-subject :
      (subject cookie : String) (now : ℕ) (rows : List SessionRow) (id : Identity)
      → get_session hash now (delete_sessions_by_subject subject rows) cookie ≡ resolved id
      → str_eq id.subject subject ≡ false
  unfolding get_session delete_sessions_by_subject
  get_session-subject subject cookie now [] id h = ground arith
  get_session-subject subject cookie now (s ∷ rows) id h =
      elim (Bool-cases (str_eq s.identity.subject subject)) [
        | inl p ↦
            get_session-subject subject cookie now rows id (rw (delete_sessions_by_subject, p) at h)
        | inr p ↦
            kept_session subject cookie now s rows id p (rw (delete_sessions_by_subject, p) at h)
              (get_session-subject subject cookie now rows id)
      ]

  -- Whatever the table holds, after a subject's sessions are deleted no cookie resolves to it, until a
  -- session is created for it.
  pub offboarded-get_session :
      (subject cookie : String) (now later : ℕ) (rows : List SessionRow) (id : Identity)
      → get_session hash
          (now + later)
          (session_events (offboarded subject ∷ passed later ∷ []) (now, rows)).1
          cookie
        ≡ resolved id
      → str_eq id.subject subject ≡ false
  unfolding session_events session_event
  offboarded-get_session subject cookie now later rows id h =
      get_session-subject subject cookie (now + later) rows id h
