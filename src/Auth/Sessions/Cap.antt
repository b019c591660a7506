-- ===== src/Auth/Sessions/Cap.antt =====
-- The bound on a subject's live sessions.
use mathlib.Core.Path.{subst}
use nuclei_security_center.Common.{
  ℕ, suc, zero, ◌+◌, ◌-◌, ◌≤◌, ◌≡◌, refl, ap, inl, inr, String, Bool, true, false, Option, none,
  some, List, [], ◌∷◌, str_eq, if◌then◌else◌, leb, arith, Bool-cases, eq_iff,
}
use nuclei_security_center.Auth.Sessions.{
  SessionRow, max_live_sessions_per_subject, is_live, count_live, has_id, older, choose,
  take_oldest, evict, create_session, delete_session_by_id, delete_sessions_by_subject,
  sweep_sessions,
}

module _ (before : String → String → Bool) where
  -- Taking the oldest lowers the count by one, unless there is none.
  abbrev Shorter : ℕ → Option (SessionRow × List SessionRow) → String → ℕ → Type 0
  Shorter n none subject now = n ≡ 0
  Shorter n (some (s, rest)) subject now = n ≡ suc (count_live subject now rest)

  choose-Shorter :
      (s : SessionRow) (rows : List SessionRow) (o : Option (SessionRow × List SessionRow))
      (subject : String) (now : ℕ)
      → Shorter (count_live subject now rows) o subject now
      → Shorter
          (count_live subject now (s ∷ rows))
          (choose before (is_live subject now s) s rows o)
          subject
          now
  unfolding count_live
  choose-Shorter s rows none subject now h = elim (Bool-cases (is_live subject now s)) [
    | inl p ↦ rw (p) refl
    | inr p ↦ rw (p) h
  ]
  choose-Shorter s rows (some (t, rest)) subject now h = elim (Bool-cases (is_live subject now s)) [
    | inr p ↦ rw (p) (rw (count_live, p) h)
    | inl p ↦ elim (Bool-cases (older before t s)) [
      | inl q ↦ rw (p, q) (rw (count_live, p) (ap suc h))
      | inr q ↦ rw (p, q) refl
    ]
  ]

  take_oldest-Shorter :
      (rows : List SessionRow) (subject : String) (now : ℕ)
      → Shorter (count_live subject now rows) (take_oldest before subject now rows) subject now
  unfolding take_oldest count_live
  take_oldest-Shorter [] subject now = refl
  take_oldest-Shorter (s ∷ rows) subject now =
      choose-Shorter s rows (take_oldest before subject now rows) subject now
        (take_oldest-Shorter rows subject now)

  count_live-evict :
      (n : ℕ) (subject : String) (now : ℕ) (rows : List SessionRow)
      → count_live subject now (evict before n subject now rows) ≡ count_live subject now rows - n
  unfolding evict
  count_live-evict zero subject now rows = omega arith
  count_live-evict (suc n) subject now rows =
      step (take_oldest before subject now rows) (take_oldest-Shorter rows subject now)
        (count_live-evict n subject now)
    where
      step :
          (o : Option (SessionRow × List SessionRow))
          → Shorter (count_live subject now rows) o subject now
          → ((rest : List SessionRow)
              → count_live subject now (evict before n subject now rest)
                ≡ count_live subject now rest - n)
          → count_live subject now
              (elim o [ none ↦ rows | some (s, rest) ↦ evict before n subject now rest ])
            ≡ count_live subject now rows - suc n
      step none h k = omega (arith, h)
      step (some (s, rest)) h k = omega (arith, h, k rest)

  -- No statement but an insert raises a count.
  abbrev NoMore : String → ℕ → ℕ → Option (SessionRow × List SessionRow) → Type 0
  NoMore q t n none = Unit
  NoMore q t n (some (s, rest)) = count_live q t rest ≤ n

  choose-NoMore :
      (q : String) (t : ℕ) (b : Bool) (s : SessionRow) (rows : List SessionRow)
      (o : Option (SessionRow × List SessionRow))
      → NoMore q t (count_live q t rows) o
      → NoMore q t (count_live q t (s ∷ rows)) (choose before b s rows o)
  unfolding count_live
  choose-NoMore q t false s rows none h = tt
  choose-NoMore q t true s rows none h = ground arith
  choose-NoMore q t false s rows (some (m, rest)) h = ground arith
  choose-NoMore q t true s rows (some (m, rest)) h = elim (Bool-cases (older before m s)) [
    | inl p ↦ rw (p) (ground arith)
    | inr p ↦ rw (p) (ground arith)
  ]

  take_oldest-NoMore :
      (q : String) (t : ℕ) (rows : List SessionRow) (subject : String) (now : ℕ)
      → NoMore q t (count_live q t rows) (take_oldest before subject now rows)
  unfolding take_oldest
  take_oldest-NoMore q t [] subject now = tt
  take_oldest-NoMore q t (s ∷ rows) subject now =
      choose-NoMore q t (is_live subject now s) s rows (take_oldest before subject now rows)
        (take_oldest-NoMore q t rows subject now)

  evict_le :
      (q : String) (t n : ℕ) (subject : String) (now : ℕ) (rows : List SessionRow)
      → count_live q t (evict before n subject now rows) ≤ count_live q t rows
  unfolding evict
  evict_le q t zero subject now rows = omega arith
  evict_le q t (suc n) subject now rows =
      step (take_oldest before subject now rows) (take_oldest-NoMore q t rows subject now)
        (evict_le q t n subject now)
    where
      step :
          (o : Option (SessionRow × List SessionRow))
          → NoMore q t (count_live q t rows) o
          → ((rest : List SessionRow)
              → count_live q t (evict before n subject now rest) ≤ count_live q t rest)
          → count_live q t
              (elim o [ none ↦ rows | some (s, rest) ↦ evict before n subject now rest ])
            ≤ count_live q t rows
      step none h k = omega arith
      step (some (s, rest)) h k = omega (arith, h, k rest)

  pub count_live-later :
      (q : String) (now t : ℕ) (rows : List SessionRow)
      → now ≤ t
      → count_live q t rows ≤ count_live q now rows
  unfolding count_live
  count_live-later q now t [] h = omega arith
  count_live-later q now t (s ∷ rows) h = ground (arith, count_live-later q now t rows h)

  pub delete_session_by_id_le :
      (q : String) (t : ℕ) (id : String) (rows : List SessionRow)
      → count_live q t (delete_session_by_id id rows) ≤ count_live q t rows
  unfolding count_live delete_session_by_id
  delete_session_by_id_le q t id [] = omega arith
  delete_session_by_id_le q t id (s ∷ rows) = ground (arith, delete_session_by_id_le q t id rows)

  pub delete_sessions_by_subject_le :
      (q : String) (t : ℕ) (subject : String) (rows : List SessionRow)
      → count_live q t (delete_sessions_by_subject subject rows) ≤ count_live q t rows
  unfolding count_live delete_sessions_by_subject
  delete_sessions_by_subject_le q t subject [] = omega arith
  delete_sessions_by_subject_le q t subject (s ∷ rows) =
      ground (arith, delete_sessions_by_subject_le q t subject rows)

  pub sweep_sessions_le :
      (q : String) (t now : ℕ) (rows : List SessionRow)
      → count_live q t (sweep_sessions now rows) ≤ count_live q t rows
  unfolding count_live sweep_sessions
  sweep_sessions_le q t now [] = omega arith
  sweep_sessions_le q t now (s ∷ rows) = ground (arith, sweep_sessions_le q t now rows)

  count_live-cons :
      (q : String) (now : ℕ) (s : SessionRow) (rows : List SessionRow)
      → (count_live q now (s ∷ rows) ≤ suc (count_live q now rows))
        × (str_eq s.identity.subject q ≡ false
            → count_live q now (s ∷ rows) ≡ count_live q now rows)
  unfolding count_live
  count_live-cons q now s rows = (ground arith, λ h. ground arith)

  abbrev kept : SessionRow → ℕ → List SessionRow → List SessionRow
  kept s now rows =
      let live = count_live s.identity.subject now rows in
      if leb max_live_sessions_per_subject live
      then evict before (live - max_live_sessions_per_subject + 1) s.identity.subject now rows
      else rows

  kept_small :
      (s : SessionRow) (now : ℕ) (rows : List SessionRow)
      → suc (count_live s.identity.subject now (kept s now rows)) ≤ max_live_sessions_per_subject
  kept_small s now rows =
      elim (Bool-cases
        (leb max_live_sessions_per_subject (count_live s.identity.subject now rows))) [
          | inl p ↦ rw (p) (
              ground (
                arith,
                count_live-evict
                    (count_live s.identity.subject now rows - max_live_sessions_per_subject + 1)
                    s.identity.subject now rows,
              ))
          | inr p ↦ rw (p) (ground arith)
        ]

  kept_le :
      (q : String) (s : SessionRow) (now : ℕ) (rows : List SessionRow)
      → count_live q now (kept s now rows) ≤ count_live q now rows
  kept_le q s now rows =
      elim (Bool-cases
        (leb max_live_sessions_per_subject (count_live s.identity.subject now rows))) [
          | inl p ↦ rw (p) (
              evict_le q now
                (count_live s.identity.subject now rows - max_live_sessions_per_subject + 1)
                s.identity.subject now rows)
          | inr p ↦ rw (p) (omega arith)
        ]

  own_capped :
      (s : SessionRow) (now : ℕ) (rows : List SessionRow)
      → count_live s.identity.subject now (s ∷ kept s now rows) ≤ max_live_sessions_per_subject
  own_capped s now rows =
      omega (
        arith,
        (count_live-cons s.identity.subject now s (kept s now rows)).0,
        kept_small s now rows,
      )

  same_capped :
      (q : String) (s : SessionRow) (now : ℕ) (rows : List SessionRow)
      → s.identity.subject ≡ q
      → count_live q now (s ∷ kept s now rows) ≤ max_live_sessions_per_subject
  same_capped q s now rows e =
      subst (λ k. count_live k now (s ∷ kept s now rows) ≤ max_live_sessions_per_subject) e
        (own_capped s now rows)

  pub create_session_capped :
      (q : String) (s : SessionRow) (now : ℕ) (rows : List SessionRow)
      → count_live q now rows ≤ max_live_sessions_per_subject
      → count_live q now (create_session before s now rows) ≤ max_live_sessions_per_subject
  unfolding create_session
  create_session_capped q s now rows h = elim (Bool-cases (has_id s.id (kept s now rows))) [
    | inl p ↦ rw (create_session, p) h
    | inr p ↦
        rw (create_session, p)
          (elim (Bool-cases (str_eq s.identity.subject q)) [
            | inl same ↦ same_capped q s now rows (ground (arith, eq_iff s.identity.subject q))
            | inr other ↦
                omega
                  (arith, (count_live-cons q now s (kept s now rows)).1 other, kept_le q s now rows)
          ])
  ]
