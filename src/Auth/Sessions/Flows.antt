-- ===== src/Auth/Sessions/Flows.antt =====
-- Login flows are used once, and their live number is bounded.
use mathlib.Core.Path.{subst}
use nuclei_security_center.Common.{
  sym, ℕ, suc, zero, ◌≤◌, ◌≡◌, refl, String, Bool, true, false, ◌&&◌, none, List, [], ◌∷◌, str_eq,
  ltb, leb, arith, Bool-cases, inl, inr,
}
use nuclei_security_center.Auth.Sessions.{
  AuthFlow, live_flows, flow_created, flow_limit, create_auth_flow_attempt,
  retry_auth_flow_admission, take_auth_flow,
}

-- Of the flows that are left after one is taken, none is taken by the same state, then or later.
pub take_auth_flow_once :
    (state : String) (now later : ℕ) (flows : List AuthFlow)
    → now ≤ later
    → (take_auth_flow state later (take_auth_flow state now flows).0).1 ≡ none
unfolding take_auth_flow
take_auth_flow_once state now later [] h = refl
take_auth_flow_once state now later (f ∷ flows) h =
    elim (Bool-cases (str_eq f.state state && ltb now f.expires_at)) [
      | inl p ↦ rw (take_auth_flow, p) (take_auth_flow_once state now later flows h)
      | inr p ↦ elim (Bool-cases (str_eq f.state state && ltb later f.expires_at)) [
        | inl q ↦ ground arith
        | inr q ↦
            rw (take_auth_flow, p, take_auth_flow, q) (take_auth_flow_once state now later flows h)
      ]
    ]

room :
    (max_live : ℕ) (f : AuthFlow) (now : ℕ) (flows : List AuthFlow)
    → leb max_live (live_flows now flows) ≡ false
    → live_flows now (f ∷ flows) ≤ max_live
unfolding live_flows
room max_live f now flows h = ground arith

-- However often the admission is retried, a flow that is created was created by one probe, and the
-- live flows are then at most the limit.
pub retry_auth_flow_admission_bounded :
    (n : ℕ) (probes : List Bool) (max_live : ℕ) (f : AuthFlow) (now : ℕ)
    (flows after : List AuthFlow)
    → retry_auth_flow_admission n probes max_live f now flows ≡ flow_created after
    → (after ≡ f ∷ flows) × (live_flows now after ≤ max_live)
unfolding retry_auth_flow_admission create_auth_flow_attempt live_flows
retry_auth_flow_admission_bounded zero probes max_live f now flows after h = ground arith
retry_auth_flow_admission_bounded (suc n) [] max_live f now flows after h = ground arith
retry_auth_flow_admission_bounded (suc n) (false ∷ probes) max_live f now flows after h =
    retry_auth_flow_admission_bounded n probes max_live f now flows after h
retry_auth_flow_admission_bounded (suc n) (true ∷ probes) max_live f now flows after h =
    elim (Bool-cases (leb max_live (live_flows now flows))) [
      | inl p ↦ absurd_limit after (rw (retry_auth_flow_admission, p) at h)
      | inr p ↦
          let e : f ∷ flows ≡ after = ground (arith, rw (retry_auth_flow_admission, p) at h) in
          (sym e, subst (λ fs. live_flows now fs ≤ max_live) e (room max_live f now flows p))
    ]
  where
    absurd_limit :
        (fs : List AuthFlow)
        → flow_limit ≡ flow_created fs
        → (fs ≡ f ∷ flows) × (live_flows now fs ≤ max_live)
    absurd_limit fs k = ground arith
