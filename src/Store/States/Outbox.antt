-- ===== src/Store/States/Outbox.antt =====
-- The outbox: at most one notification for each scan and kind, and one for each failed or complete
-- scan whose id is not foreign.
use nuclei_security_center.Common.{
  ℕ, ◌≡◌, Bool, true, false, List, [], ◌∷◌, arith, All, Bool-cases, inl, inr,
}
use nuclei_security_center.Store.Rows.{
  ScanState, complete, failed, ScanRow, NotifyKind, digest, failure, Payload, Notification,
}
use nuclei_security_center.Store.Scans.{queued_for, enqueue, enqueue_failures}

-- No key stands twice.
abbrev pub IsUnique : List Notification → Type 0
IsUnique [] = Unit
IsUnique (n ∷ ns) = (queued_for n.scan_id n.kind ns ≡ false) × IsUnique ns

pub enqueue-IsUnique :
    (scan : ℕ) (kind : NotifyKind) (p : Payload) (ns : List Notification)
    → IsUnique ns
    → IsUnique (enqueue scan kind p ns)
unfolding enqueue
enqueue-IsUnique scan kind p ns h = elim (Bool-cases (queued_for scan kind ns)) [
  | inl old ↦ rw old h
  | inr fresh ↦ rw fresh (fresh, h)
]

pub failures-IsUnique :
    (rs : List ScanRow) (ns : List Notification) → IsUnique ns → IsUnique (enqueue_failures rs ns)
unfolding enqueue_failures
failures-IsUnique [] ns h = h
failures-IsUnique (r ∷ rs) ns h = failures-IsUnique rs _ (enqueue-IsUnique _ _ _ ns h)

pub enqueue-has :
    (scan : ℕ) (kind : NotifyKind) (p : Payload) (ns : List Notification)
    → queued_for scan kind (enqueue scan kind p ns) ≡ true
enqueue-has scan kind p ns = elim (Bool-cases (queued_for scan kind ns)) [
  | inl old ↦ unfold enqueue in rw old old
  | inr fresh ↦ unfold enqueue in rw fresh (head_has kind)
]
  where
    head_has :
        (k : NotifyKind)
        → queued_for scan k (record { scan_id = scan; kind = k; payload = p } ∷ ns) ≡ true
    head_has digest = unfold queued_for in ground arith
    head_has failure = unfold queued_for in ground arith

module _ (scan : ℕ) (kind : NotifyKind) where
  pub enqueue-keeps :
      (scan' : ℕ) (kind' : NotifyKind) (p : Payload) (ns : List Notification)
      → queued_for scan kind ns ≡ true
      → queued_for scan kind (enqueue scan' kind' p ns) ≡ true
  enqueue-keeps scan' kind' p ns h = elim (Bool-cases (queued_for scan' kind' ns)) [
    | inl old ↦ unfold enqueue in rw old h
    | inr fresh ↦ unfold enqueue in rw fresh (unfold queued_for in ground arith)
  ]

  pub failures-keep :
      (rs : List ScanRow) (ns : List Notification)
      → queued_for scan kind ns ≡ true
      → queued_for scan kind (enqueue_failures rs ns) ≡ true
  unfolding enqueue_failures
  failures-keep [] ns h = h
  failures-keep (r ∷ rs) ns h = failures-keep rs _ (enqueue-keeps r.id failure _ ns h)

pub failures-have :
    (rs : List ScanRow) (ns : List Notification)
    → All (λ r. queued_for r.id failure (enqueue_failures rs ns) ≡ true) rs
unfolding enqueue_failures
failures-have [] ns = tt
failures-have (r ∷ rs) ns =
    (failures-keep r.id failure rs _ (enqueue-has r.id failure _ ns), failures-have rs _)

-- What holds of the scans that are not foreign.
abbrev pub IfLocal : Bool → Type 0 → Type 0
IfLocal true p = Unit
IfLocal false p = p

pub IfLocal_map : {p q : Type 0} → (b : Bool) → (p → q) → IfLocal b p → IfLocal b q
IfLocal_map true f h = tt
IfLocal_map false f h = f h

pub IfLocal_intro : {p : Type 0} → (b : Bool) → p → IfLocal b p
IfLocal_intro true h = tt
IfLocal_intro false h = h

module _ (foreign : ℕ → Bool) where
  -- A failed or complete scan has the notification of its end, unless its id is foreign.
  abbrev pub Told : ScanState → ℕ → List Notification → Type 0
  Told failed id ns = IfLocal (foreign id) (queued_for id failure ns ≡ true)
  Told complete id ns = IfLocal (foreign id) (queued_for id digest ns ≡ true)
  Told _ id ns = Unit

  abbrev pub AllTold : List Notification → List ScanRow → Type 0
  AllTold ns = All (λ r. Told r.state r.id ns)
