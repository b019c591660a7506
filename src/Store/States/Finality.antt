-- ===== src/Store/States/Finality.antt =====
-- Where a scan's state can go under any statements, and what stays.
use nuclei_security_center.Common.{ℕ, String, ◌≡◌, ◌∙◌, some, List, [], ◌∷◌, arith}
use nuclei_security_center.Store.Rows.{complete, failed, cancelled, ScanRow, Db}
use nuclei_security_center.Store.Scans.{find_scan}
use nuclei_security_center.Store.Statements.{
  Statement, create, discovered, finish, execute, execute_all,
}
use nuclei_security_center.Store.States.Moves.{effect, find-execute, ◌⟶◌, effect_moves}

-- The columns that say how a scan was cancelled.
pub record Same (r r' : ScanRow) : Type 0 where
  pub state : r'.state ≡ r.state
  pub error : r'.error ≡ r.error
  pub finished_at : r'.finished_at ≡ r.finished_at
  pub started_at : r'.started_at ≡ r.started_at
  pub node_scan_id : r'.node_scan_id ≡ r.node_scan_id

effect-cancelled : (s : Statement) (r : ScanRow) → r.state ≡ cancelled → Same r (effect s r)
unfolding effect
effect-cancelled (create id now target commit floor) r h = ground arith
effect-cancelled (discovered id []) r h = ground arith
effect-cancelled _ r h = ground arith

Same-trans : {r r' r'' : ScanRow} → Same r r' → Same r' r'' → Same r r''
Same-trans a b = ground arith

module _ (lower : String → String) where
  -- Every statement of Store/Statements, on every row of every database, moves the row's state along
  -- `⟶` or leaves it.
  pub execute_moves :
      (s : Statement) (db : Db) (j : ℕ) (r : ScanRow)
      → find_scan j db.scans ≡ some r
      → (r' : ScanRow) × (find_scan j (execute lower s db).scans ≡ some r') × (r.state ⟶ r'.state)
  execute_moves s db j r h = (effect s r, find-execute lower s db j h, effect_moves s r)

  -- A cancelled scan stays cancelled under any sequence of the statements of Store/Statements, with the
  -- reason, the times and the node's scan id that it was cancelled with.
  pub cancelled_is_final :
      (ss : List Statement) (db : Db) (j : ℕ) (r : ScanRow)
      → find_scan j db.scans ≡ some r
      → r.state ≡ cancelled
      → (r' : ScanRow) × (find_scan j (execute_all lower ss db).scans ≡ some r') × Same r r'
  unfolding execute_all
  cancelled_is_final [] db j r h c = (r, h, ground arith)
  cancelled_is_final (s ∷ ss) db j r h c =
      let same = effect-cancelled s r c in
      let (r', found, rest) =
        cancelled_is_final ss (execute lower s db) j (effect s r) (find-execute lower s db j h)
          (same.state ∙ c) in
      (r', found, Same-trans same rest)

  -- `MarkComplete` on a failed scan makes it complete and keeps the failure's reason in `error`.
  pub failed_completes :
      (db : Db) (j : ℕ) (version commit : String) (now : ℕ) (r : ScanRow)
      → find_scan j db.scans ≡ some r
      → r.id ≡ j
      → r.state ≡ failed
      → (r' : ScanRow) × (find_scan j (execute lower (finish j version commit now) db).scans
          ≡ some r')
        × (r'.state ≡ complete)
        × (r'.error ≡ r.error)
  unfolding effect
  failed_completes db j version commit now r h id_eq f = (
    effect (finish j version commit now) r,
    find-execute lower (finish j version commit now) db j h,
    ground arith,
    ground arith,
  )
