-- ===== src/Store/Rows.antt =====
-- The rows of the tables `scans`, `findings`, `finding_lifecycle` and `scan_notification_outbox` as
-- the statements of internal/store read and write them. A uuid is its 128-bit number, since the
-- statements compare uuids by their order; a timestamp is a number of microseconds; NULL is `none`.
use nuclei_security_center.Common.{
  ℕ, ◌≡◌, ◌≢◌, arith, String, Bool, true, false, ◌&&◌, ◌||◌, Option, none, some, List, [], ◌∷◌, ltb,
  ◌==◌, if◌then◌else◌,
}

-- types.ScanState
pub data ScanState : Type 0 where
  queued running complete failed cancelled : ScanState

-- `CoverageOrigin…` of store/scanbundle.go
pub data CoverageOrigin : Type 0 where
  node import_untrusted import_trusted : CoverageOrigin

-- types.EndpointCoverage
pub record EndpointCoverage : Type 0 where
  pub template_id : String
  pub endpoint : String

pub record ScanRow : Type 0 where
  pub id : ℕ
  pub state : ScanState
  pub created_at : ℕ
  pub started_at : Option ℕ
  pub finished_at : Option ℕ
  pub error : Option String
  pub target_id : Option String
  pub node_id : Option String
  pub node_scan_id : Option String
  pub nuclei_version : Option String
  pub templates_commit : Option String
  pub discovered_targets : Option (List String)
  pub covered_endpoints : Option (List EndpointCoverage)
  pub coverage_warning : Option String
  pub coverage_origin : CoverageOrigin
  pub skipped_finding_count : ℕ
  pub raw_object_key : Option String
  pub log_object_key : Option String
  pub notify_min_severity : Option String

-- The columns of a lifecycle row that follow the newest observation.
pub record Observed : Type 0 where
  pub name : String
  pub severity : String
  pub host : String
  pub matched_at : String
  pub endpoint_key : String
  pub type_name : String
  pub cve : List String
  pub tags : List String
  pub matcher_name : String
  pub extractor_name : String
  pub extracted_results : List String

pub data Disposition : Type 0 where
  no_disposition false_positive accepted : Disposition

pub record LifecycleRow : Type 0 where
  pub id : ℕ
  pub dedup_key : String
  pub result_discriminator : String
  pub template_id : String
  pub observed : Observed
  pub first_seen_scan : Option ℕ
  pub first_seen_at : ℕ
  pub last_seen_scan : Option ℕ
  pub last_seen_at : ℕ
  pub latest_occurrence_id : Option ℕ
  pub last_covering_scan : Option ℕ
  pub times_mitigated : ℕ
  pub disposition : Disposition
  pub accept_expires_at : Option ℕ
  pub recast_severity : Option String

-- A row of `findings`: one immutable observation.
pub record Occurrence : Type 0 where
  pub id : ℕ
  pub scan_id : ℕ
  pub target_id : Option String
  pub finding_id : Option ℕ
  pub dedup_key : String
  pub created_at : ℕ

-- `NotifyKindDigest` and `NotifyKindFailed` of store/notify.go
pub data NotifyKind : Type 0 where
  digest failure : NotifyKind

-- SeverityCounts of store/notify.go
pub record SeverityCounts : Type 0 where
  pub critical : ℕ
  pub high : ℕ
  pub medium : ℕ
  pub low : ℕ
  pub info : ℕ
  pub unknown : ℕ

pub data DigestStatus : Type 0 where
  new changed fixed : DigestStatus

pub data Severity : Type 0 where
  critical high medium low info unknown : Severity

-- ScanDigestFinding of store/notify.go
pub record DigestFinding : Type 0 where
  pub id : ℕ
  pub status : DigestStatus
  pub severity : Severity
  pub template_id : String
  pub name : String
  pub host : String
  pub matched_at : String

-- ScanDigestPayload of store/notify.go
pub record Digest : Type 0 where
  pub new : SeverityCounts
  pub changed : SeverityCounts
  pub fixed : SeverityCounts
  pub findings : List DigestFinding

pub data Payload : Type 0 where
  reason_payload : String → Payload
  digest_payload : Digest → Payload

pub record Notification : Type 0 where
  pub scan_id : ℕ
  pub kind : NotifyKind
  pub payload : Payload

-- The tables that the statements of a scan's life touch.
pub record Db : Type 0 where
  pub scans : List ScanRow
  pub findings : List Occurrence
  pub lifecycle : List LifecycleRow
  pub outbox : List Notification

-- `SELECT created_at FROM scans WHERE id = …`
unfoldable pub created_of : ℕ → List ScanRow → Option ℕ
created_of scan [] = none
created_of scan (r ∷ rs) = if r.id == scan then some r.created_at else created_of scan rs

-- `(a.created_at, a.id) < (b.created_at, b.id)`, SQL's comparison of rows.
unfoldable pub row_before : ℕ → ℕ → ℕ → ℕ → Bool
row_before created id created' id' = ltb created created' || (created == created') && ltb id id'

pub row_before_asymm : (c i c' i' : ℕ) → row_before c i c' i' ≡ true → row_before c' i' c i ≡ false
unfolding row_before
row_before_asymm c i c' i' h = ground arith

pub row_before-ne : (c i c' i' : ℕ) → row_before c i c' i' ≡ true → (c' ≡ c → i ≢ i')
unfolding row_before
row_before-ne c i c' i' h = ground arith

pub row_before_self : (c i : ℕ) → row_before c i c i ≡ false
unfolding row_before
row_before_self c i = ground arith
