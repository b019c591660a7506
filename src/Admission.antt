-- ===== src/Admission.antt =====
-- Scan admission at the two sides of a dispatch: `scanAdmission` of internal/scanner/admission.go
-- (the node) and `scanAdmission` of internal/backend/admission.go (the backend).
pub mod Node
pub mod Backend
