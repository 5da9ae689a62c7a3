-- ===== src/Assessment.antt =====
-- The life of an assessment: its status, the reconciliation of marks and rubrics, and the gate
-- before READY (apps/api/app/services/assessment_transitions.py, academic_freeze.py,
-- mark_reconciliation.py, rubric_reconciliation.py, readiness.py, and the transition route of
-- apps/api/app/api/v1/curriculum_assessment.py).
pub mod Errors
pub mod Status
pub mod Marks
pub mod Rubric
pub mod Readiness
mod Samples
