-- ===== src/Risk.antt =====
-- src/domain/risk-evaluation.ts: the preflight decision for one tool action.
-- Scores are in ten-thousandths and times in milliseconds. The explanations, summaries and the
-- fixed texts of a receipt are left out; their conditions are all here.
pub mod Terms
pub mod Evidence
pub mod Decide
pub mod Records
pub mod Service
pub mod Evaluate
pub mod Permissions
pub mod Rules
pub mod Allow
pub mod Coverage
pub mod Latest
