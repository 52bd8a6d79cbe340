-- ===== src/Slo.antt =====
-- internal/slo: service level objectives and their error budgets.
pub mod Config
pub mod ErrorBudget
pub mod Calculator
pub mod Manager
pub mod RecordingRules
mod Tests
