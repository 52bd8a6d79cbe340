-- ===== src/Slo/RecordingRules.antt =====
-- internal/slo/recording_rules.go: the Prometheus recording rules and their validation.
pub mod Rule
pub mod Sli
pub mod Groups
pub mod Generate
pub mod Sound
pub mod Validity
mod Tests
