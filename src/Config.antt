-- ===== src/Config.antt =====
-- internal/config: the flags, the configuration with its defaults and its merge, and the validation.
pub mod FeatureFlags
pub mod Types
pub mod Validation
pub mod Manager
pub mod Loader
