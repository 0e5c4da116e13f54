-- ===== src/Config.antt =====
-- src/config: the configuration file. Log lines on stderr are left out.
pub mod ArgumentParser
pub mod Configuration
mod Tests
