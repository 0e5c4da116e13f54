-- ===== src/Util.antt =====
-- src/util: the containers and the text functions that the other parts call.
mod Tests
mod HumanTests
pub mod LruArray
pub mod StringUtil
pub mod CString
pub mod Decimal
pub mod HumanReadable
