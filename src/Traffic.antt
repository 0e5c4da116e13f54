-- ===== src/Traffic.antt =====
-- src/traffic: the traffic in memory, and its way to the database and to the API.
mod Tests
mod DbTests
pub mod TrafficLine
pub mod Tables
pub mod Sql
pub mod Sqlite
pub mod DbController
pub mod TrafficStorage
pub mod System
pub mod History
