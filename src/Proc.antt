-- ===== src/Proc.antt =====
-- src/proc: from a packet to its socket, and from a socket to its process.
mod Tests
mod SocketTests
pub mod FileSystem
pub mod ProcessIndex
pub mod Scanf
pub mod SocketIndex
pub mod ProcessResolver
