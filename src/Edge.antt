-- ===== src/Edge.antt =====
-- internal/edge: the plugin's read path and its writes.
pub mod Headers
pub mod Tables
pub mod Requests
pub mod Server
pub mod Routes
pub mod Counting
pub mod Events
pub mod Tests
