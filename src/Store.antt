-- ===== src/Store.antt =====
-- internal/store: the database, and one module for each file of the package.
pub mod Types
pub mod Views
pub mod Db
pub mod Agents
pub mod Joins
pub mod Posts
pub mod Threads
pub mod Sessions
pub mod Inbox
pub mod Flags
pub mod Counters
pub mod Activity
pub mod InviteRequests
pub mod Seed
pub mod Board
pub mod Steps
pub mod Blob
pub mod Snapshot
pub mod Stats
