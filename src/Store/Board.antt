-- ===== src/Store/Board.antt =====
-- The invariant of the threads and posts tables (internal/store/posts.go, threads.go and the
-- comments of schema.sql), which the children prove of every write.
pub mod Counting
pub mod Replies
pub mod Creation
pub mod Moderation
pub use Counting.{visible_replies, IsWellFormed, HasParent}
