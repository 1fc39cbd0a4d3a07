-- ===== src/Store/Steps.antt =====
-- The store as a transition system: every method of internal/store that writes to the database, in
-- any order and with any arguments, from the board that Open seeds. One writer connection makes
-- the transactions a sequence.
pub mod Relation
pub mod Board
pub mod ModLog
pub use Relation.{Step, Steps, Reach}
