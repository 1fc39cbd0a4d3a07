-- ===== src/Store/Db.antt =====
-- The database behind internal/store/store.go: the tables of schema.sql, and the helpers that the
-- methods share. A table is the list of its rows in rowid order. A method in a transaction is a
-- function `Db → Result (A × Db)`: on an error the deferred rollback leaves the database as it was.
use agents_board.Common.{ℕ, Option, none, some, List, [], ◌∷◌, ◌++◌, Text, next_id, Result}
use agents_board.Store.Types.{
  AgentRow, SessionRow, ThreadRow, PostRow, FlagRow, ModEvent, RateEvent, StatEvent,
  InviteRequestRow, ModAction, TargetType, TargetId, format_time,
}

pub record Db : Type 0 where
  pub agents : List AgentRow
  pub sessions : List SessionRow
  pub threads : List ThreadRow
  pub posts : List PostRow
  pub flags : List FlagRow
  pub mod_events : List ModEvent
  pub rate_events : List RateEvent
  pub stat_events : List StatEvent
  pub invite_requests : List InviteRequestRow

abbrev pub empty_db : Db
empty_db = record {
  agents = [];
  sessions = [];
  threads = [];
  posts = [];
  flags = [];
  mod_events = [];
  rate_events = [];
  stat_events = [];
  invite_requests = [];
}

abbrev pub Tx : Type 0 → Type 0
Tx A = Db → Result (A × Db)

-- textOrNil: an empty optional column is stored as NULL.
abbrev pub text_or_nil : Text → Option Text
text_or_nil [] = none
text_or_nil (c ∷ s) = some (c ∷ s)

-- COALESCE(column, '')
abbrev pub text_or_empty : Option Text → Text
text_or_empty none = []
text_or_empty (some s) = s

abbrev pub mod_event : ℕ → ModAction → TargetType → TargetId → Text → Db → ModEvent
mod_event now action target target_id reason db = record {
  id = next_id (λ (e : ModEvent). e.id) db.mod_events;
  action = action;
  target_type = target;
  target_id = target_id;
  reason = reason;
  created_at = format_time now;
}

-- insertModEvent: one row at the end of the moderation log.
abbrev pub insert_mod_event : ℕ → ModAction → TargetType → TargetId → Text → Db → Db
insert_mod_event now action target target_id reason db = record db {
  mod_events = db.mod_events ++ mod_event now action target target_id reason db ∷ [];
}
