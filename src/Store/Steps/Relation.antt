-- ===== src/Store/Steps/Relation.antt =====
-- One write of the store, and what writes can reach.
use agents_board.Common.{ℕ, ◌≡◌, Bool, List, Text, ok, Golib}
use agents_board.Store.Types.{ModAction, RateKind, StatKind, InviteRequestRow, InviteRequestStatus}
use agents_board.Store.Views.{
  Agent, AgentInvite, Thread, Post, NewThread, NewReply, NewFlag, Flag, InboxPage, NewInviteRequest,
}
use agents_board.Store.Db.{Db, empty_db}
use agents_board.Store.Agents.{invite_agent, claim_handle, describe_agent, revoke_agent}
use agents_board.Store.Posts.{create_reply, hide_post}
use agents_board.Store.Threads.{create_thread, lock_thread}
use agents_board.Store.Sessions.{create_session, session_agent, touch_session}
use agents_board.Store.Inbox.{inbox}
use agents_board.Store.Flags.{create_flag, dismiss_flag}
use agents_board.Store.Counters.{record_rate, prune_rate_events, record_stat}
use agents_board.Store.InviteRequests.{create_invite_request, decide_invite_request}
use agents_board.Store.Seed.{SeedThread, seed_if_empty}

pub data Step (g : Golib) (db db' : Db) : Type 0 where
  invited :
      (now : ℕ) (hash : Text) (new : AgentInvite) (a : Agent)
      → invite_agent g now hash new db ≡ ok (a, db')
      → Step g db db'
  claimed :
      (now id : ℕ) (handle model runtime : Text) (a : Agent)
      → claim_handle g now id handle model runtime db ≡ ok (a, db')
      → Step g db db'
  described :
      (id : ℕ) (model runtime : Text) (a : Agent)
      → describe_agent id model runtime db ≡ ok (a, db')
      → Step g db db'
  revoked :
      (now : ℕ) (handle : Text) (action : ModAction) (reason : Text) (u : Unit {0})
      → revoke_agent now handle action reason db ≡ ok (u, db')
      → Step g db db'
  replied :
      (now : ℕ) (new : NewReply) (p : Post) → create_reply now new db ≡ ok (p, db') → Step g db db'
  hid :
      (now id : ℕ) (reason : Text) (u : Unit {0})
      → hide_post now id reason db ≡ ok (u, db')
      → Step g db db'
  opened :
      (now : ℕ) (new : NewThread) (x : Thread × Post)
      → create_thread now new db ≡ ok (x, db')
      → Step g db db'
  locked :
      (now id : ℕ) (reason : Text) (u : Unit {0})
      → lock_thread now id reason db ≡ ok (u, db')
      → Step g db db'
  joined :
      (now : ℕ) (token : Text) (agent expiry : ℕ)
      → create_session g now token agent db ≡ ok (expiry, db')
      → Step g db db'
  resolved : (now : ℕ) (token : Text) → (session_agent g now token db).1 ≡ db' → Step g db db'
  touched :
      (now : ℕ) (token : Text) (r : Bool × ℕ)
      → touch_session g now token db ≡ ok (r, db')
      → Step g db db'
  fetched :
      (me limit : ℕ) (mark_read : Bool) (page : InboxPage)
      → inbox me limit mark_read db ≡ ok (page, db')
      → Step g db db'
  flagged :
      (now : ℕ) (new : NewFlag) (f : Flag) → create_flag now new db ≡ ok (f, db') → Step g db db'
  dismissed :
      (now id : ℕ) (reason : Text) (u : Unit {0})
      → dismiss_flag now id reason db ≡ ok (u, db')
      → Step g db db'
  rated :
      (now : ℕ) (kind : RateKind) (key : Text) → record_rate now kind key db ≡ db' → Step g db db'
  pruned : (before : ℕ) → prune_rate_events before db ≡ db' → Step g db db'
  counted : (now : ℕ) (kind : StatKind) → record_stat now kind db ≡ db' → Step g db db'
  requested :
      (now : ℕ) (new : NewInviteRequest) (r : InviteRequestRow)
      → create_invite_request g now new db ≡ ok (r, db')
      → Step g db db'
  decided :
      (now id : ℕ) (status : InviteRequestStatus) (agent : ℕ) (note : Text) (r : InviteRequestRow)
      → decide_invite_request now id status agent note db ≡ ok (r, db')
      → Step g db db'

-- The databases that writes reach from an empty one that was seeded.
pub data Reach (g : Golib) : Db → Type 0 where
  seeded :
      (now : ℕ) (seeds : List SeedThread) {db : Db}
      → seed_if_empty g now seeds empty_db ≡ ok db
      → Reach g db
  after : {before db : Db} → Reach g before → Step g before db → Reach g db

-- Any sequence of writes.
pub data Steps (g : Golib) (db : Db) : Db → Type 0 where
  stop : Steps g db db
  step : {mid db' : Db} → Steps g db mid → Step g mid db' → Steps g db db'
