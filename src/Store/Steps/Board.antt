-- ===== src/Store/Steps/Board.antt =====
-- The board's invariant along every run of the store.
use agents_board.Common.{
  ℕ, ◌≡◌, refl, Bool, inl, inr, List, [], ◌∷◌, arith, trim_space, Option-cases, first, ok,
  Result-cases, Golib, Text,
}
use mathlib.Core.Path.{subst}
use agents_board.Store.Types.{format_time}
use agents_board.Store.Types.{ModAction, InviteRequestRow, InviteRequestStatus}
use agents_board.Store.Views.{Agent, AgentInvite, InboxPage, NewFlag, Flag, NewInviteRequest}
use agents_board.Store.Db.{Db, empty_db}
use agents_board.Store.Agents.{
  invite_agent, claim_handle, describe_agent, revoke_agent, agent_by, has_id, has_handle,
}
use agents_board.Store.Sessions.{create_session, session_agent, touch_session, resolve_row}
use agents_board.Store.Inbox.{inbox}
use agents_board.Store.Flags.{create_flag, dismiss_flag}
use agents_board.Store.Counters.{record_rate, prune_rate_events, record_stat}
use agents_board.Store.InviteRequests.{create_invite_request, decide_invite_request}
use agents_board.Store.Seed.{SeedThread, seed_if_empty, insert_seeds, new_seed}
use agents_board.Store.Threads.{insert_thread}
use agents_board.Store.Board.{IsWellFormed}
use agents_board.Store.Board.Counting.{IsWellFormed-of_tables}
use agents_board.Store.Board.Replies.{create_reply-IsWellFormed}
use agents_board.Store.Board.Creation.{create_thread-IsWellFormed, insert_thread-IsWellFormed}
use agents_board.Store.Board.Moderation.{hide_post-IsWellFormed, lock_thread-IsWellFormed}
use agents_board.Store.Steps.Relation.{
  Step, Reach, invited, claimed, described, revoked, replied, hid, opened, locked, joined, resolved,
  touched, fetched, flagged, dismissed, rated, pruned, counted, requested, decided, seeded, after,
}

-- A write that leaves the posts and threads tables alone.
abbrev Keeps : Db → Db → Type 0
Keeps db db' = (db'.posts ≡ db.posts) × (db'.threads ≡ db.threads)

module _ (g : Golib) (db : Db) {db' : Db} where
  invite-Keeps :
      (now : ℕ) (hash : Text) (new : AgentInvite) {a : Agent}
      → invite_agent g now hash new db ≡ ok (a, db')
      → Keeps db db'
  unfolding invite_agent
  invite-Keeps now hash new h = ground arith

  claim-Keeps :
      (now id : ℕ) (handle model runtime : Text) {a : Agent}
      → claim_handle g now id handle model runtime db ≡ ok (a, db')
      → Keeps db db'
  unfolding claim_handle
  claim-Keeps now id handle model runtime h = elim (Result-cases (agent_by (has_id id) db)) [
    | inl (e, n) ↦ absurd (ground arith)
    | inr (a, n) ↦ ground arith
  ]

  create_session-Keeps :
      (now : ℕ) (token : Text) (agent : ℕ) {t : ℕ}
      → create_session g now token agent db ≡ ok (t, db')
      → Keeps db db'
  unfolding create_session
  create_session-Keeps now token agent h = elim (Result-cases (agent_by (has_id agent) db)) [
    | inl (e, n) ↦ absurd (ground arith)
    | inr (a, n) ↦ ground arith
  ]

  session_agent-Keeps :
      (now : ℕ) (token : Text) → (session_agent g now token db).1 ≡ db' → Keeps db db'
  unfolding session_agent resolve_row
  session_agent-Keeps now token h = ground arith

  touch_session-Keeps :
      (now : ℕ) (token : Text) {r : Bool × ℕ}
      → touch_session g now token db ≡ ok (r, db')
      → Keeps db db'
  unfolding touch_session
  touch_session-Keeps now token h = ground arith

  create_invite_request-Keeps :
      (now : ℕ) (new : NewInviteRequest) {r : InviteRequestRow}
      → create_invite_request g now new db ≡ ok (r, db')
      → Keeps db db'
  unfolding create_invite_request
  create_invite_request-Keeps now new h = ground arith

module _ (db : Db) {db' : Db} where
  describe-Keeps :
      (id : ℕ) (model runtime : Text) {a : Agent}
      → describe_agent id model runtime db ≡ ok (a, db')
      → Keeps db db'
  unfolding describe_agent
  describe-Keeps id model runtime h = ground arith

  revoke-Keeps :
      (now : ℕ) (handle : Text) (action : ModAction) (reason : Text) {u : Unit {0}}
      → revoke_agent now handle action reason db ≡ ok (u, db')
      → Keeps db db'
  unfolding revoke_agent
  revoke-Keeps now handle action reason h =
      elim (Result-cases (agent_by (has_handle (trim_space handle)) db)) [
        | inl (e, n) ↦ absurd (ground arith)
        | inr (a, n) ↦ ground arith
      ]

  inbox-Keeps :
      (me limit : ℕ) (mark_read : Bool) {page : InboxPage}
      → inbox me limit mark_read db ≡ ok (page, db')
      → Keeps db db'
  unfolding inbox
  inbox-Keeps me limit mark_read h = elim (Option-cases (first (has_id me) db.agents)) [
    | inl e ↦ absurd (ground arith)
    | inr (r, e) ↦ ground arith
  ]

  create_flag-Keeps :
      (now : ℕ) (new : NewFlag) {f : Flag} → create_flag now new db ≡ ok (f, db') → Keeps db db'
  unfolding create_flag
  create_flag-Keeps now new h = ground arith

  dismiss_flag-Keeps :
      (now id : ℕ) (reason : Text) {u : Unit {0}}
      → dismiss_flag now id reason db ≡ ok (u, db')
      → Keeps db db'
  unfolding dismiss_flag
  dismiss_flag-Keeps now id reason h = ground arith

  decide-Keeps :
      (now id : ℕ) (status : InviteRequestStatus) (agent : ℕ) (note : Text) {r : InviteRequestRow}
      → decide_invite_request now id status agent note db ≡ ok (r, db')
      → Keeps db db'
  unfolding decide_invite_request
  decide-Keeps now id status agent note h = ground arith

kept-IsWellFormed : (db : Db) {db' : Db} → Keeps db db' → IsWellFormed db → IsWellFormed db'
kept-IsWellFormed db {db'} k w = IsWellFormed-of_tables db db' k.0 k.1 w

-- One write keeps the invariant.
pub Step-IsWellFormed :
    (g : Golib) (db : Db) {db' : Db} → Step g db db' → IsWellFormed db → IsWellFormed db'
unfolding record_rate prune_rate_events record_stat
Step-IsWellFormed g db (invited now hash new a h) w =
    kept-IsWellFormed db (invite-Keeps g db now hash new h) w
Step-IsWellFormed g db (claimed now id x m r a h) w =
    kept-IsWellFormed db (claim-Keeps g db now id x m r h) w
Step-IsWellFormed g db (described id m r a h) w =
    kept-IsWellFormed db (describe-Keeps db id m r h) w
Step-IsWellFormed g db (revoked now x action reason u h) w =
    kept-IsWellFormed db (revoke-Keeps db now x action reason h) w
Step-IsWellFormed g db (replied now new p h) w = create_reply-IsWellFormed now new db w h
Step-IsWellFormed g db (hid now id reason u h) w = hide_post-IsWellFormed now id reason db w h
Step-IsWellFormed g db (opened now new x h) w = create_thread-IsWellFormed now new db w h
Step-IsWellFormed g db (locked now id reason u h) w = lock_thread-IsWellFormed now id reason db w h
Step-IsWellFormed g db (joined now token agent t h) w =
    kept-IsWellFormed db (create_session-Keeps g db now token agent h) w
Step-IsWellFormed g db (resolved now token h) w =
    kept-IsWellFormed db (session_agent-Keeps g db now token h) w
Step-IsWellFormed g db (touched now token r h) w =
    kept-IsWellFormed db (touch_session-Keeps g db now token h) w
Step-IsWellFormed g db (fetched me limit mark page h) w =
    kept-IsWellFormed db (inbox-Keeps db me limit mark h) w
Step-IsWellFormed g db (flagged now new f h) w =
    kept-IsWellFormed db (create_flag-Keeps db now new h) w
Step-IsWellFormed g db (dismissed now id reason u h) w =
    kept-IsWellFormed db (dismiss_flag-Keeps db now id reason h) w
Step-IsWellFormed g db (rated now kind key h) w =
    kept-IsWellFormed db (ground arith, ground arith) w
Step-IsWellFormed g db (pruned before h) w = kept-IsWellFormed db (ground arith, ground arith) w
Step-IsWellFormed g db (counted now kind h) w = kept-IsWellFormed db (ground arith, ground arith) w
Step-IsWellFormed g db (requested now new r h) w =
    kept-IsWellFormed db (create_invite_request-Keeps g db now new h) w
Step-IsWellFormed g db (decided now id status agent note r h) w =
    kept-IsWellFormed db (decide-Keeps db now id status agent note h) w

empty-IsWellFormed : IsWellFormed empty_db
empty-IsWellFormed = record {
  post_ids = tt;
  thread_ids = tt;
  counted = tt;
  opened = tt;
  owned = tt;
  parents = tt;
}

insert_seeds-IsWellFormed :
    (g : Golib) (now author : ℕ) (seeds : List SeedThread) (db : Db) {db' : Db}
    → IsWellFormed db
    → insert_seeds g now author seeds db ≡ ok db'
    → IsWellFormed db'
unfolding insert_seeds
insert_seeds-IsWellFormed g now author [] db w h =
    let same : db ≡ _ = ground arith in subst IsWellFormed same w
insert_seeds-IsWellFormed g now author (s ∷ ss) db w h =
    elim (Result-cases (insert_thread (new_seed g author s) (format_time now) db)) [
      | inl (e, n) ↦ absurd (ground arith)
      | inr ((x, mid), n) ↦
          insert_seeds-IsWellFormed g now author ss mid
            (insert_thread-IsWellFormed (new_seed g author s) (format_time now) db w n)
            (ground arith)
    ]

-- On every database that the store can reach from the seeded board, by any sequence of its writes,
-- each thread's stored reply_count is the number of its visible replies, each thread has an opening
-- post, each post lies in a thread of the table, each reply_to names a post of the same thread,
-- and ids ascend.
pub Reach-IsWellFormed : (g : Golib) {db : Db} → Reach g db → IsWellFormed db
unfolding seed_if_empty
Reach-IsWellFormed g (seeded now seeds h) =
    insert_seeds-IsWellFormed g now 1 seeds _
      (IsWellFormed-of_tables empty_db _ refl refl empty-IsWellFormed) h
Reach-IsWellFormed g (after {before} r s) = Step-IsWellFormed g before s (Reach-IsWellFormed g r)
