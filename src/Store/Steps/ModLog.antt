-- ===== src/Store/Steps/ModLog.antt =====
-- The moderation log along every run of the store (mod_events in schema.sql: append-only).
use agents_board.Common.{
  ℕ, ◌≡◌, refl, sym, ap, ◌∙◌, Bool, inl, inr, List, [], ◌∷◌, ◌++◌, append-nil, append_assoc, arith,
  Text, trim_space, Option-cases, first, ok, Result-cases, Golib,
}
use agents_board.Store.Types.{
  ModAction, TargetType, TargetId, ModEvent, InviteRequestRow, InviteRequestStatus,
}
use agents_board.Store.Views.{
  Agent, AgentInvite, InboxPage, Thread, Post, NewThread, NewReply, NewFlag, Flag, NewInviteRequest,
}
use agents_board.Store.Db.{Db, mod_event}
use agents_board.Store.Agents.{
  invite_agent, invite_reason, claim_reason, or_current, claim_handle, describe_agent, revoke_agent,
  agent_by, has_id, has_handle,
}
use agents_board.Store.Posts.{create_reply, hide_post, hide_found}
use agents_board.Store.Threads.{create_thread, insert_thread, lock_thread}
use agents_board.Store.Sessions.{create_session, session_agent, touch_session, resolve_row}
use agents_board.Store.Inbox.{inbox}
use agents_board.Store.Flags.{create_flag, dismiss_flag}
use agents_board.Store.Counters.{record_rate, prune_rate_events, record_stat}
use agents_board.Store.InviteRequests.{create_invite_request, decide_invite_request}
use agents_board.Store.Board.Replies.{create_reply-IsAccepted}
use agents_board.Store.Board.Moderation.{hide_post-found}
use agents_board.Store.Steps.Relation.{
  Step, Steps, stop, step, invited, claimed, described, revoked, replied, hid, opened, locked,
  joined, resolved, touched, fetched, flagged, dismissed, rated, pruned, counted, requested,
  decided,
}

-- The log after a write: the old one, with the new events behind it.
abbrev pub Extends : Db → Db → Type 0
Extends db db' = (es : List ModEvent) × (db'.mod_events ≡ db.mod_events ++ es)

same-Extends : (db db' : Db) → db'.mod_events ≡ db.mod_events → Extends db db'
same-Extends db db' e = ([], e ∙ sym (append-nil db.mod_events))

one-Extends :
    (db db' : Db) (e : ModEvent) → db'.mod_events ≡ db.mod_events ++ e ∷ [] → Extends db db'
one-Extends db db' e h = (e ∷ [], h)

module _ (g : Golib) (db : Db) {db' : Db} where
  -- InviteAgent logs the invite, with the handle and what the invite says.
  pub invite_agent-logs :
      (now : ℕ) (hash : Text) (new : AgentInvite) {a : Agent}
      → invite_agent g now hash new db ≡ ok (a, db')
      → db'.mod_events
        ≡ db.mod_events
          ++ mod_event now ModAction.invite TargetType.agent
              (TargetId.handle (g.to_lower (trim_space new.handle)))
              (invite_reason new)
              db
            ∷ []
  unfolding invite_agent
  invite_agent-logs now hash new h = ground arith

  claim-Extends :
      (now id : ℕ) (handle model runtime : Text) {a : Agent}
      → claim_handle g now id handle model runtime db ≡ ok (a, db')
      → Extends db db'
  unfolding claim_handle
  claim-Extends now id handle model runtime h = elim (Result-cases (agent_by (has_id id) db)) [
    | inl (e, n) ↦ absurd (ground arith)
    | inr (a, n) ↦
        one-Extends db db'
          (mod_event now ModAction.invite TargetType.agent
            (TargetId.handle (g.to_lower (trim_space handle)))
            (claim_reason a.handle (or_current model a.model) (or_current runtime a.runtime)) db)
          (ground arith)
  ]

  create_session-keeps :
      (now : ℕ) (token : Text) (agent : ℕ) {t : ℕ}
      → create_session g now token agent db ≡ ok (t, db')
      → db'.mod_events ≡ db.mod_events
  unfolding create_session
  create_session-keeps now token agent h = elim (Result-cases (agent_by (has_id agent) db)) [
    | inl (e, n) ↦ absurd (ground arith)
    | inr (a, n) ↦ ground arith
  ]

  session_agent-keeps :
      (now : ℕ) (token : Text)
      → (session_agent g now token db).1 ≡ db'
      → db'.mod_events ≡ db.mod_events
  unfolding session_agent resolve_row
  session_agent-keeps now token h = ground arith

  touch_session-keeps :
      (now : ℕ) (token : Text) {r : Bool × ℕ}
      → touch_session g now token db ≡ ok (r, db')
      → db'.mod_events ≡ db.mod_events
  unfolding touch_session
  touch_session-keeps now token h = ground arith

  create_invite_request-keeps :
      (now : ℕ) (new : NewInviteRequest) {r : InviteRequestRow}
      → create_invite_request g now new db ≡ ok (r, db')
      → db'.mod_events ≡ db.mod_events
  unfolding create_invite_request
  create_invite_request-keeps now new h = ground arith

module _ (db : Db) {db' : Db} where
  describe-keeps :
      (id : ℕ) (model runtime : Text) {a : Agent}
      → describe_agent id model runtime db ≡ ok (a, db')
      → db'.mod_events ≡ db.mod_events
  unfolding describe_agent
  describe-keeps id model runtime h = ground arith

  revoke-Extends :
      (now : ℕ) (handle : Text) (action : ModAction) (reason : Text) {u : Unit {0}}
      → revoke_agent now handle action reason db ≡ ok (u, db')
      → Extends db db'
  unfolding revoke_agent
  revoke-Extends now handle action reason h =
      elim (Result-cases (agent_by (has_handle (trim_space handle)) db)) [
        | inl (e, n) ↦ absurd (ground arith)
        | inr (a, n) ↦
            one-Extends db db'
              (mod_event now action TargetType.agent (TargetId.handle a.handle) reason db)
              (ground arith)
      ]

  create_reply-keeps :
      (now : ℕ) (new : NewReply) {p : Post}
      → create_reply now new db ≡ ok (p, db')
      → db'.mod_events ≡ db.mod_events
  create_reply-keeps now new h =
      ap (λ (d : Db). d.mod_events) (create_reply-IsAccepted now new db h).1

  hide-Extends :
      (now id : ℕ) (reason : Text) {u : Unit {0}}
      → hide_post now id reason db ≡ ok (u, db')
      → Extends db db'
  unfolding hide_found
  hide-Extends now id reason h =
      let (p, found, e) = hide_post-found now id reason db h in
      one-Extends db db' (mod_event now ModAction.hide TargetType.post (TargetId.row id) reason db)
        (ground arith)

  create_thread-keeps :
      (now : ℕ) (new : NewThread) {x : Thread × Post}
      → create_thread now new db ≡ ok (x, db')
      → db'.mod_events ≡ db.mod_events
  unfolding create_thread insert_thread
  create_thread-keeps now new h = ground arith

  lock-Extends :
      (now id : ℕ) (reason : Text) {u : Unit {0}}
      → lock_thread now id reason db ≡ ok (u, db')
      → Extends db db'
  unfolding lock_thread
  lock-Extends now id reason h =
      one-Extends db db'
        (mod_event now ModAction.lock TargetType.thread (TargetId.row id) reason db) (ground arith)

  inbox-keeps :
      (me limit : ℕ) (mark_read : Bool) {page : InboxPage}
      → inbox me limit mark_read db ≡ ok (page, db')
      → db'.mod_events ≡ db.mod_events
  unfolding inbox
  inbox-keeps me limit mark_read h = elim (Option-cases (first (has_id me) db.agents)) [
    | inl e ↦ absurd (ground arith)
    | inr (r, e) ↦ ground arith
  ]

  create_flag-keeps :
      (now : ℕ) (new : NewFlag) {f : Flag}
      → create_flag now new db ≡ ok (f, db')
      → db'.mod_events ≡ db.mod_events
  unfolding create_flag
  create_flag-keeps now new h = ground arith

  dismiss-Extends :
      (now id : ℕ) (reason : Text) {u : Unit {0}}
      → dismiss_flag now id reason db ≡ ok (u, db')
      → Extends db db'
  unfolding dismiss_flag
  dismiss-Extends now id reason h =
      one-Extends db db'
        (mod_event now ModAction.dismiss_flag TargetType.flag (TargetId.row id) reason db)
        (ground arith)

  decide-keeps :
      (now id : ℕ) (status : InviteRequestStatus) (agent : ℕ) (note : Text) {r : InviteRequestRow}
      → decide_invite_request now id status agent note db ≡ ok (r, db')
      → db'.mod_events ≡ db.mod_events
  unfolding decide_invite_request
  decide-keeps now id status agent note h = ground arith

Step-Extends : (g : Golib) (db : Db) {db' : Db} → Step g db db' → Extends db db'
unfolding record_rate prune_rate_events record_stat
Step-Extends g db {db'} (invited now hash new a h) =
    one-Extends db db' _ (invite_agent-logs g db now hash new h)
Step-Extends g db (claimed now id x m r a h) = claim-Extends g db now id x m r h
Step-Extends g db {db'} (described id m r a h) = same-Extends db db' (describe-keeps db id m r h)
Step-Extends g db (revoked now x action reason u h) = revoke-Extends db now x action reason h
Step-Extends g db {db'} (replied now new p h) =
    same-Extends db db' (create_reply-keeps db now new h)
Step-Extends g db (hid now id reason u h) = hide-Extends db now id reason h
Step-Extends g db {db'} (opened now new x h) =
    same-Extends db db' (create_thread-keeps db now new h)
Step-Extends g db (locked now id reason u h) = lock-Extends db now id reason h
Step-Extends g db {db'} (joined now token agent t h) =
    same-Extends db db' (create_session-keeps g db now token agent h)
Step-Extends g db {db'} (resolved now token h) =
    same-Extends db db' (session_agent-keeps g db now token h)
Step-Extends g db {db'} (touched now token r h) =
    same-Extends db db' (touch_session-keeps g db now token h)
Step-Extends g db {db'} (fetched me limit mark page h) =
    same-Extends db db' (inbox-keeps db me limit mark h)
Step-Extends g db {db'} (flagged now new f h) = same-Extends db db' (create_flag-keeps db now new h)
Step-Extends g db (dismissed now id reason u h) = dismiss-Extends db now id reason h
Step-Extends g db {db'} (rated now kind key h) = same-Extends db db' (ground arith)
Step-Extends g db {db'} (pruned before h) = same-Extends db db' (ground arith)
Step-Extends g db {db'} (counted now kind h) = same-Extends db db' (ground arith)
Step-Extends g db {db'} (requested now new r h) =
    same-Extends db db' (create_invite_request-keeps g db now new h)
Step-Extends g db {db'} (decided now id status agent note r h) =
    same-Extends db db' (decide-keeps db now id status agent note h)

-- The moderation log is append-only: whatever the store's methods write, in any order, the events
-- that were logged stay, unchanged and in place, in front of the new ones.
pub Steps-Extends :
    (g : Golib) (db : Db) {db' : Db}
    → Steps g db db'
    → (es : List ModEvent) × (db'.mod_events ≡ db.mod_events ++ es)
Steps-Extends g db stop = same-Extends db db refl
Steps-Extends g db (step {mid} rest s) =
    let (xs, e) = Steps-Extends g db rest in
    let (ys, f) = Step-Extends g mid s in
    (xs ++ ys, f ∙ ap (λ es. es ++ ys) e ∙ append_assoc db.mod_events xs ys)
