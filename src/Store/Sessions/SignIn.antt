-- ===== src/Store/Sessions/SignIn.antt =====
-- CreateSession, SessionAgent and RevokeAgent together (internal/store/sessions.go, agents.go): a
-- fresh session resolves to its agent until it expires, and a revoked agent has no session left.
use mathlib.Core.Path.{subst}
use agents_board.Common.{
  ℕ, ◌+◌, ◌≤◌, ◌<◌, ◌≡◌, ◌≢◌, refl, ap, ◌∙◌, Bool, true, false, none, some, inl, inr, List, [], ◌∷◌,
  arith, ◌==◌, Bool-cases, Option-cases, ==_iff, is_some, coalesce, sym, All, All-every, first,
  exists_row, exists_row-false, update, delete, count, lt-next_id, first-update, All_of_first, Text,
  eq_text_self, ok, Result-cases, Golib, trim_space,
}
use agents_board.Store.Types.{AgentRow, SessionRow, ModAction, format_time, parse_time}
use agents_board.Store.Views.{Agent, Session, disabled}
use agents_board.Store.Db.{Db}
use agents_board.Store.Agents.{has_id, has_handle, agent_by, scan_agent, revoke_agent}
use agents_board.Store.Sessions.{
  session_ttl, of_agent, has_token, session_row, mark_used, signed_in, create_session, scan_session,
  resolve_row, session_agent,
}
use agents_board.Store.Sessions.Eviction.{rowid_of, first-evict}

pub agent_by-row :
    (test : AgentRow → Bool) (db : Db) {a : Agent}
    → agent_by test db ≡ ok a
    → (r : AgentRow) × (first test db.agents ≡ some r) × (a ≡ scan_agent r)
unfolding agent_by
agent_by-row test db {a} h = elim (Option-cases (first test db.agents)) [
  | inl e ↦ absurd (ground arith)
  | inr (r, e) ↦ (r, e, ground arith)
]

agent_by-first :
    (test : AgentRow → Bool) (db : Db) {r : AgentRow}
    → first test db.agents ≡ some r
    → agent_by test db ≡ ok (scan_agent r)
unfolding agent_by
agent_by-first test db e = rw (e, agent_by) refl

pub disabled-scan_agent : (r : AgentRow) → disabled (scan_agent r) ≡ is_some r.disabled_at
unfolding scan_agent
disabled-scan_agent r = ground arith

pub create_session-signed_in :
    (g : Golib) (now : ℕ) (token : Text) (agent : ℕ) (db : Db) {t : ℕ} {db' : Db}
    → create_session g now token agent db ≡ ok (t, db')
    → (r : AgentRow) × (first (has_id agent) db.agents ≡ some r)
      × (r.disabled_at ≡ none)
      × (exists_row (has_token (g.sha256 token)) db.sessions ≡ false)
      × (t ≡ now + session_ttl)
      × (db' ≡ signed_in now (g.sha256 token) agent db)
unfolding create_session
create_session-signed_in g now token agent db h = elim (Result-cases (agent_by (has_id agent) db)) [
  | inl (e, n) ↦ absurd (ground arith)
  | inr (a, n) ↦
      let (r, found, same) = agent_by-row (has_id agent) db n in
      (r, found, ground (arith, disabled-scan_agent r), ground arith, ground arith, ground arith)
]

resolve_row-live :
    (now : ℕ) (s : SessionRow) (r : AgentRow) (db : Db)
    → first (has_id s.agent_id) db.agents ≡ some r
    → now < parse_time s.expires_at
    → disabled (scan_agent r) ≡ false
    → resolve_row now s db ≡ (ok (scan_session s, scan_agent r), db)
unfolding resolve_row
resolve_row-live now s r db found live enabled = rw (found, resolve_row) (ground arith)

session_agent-found :
    (g : Golib) (now : ℕ) (token : Text) (db : Db) {s : SessionRow}
    → first (has_token (g.sha256 token)) db.sessions ≡ some s
    → session_agent g now token db ≡ resolve_row now s db
unfolding session_agent
session_agent-found g now token db e = rw (e, session_agent) refl

-- What the reading of a session that was made at `now` returns: the session with its hash, agent,
-- start and expiry, and the agent as its row now says.
abbrev pub Resolves : Golib → ℕ → ℕ → Text → ℕ → Db → Type 0
Resolves g now later token agent db =
    (s : Session) × (a : Agent) × (session_agent g later token db ≡ (ok (s, a), db))
    × (s.token_hash ≡ g.sha256 token)
    × (s.agent_id ≡ agent)
    × (s.created_at ≡ parse_time (format_time now))
    × (s.expires_at ≡ parse_time (format_time (now + session_ttl)))
    × (a.id ≡ agent)
    × (agent_by (has_id agent) db ≡ ok a)

signed_in-Resolves :
    (g : Golib) (now later : ℕ) (token : Text) (agent : ℕ) (db : Db) (r : AgentRow)
    → first (has_id agent) db.agents ≡ some r
    → r.disabled_at ≡ none
    → exists_row (has_token (g.sha256 token)) db.sessions ≡ false
    → All (λ (s : SessionRow). s.created_at ≤ format_time now) db.sessions
    → later < parse_time (format_time (now + session_ttl))
    → Resolves g now later token agent (signed_in now (g.sha256 token) agent db)
unfolding scan_agent
signed_in-Resolves g now later token agent db r found enabled fresh clock live =
    let y = session_row now (g.sha256 token) agent db.sessions in
    let kept : first (has_token (g.sha256 token)) (signed_in now (g.sha256 token) agent db).sessions
        ≡ some y =
      first-evict db.sessions y (lt-next_id rowid_of db.sessions) clock (has_token (g.sha256 token))
        (exists_row-false _ db.sessions fresh) (eq_text_self (g.sha256 token)) in
    let owner : first (has_id agent) (signed_in now (g.sha256 token) agent db).agents
        ≡ some (mark_used now r) =
      first-update (has_id agent) (mark_used now) db.agents (λ x. refl) found in
    let mine : r.id ≡ agent =
      (==_iff r.id agent).0
        (All_of_first (λ q. Unit {0}) (has_id agent) db.agents (All-every _ db.agents (λ q. tt))
          found).1 in
    (
      scan_session y,
      scan_agent (mark_used now r),
      session_agent-found g later token (signed_in now (g.sha256 token) agent db) kept
          ∙ resolve_row-live later y (mark_used now r) _ owner live
              (disabled-scan_agent (mark_used now r) ∙ ap is_some enabled),
      refl,
      refl,
      refl,
      refl,
      mine,
      agent_by-first (has_id agent) (signed_in now (g.sha256 token) agent db) owner,
    )

-- A session that CreateSession has just made resolves, at every later reading of the clock before
-- its expiry, to that session, with its hash, agent, start and expiry, and to its agent as the table
-- has it, and resolving it writes nothing. (The clock has not gone back: no stored session is newer
-- than this one.)
pub create_session-session_agent :
    (g : Golib) (now later : ℕ) (token : Text) (agent : ℕ) (db : Db) {t : ℕ} {db' : Db}
    → create_session g now token agent db ≡ ok (t, db')
    → All (λ (s : SessionRow). s.created_at ≤ format_time now) db.sessions
    → later < parse_time (format_time (now + session_ttl))
    → Resolves g now later token agent db'
create_session-session_agent g now later token agent db h clock live =
    let (r, found, enabled, fresh, expiry, same) =
      create_session-signed_in g now token agent db h in
    subst (Resolves g now later token agent) (sym same)
      (signed_in-Resolves g now later token agent db r found enabled fresh clock live)

-- RevokeAgent, as one of its two moderation actions on a known handle.
pub revoke_agent-tables :
    (now : ℕ) (handle : Text) (action : ModAction) (reason : Text) (db : Db) {u : Unit {0}}
    {db' : Db}
    → revoke_agent now handle action reason db ≡ ok (u, db')
    → (r : AgentRow) × (first (has_handle (trim_space handle)) db.agents ≡ some r)
      × (db'.sessions ≡ delete (of_agent r.id) db.sessions)
      × (db'.agents
          ≡ update
              (has_id r.id)
              (λ q. record q { disabled_at = coalesce q.disabled_at (format_time now) })
              db.agents)
unfolding revoke_agent scan_agent
revoke_agent-tables now handle action reason db h =
    elim (Result-cases (agent_by (has_handle (trim_space handle)) db)) [
      | inl (e, n) ↦ absurd (ground arith)
      | inr (a, n) ↦
          let (r, found, same) = agent_by-row (has_handle (trim_space handle)) db n in
          (r, found, ground arith, ground arith)
    ]

delete-count :
    (id : ℕ) (sessions : List SessionRow) → count (of_agent id) (delete (of_agent id) sessions) ≡ 0
delete-count id [] = refl
delete-count id (s ∷ ss) = ground (arith, delete-count id ss)

first-disabled :
    (id now : ℕ) (agents : List AgentRow) {q : AgentRow}
    → first (has_id id) (
        update
          (has_id id)
          (λ (r : AgentRow). record r { disabled_at = coalesce r.disabled_at (format_time now) })
          agents)
      ≡ some q
    → is_some q.disabled_at ≡ true
first-disabled id now [] h = cc
first-disabled id now (r ∷ rs) {q} h = elim (Bool-cases (r.id == id)) [
  | inl e ↦ ground arith
  | inr e ↦ first-disabled id now rs {q = q} (ground arith)
]

-- After RevokeAgent succeeds on a handle, the agent that has it is left with no session, and
-- CreateSession refuses to make it a new one.
pub revoke_agent-create_session :
    (g : Golib) (now later : ℕ) (handle : Text) (action : ModAction) (reason token : Text) (db : Db)
    {u : Unit {0}} {db' : Db}
    → revoke_agent now handle action reason db ≡ ok (u, db')
    → (r : AgentRow) × (first (has_handle (trim_space handle)) db.agents ≡ some r)
      × (count (of_agent r.id) db'.sessions ≡ 0)
      × ((t : ℕ) (after : Db) → create_session g later token r.id db' ≢ ok (t, after))
revoke_agent-create_session g now later handle action reason token db {u} {db'} h =
    let (r, found, sessions, agents) = revoke_agent-tables now handle action reason db h in
    (
      r,
      found,
      ap (count (of_agent r.id)) sessions ∙ delete-count r.id db.sessions,
      λ t after made.
          let (q, live, enabled, x1, x2, x3) =
            create_session-signed_in g later token r.id db' made in
          let gone : is_some q.disabled_at ≡ true =
            first-disabled r.id now db.agents (ap (first (has_id r.id)) (sym agents) ∙ live) in
          absurd (ground arith),
    )
