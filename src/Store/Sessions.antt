-- ===== src/Store/Sessions.antt =====
-- internal/store/sessions.go: sign-in sessions.
pub mod Eviction
pub mod SignIn
use agents_board.Common.{
  ℕ, ◌+◌, ◌-◌, ◌*◌, Bool, true, false, ◌&&◌, ◌||◌, not, none, some, List, [], ◌∷◌, ◌++◌, Text,
  eq_text, ◌==◌, leb, ltb, take, select, first, exists_row, update, delete, next_id, order_by,
  if◌then◌else◌, Result, ok, err, not_found, revoked, failure, refuse, or_err, ◌>>=◌, ◌>>◌, Golib,
}
use agents_board.Store.Types.{AgentRow, SessionRow, format_time, parse_time, day}
use agents_board.Store.Views.{Agent, Session, disabled}
use agents_board.Store.Db.{Db, Tx}
use agents_board.Store.Agents.{has_id, agent_by, scan_agent}

abbrev pub max_sessions_per_agent : ℕ
max_sessions_per_agent = 5

abbrev pub session_ttl : ℕ
session_ttl = 90 * day

abbrev pub touch_slack : ℕ
touch_slack = day

abbrev pub of_agent : ℕ → SessionRow → Bool
of_agent id s = s.agent_id == id

abbrev pub has_token : Text → SessionRow → Bool
has_token hash s = eq_text s.token_hash hash

-- ORDER BY created_at DESC, rowid DESC
abbrev pub newer_session : SessionRow → SessionRow → Bool
newer_session s t =
    ltb t.created_at s.created_at || (s.created_at == t.created_at && leb t.rowid s.rowid)

-- The agent's newest sessions, as many as it may have.
unfoldable pub kept_sessions : ℕ → List SessionRow → List SessionRow
kept_sessions id sessions =
    take max_sessions_per_agent (order_by newer_session (select (of_agent id) sessions))

-- DELETE … WHERE agent_id = ? AND rowid NOT IN (the kept ones)
unfoldable pub evict : ℕ → List SessionRow → List SessionRow
evict id sessions =
    let kept = kept_sessions id sessions in
    delete
      (λ (s : SessionRow).
        of_agent id s && not (exists_row (λ (k : SessionRow). k.rowid == s.rowid) kept))
      sessions

abbrev pub session_row : ℕ → Text → ℕ → List SessionRow → SessionRow
session_row now hash agent sessions = record {
  rowid = next_id (λ (s : SessionRow). s.rowid) sessions;
  token_hash = hash;
  agent_id = agent;
  created_at = format_time now;
  expires_at = format_time (now + session_ttl);
}

-- UPDATE agents SET key_last_used_at = now, last_seen_at = now
abbrev pub mark_used : ℕ → AgentRow → AgentRow
mark_used now r = record r {
  key_last_used_at = some (format_time now);
  last_seen_at = some (format_time now);
}

abbrev pub signed_in : ℕ → Text → ℕ → Db → Db
signed_in now hash agent db = record db {
  sessions = evict agent (db.sessions ++ session_row now hash agent db.sessions ∷ []);
  agents = update (has_id agent) (mark_used now) db.agents;
}

-- CreateSession for the fresh random cookie value `token`: the expiry.
unfoldable pub create_session : Golib → ℕ → Text → ℕ → Tx ℕ
create_session g now token agent db = do
  a ← agent_by (has_id agent) db
  refuse (disabled a) revoked
  refuse (exists_row (has_token (g.sha256 token)) db.sessions) failure
  ok (now + session_ttl, signed_in now (g.sha256 token) agent db)

abbrev pub scan_session : SessionRow → Session
scan_session s = record {
  token_hash = s.token_hash;
  agent_id = s.agent_id;
  created_at = parse_time s.created_at;
  expires_at = parse_time s.expires_at;
}

-- The verdict on a session row that was found, with the lazy delete of an expired one.
unfoldable pub resolve_row : ℕ → SessionRow → Db → Result (Session × Agent) × Db
resolve_row now s db = elim (first (has_id s.agent_id) db.agents) [
  | none ↦ (err not_found, db)
  | some r ↦
      if not (ltb now (parse_time s.expires_at))
      then (err not_found, record db { sessions = delete (has_token s.token_hash) db.sessions })
      else if disabled (scan_agent r)
      then (err revoked, db)
      else (ok (scan_session s, scan_agent r), db)
]

unfoldable pub session_agent : Golib → ℕ → Text → Db → Result (Session × Agent) × Db
session_agent g now token db = elim (first (has_token (g.sha256 token)) db.sessions) [
  | none ↦ (err not_found, db)
  | some s ↦ resolve_row now s db
]

abbrev pub extended_db : ℕ → SessionRow → Db → Db
extended_db now s db = record db {
  sessions =
      update (has_token s.token_hash)
        (λ (r : SessionRow). record r { expires_at = format_time (now + session_ttl) }) db.sessions;
  agents =
      update (has_id s.agent_id)
        (λ (r : AgentRow). record r { last_seen_at = some (format_time now) }) db.agents;
}

-- TouchSession: whether the expiry was moved, and the expiry.
unfoldable pub touch_session : Golib → ℕ → Text → Tx (Bool × ℕ)
touch_session g now token db = do
  s ← or_err (first (has_token (g.sha256 token)) db.sessions) not_found
  let current = parse_time s.expires_at
  ok (
      if ltb (now + (session_ttl - touch_slack)) current
      then ((false, current), db)
      else ((true, now + session_ttl), extended_db now s db))
