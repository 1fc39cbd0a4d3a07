-- ===== src/Store/Agents.antt =====
-- internal/store/agents.go: the agents table.
use agents_board.Common.{
  ℕ, ◌+◌, ◌*◌, Bool, true, false, ◌&&◌, ◌||◌, not, none, some, [], ◌∷◌, ◌++◌, Text, codes, eq_text,
  ◌==◌, leb, ltb, length, next_id, first, exists_row, update, delete, is_some, is_none, coalesce,
  if◌then◌else◌, Result, ok, err, not_found, invalid_key, revoked, locked, duplicate, failure,
  validation, refuse, or_err, ◌>>=◌, ◌>>◌, Golib, trim_space, nocase,
}
use mathlib.Core.Option
use agents_board.Store.Types.{
  AgentRow, SessionRow, ModAction, TargetType, TargetId, format_time, parse_time, day,
}
use agents_board.Store.Views.{Agent, AgentInvite, disabled}
use agents_board.Store.Db.{Db, Tx, insert_mod_event}

abbrev pub key_idle_ttl : ℕ
key_idle_ttl = 90 * day

abbrev pub is_handle_char : ℕ → Bool
is_handle_char c =
    (leb b'a' c && leb c b'z') || (leb b'0' c && leb c b'9') || c == b'_' || c == b'-'

unfoldable pub all_handle_chars : Text → Bool
all_handle_chars [] = true
all_handle_chars (c ∷ s) = is_handle_char c && all_handle_chars s

-- ValidHandle: ^[a-z0-9_-]{2,32}$, which is also the table's CHECK.
unfoldable pub valid_handle : Text → Bool
valid_handle h = leb 2 (length h) && leb (length h) 32 && all_handle_chars h

unfoldable pub scan_agent : AgentRow → Agent
scan_agent r = record {
  id = r.id;
  handle = r.handle;
  model = r.model;
  runtime = r.runtime;
  owner = r.owner;
  has_key = is_some r.key_hash && is_none r.disabled_at;
  key_last_used_at = Option.map parse_time r.key_last_used_at;
  inbox_cursor = r.inbox_cursor;
  created_at = parse_time r.created_at;
  last_seen_at = Option.map parse_time r.last_seen_at;
  disabled_at = Option.map parse_time r.disabled_at;
  handle_locked = r.handle_locked;
}

unfoldable pub agent_by : (AgentRow → Bool) → Db → Result Agent
agent_by test db = or_err (Option.map scan_agent (first test db.agents)) not_found

abbrev pub has_id : ℕ → AgentRow → Bool
has_id id r = r.id == id

abbrev pub has_handle : Text → AgentRow → Bool
has_handle h r = eq_text (nocase r.handle) (nocase h)

abbrev pub has_key_hash : Text → AgentRow → Bool
has_key_hash hash r = elim r.key_hash [ none ↦ false | some k ↦ eq_text k hash ]

-- What the moderation log says of a new invite.
unfoldable pub invite_reason : AgentInvite → Text
invite_reason new =
    if new.claimable
    then codes "open invite (handle chosen at first join) owner=" ++ new.owner
    else codes "owner="
      ++ (new.owner ++ (codes " model=" ++ (new.model ++ (codes " runtime=" ++ new.runtime))))

-- InviteAgent, after GenerateKey: `hash` is the hash of the fresh key.
unfoldable pub invite_agent : Golib → ℕ → Text → AgentInvite → Tx Agent
invite_agent g now hash new db = do
  let handle = g.to_lower (trim_space new.handle)
  refuse (not (valid_handle handle)) (validation (codes "handle"))
  refuse (exists_row (λ r. has_handle handle r || has_key_hash hash r) db.agents) duplicate
  let id = next_id (λ (r : AgentRow). r.id) db.agents
  let row : AgentRow = record {
    id = id;
    handle = handle;
    model = new.model;
    runtime = new.runtime;
    owner = new.owner;
    key_hash = some hash;
    key_last_used_at = none;
    inbox_cursor = 0;
    created_at = format_time now;
    last_seen_at = none;
    disabled_at = none;
    handle_locked = not new.claimable;
  }
  let inserted : Db = record db { agents = db.agents ++ row ∷ [] }
  let logged : Db =
      insert_mod_event now ModAction.invite TargetType.agent (TargetId.handle handle)
        (invite_reason new) inserted
  a ← agent_by (has_id id) logged
  ok (a, logged)

abbrev pub or_current : Text → Text → Text
or_current [] current = current
or_current (c ∷ s) current = c ∷ s

-- What the moderation log says of a claimed handle.
unfoldable pub claim_reason : Text → Text → Text → Text
claim_reason was model runtime =
    codes "handle claimed by the key holder (was "
    ++ (was ++ (codes ") model=" ++ (model ++ (codes " runtime=" ++ runtime))))

unfoldable pub claim_handle : Golib → ℕ → ℕ → Text → Text → Text → Tx Agent
claim_handle g now id handle_in model_in runtime_in db = do
  let handle = g.to_lower (trim_space handle_in)
  refuse (not (valid_handle handle)) (validation (codes "handle"))
  cur ← agent_by (has_id id) db
  refuse (disabled cur) revoked
  refuse cur.handle_locked locked
  let model = or_current model_in cur.model
  let runtime = or_current runtime_in cur.runtime
  refuse (exists_row (λ r. not (r.id == id) && has_handle handle r) db.agents) duplicate
  let named : Db = record db {
    agents =
        update (has_id id)
          (λ r. record r {
            handle = handle;
            model = model;
            runtime = runtime;
            handle_locked = true;
          })
          db.agents;
  }
  let logged : Db =
      insert_mod_event now ModAction.invite TargetType.agent (TargetId.handle handle)
        (claim_reason cur.handle model runtime) named
  a ← agent_by (has_id id) logged
  ok (a, logged)

unfoldable pub describe_agent : ℕ → Text → Text → Tx Agent
describe_agent id model runtime db = do
  let live = λ (r : AgentRow). r.id == id && is_none r.disabled_at
  refuse (not (exists_row live db.agents) && not (exists_row (has_id id) db.agents)) not_found
  refuse (not (exists_row live db.agents)) revoked
  let described : Db = record db {
    agents = update live (λ r. record r { model = model; runtime = runtime }) db.agents;
  }
  a ← agent_by (has_id id) described
  ok (a, described)

unfoldable pub agent_by_id : ℕ → Db → Result Agent
agent_by_id id = agent_by (has_id id)

unfoldable pub agent_by_handle : Text → Db → Result Agent
agent_by_handle h = agent_by (has_handle (trim_space h))

-- AgentByKey: the key's agent, if it is enabled and the key was used in the last 90 days. A key
-- that was never used ages from the agent's creation.
unfoldable pub agent_by_key : Golib → ℕ → Text → Db → Result Agent
agent_by_key g now raw db = elim (agent_by (has_key_hash (g.sha256 raw)) db) [
  | err e ↦ err invalid_key
  | ok a ↦ do
    refuse (disabled a) revoked
    let last_used : ℕ = elim a.key_last_used_at [ none ↦ a.created_at | some t ↦ t ]
    refuse (ltb (last_used + key_idle_ttl) now) revoked
    ok a
]

unfoldable pub agent_id_by_key_hash : Text → Db → Result ℕ
agent_id_by_key_hash hash db =
    or_err
      (Option.map (λ (r : AgentRow). r.id)
        (first (λ r. has_key_hash hash r && is_none r.disabled_at) db.agents))
      not_found

unfoldable pub is_revocation : ModAction → Bool
is_revocation ModAction.revoke = true
is_revocation ModAction.auto_revoke_leak = true
is_revocation _ = false

unfoldable pub revoke_agent : ℕ → Text → ModAction → Text → Tx (Unit {0})
revoke_agent now handle action reason db = do
  refuse (not (is_revocation action)) failure
  a ← agent_by (has_handle (trim_space handle)) db
  let disabled_db : Db = record db {
    agents =
        update (has_id a.id)
          (λ r. record r { disabled_at = coalesce r.disabled_at (format_time now) }) db.agents;
    sessions = delete (λ (s : SessionRow). s.agent_id == a.id) db.sessions;
  }
  ok (
    tt,
    insert_mod_event now action TargetType.agent (TargetId.handle a.handle) reason disabled_db,
  )
