-- ===== src/Server/Api/Session.antt =====
-- The wrappers of the API routes with the session that they resolve: resolveSession of
-- internal/server/auth.go, apiRead and apiWrite of internal/server/api.go. The limiter's time of the
-- last pruning goes in and out beside the database. A failure of the cookie's refresh is logged
-- alone.
use agents_board.Common.{
  ℕ, Bool, true, false, not, ◌||◌, Option, none, some, List, [], ◌∷◌, Text, codes, eq_text,
  is_empty, if◌then◌else◌, Golib, Result, ok, err, revoked,
}
use agents_board.Store.Views.{Agent, Session}
use agents_board.Store.Db.{Db}
use agents_board.Store.Sessions.{session_agent, touch_session}
use agents_board.Server.Limits.{maybe_prune, admit_read}
use agents_board.Server.Handler.{Answer, refused, Handler, write_error, write_rate_limited}

-- `resent` says that the cookie is sent again with a new expiry.
pub record Resolved : Type 0 where
  pub agent : Agent
  pub session : Session
  pub resent : Bool

abbrev pub touched : Agent → Session → Db → Result ((Bool × ℕ) × Db) → (Option Resolved × Bool) × Db
touched a st db (err e) = ((some (record { agent = a; session = st; resent = false }), false), db)
touched a st db (ok ((extended, expiry), after)) =
    ((some (record { agent = a; session = st; resent = extended }), false), after)

-- The switch on the error of SessionAgent, and the touch of a live session.
abbrev pub resolved_at :
    Golib → ℕ → Text → Result (Session × Agent) × Db → (Option Resolved × Bool) × Db
resolved_at g now token (err revoked, db) = ((none, true), db)
resolved_at g now token (err e, db) = ((none, false), db)
resolved_at g now token (ok (st, a), db) = touched a st db (touch_session g now token db)

-- The cookie's value, empty when there is none.
unfoldable pub resolve_session : Golib → ℕ → Text → Db → (Option Resolved × Bool) × Db
resolve_session g now cookie db =
    if is_empty cookie
    then ((none, false), db)
    else resolved_at g now cookie (session_agent g now cookie db)

abbrev pub tool_names : List Text
tool_names =
    codes "whoami"
    ∷ codes "join"
    ∷ codes "list_threads"
    ∷ codes "read_thread"
    ∷ codes "read_post"
    ∷ codes "get_inbox"
    ∷ codes "reply"
    ∷ codes "create_thread"
    ∷ codes "flag"
    ∷ codes "request_invite"
    ∷ []

-- slices.Contains
unfoldable pub contains : List Text → Text → Bool
contains [] t = false
contains (x ∷ xs) t = eq_text x t || contains xs t

abbrev pub agent_of : Option Resolved → Option Agent
agent_of none = none
agent_of (some s) = some s.agent

-- A handler that gets the agent of the session and whether it is revoked.
abbrev pub ApiHandler {ℓ} : Type ℓ → Type ℓ
ApiHandler A = Option Agent → Bool → Handler A

abbrev pub with_time {ℓ} : {A : Type ℓ} → ℕ → Answer A × Db → Answer A × ℕ × Db
with_time last (a, db) = (a, last, db)

-- The handler after the session is resolved.
abbrev pub run_resolved {ℓ} :
    {A : Type ℓ} → ApiHandler A → ℕ → (Option Resolved × Bool) × Db → Answer A × ℕ × Db
run_resolved h last ((s, is_revoked), db) = with_time last (h (agent_of s) is_revoked db)

-- `is_json` is the test of the Content-Type, `tool` the X-Board-Tool header.
unfoldable pub api_write {ℓ} :
    {A : Type ℓ} → Golib → ℕ → Bool → Text → Text → ApiHandler A → ℕ → Db → Answer A × ℕ × Db
api_write g now is_json tool cookie h last_prune db =
    if not is_json || not (contains tool_names tool)
    then (refused (write_error 400 (codes "bad_request")), last_prune, db)
    else (let pruned = maybe_prune now last_prune db in
        run_resolved h pruned.0 (resolve_session g now cookie pruned.1))

-- The key of the read limit: the session's, else the address's.
abbrev pub read_key : Text → Option Resolved → Text
read_key ip none = ip
read_key ip (some s) = s.session.token_hash

abbrev pub run_admitted {ℓ} :
    {A : Type ℓ} → ApiHandler A → ℕ → Option Agent → Bool → Option ℕ × Db → Answer A × ℕ × Db
run_admitted h last a is_revoked (some retry, db) = (refused (write_rate_limited retry), last, db)
run_admitted h last a is_revoked (none, db) = with_time last (h a is_revoked db)

abbrev pub read_resolved {ℓ} :
    {A : Type ℓ}
    → ℕ
    → Text
    → (Db → Db)
    → ApiHandler A
    → ℕ
    → (Option Resolved × Bool) × Db
    → Answer A × ℕ × Db
read_resolved now ip others h last ((s, is_revoked), db) =
    run_admitted h last (agent_of s) is_revoked (admit_read now (some (read_key ip s)) others db)

-- `ip` is the hash of the client's address, `others` what other requests write between the check of
-- the limit and the record of the read.
unfoldable pub api_read {ℓ} :
    {A : Type ℓ} → Golib → ℕ → Text → Text → (Db → Db) → ApiHandler A → ℕ → Db → Answer A × ℕ × Db
api_read g now ip cookie others h last_prune db =
    let pruned = maybe_prune now last_prune db in
    read_resolved now ip others h pruned.0 (resolve_session g now cookie pruned.1)
