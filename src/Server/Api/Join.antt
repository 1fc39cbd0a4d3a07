-- ===== src/Server/Api/Join.antt =====
-- The join tool: join and apiJoin of internal/server/api.go. `ip` is the hash of the client's
-- address, which is never nil, `token` the fresh session token; the cookie is left out.
pub mod Attempts
pub mod Cookie
use agents_board.Common.{
  ℕ, ◌+◌, Bool, true, false, not, ◌&&◌, ◌||◌, ◌==◌, Option, none, some, List, [], ◌∷◌, Text, codes,
  eq_text, is_empty, is_some, length, ltb, if◌then◌else◌, Golib, trim_space, Err, invalid_key,
  revoked, duplicate, validation,
}
use agents_board.Store.Types.{RateKind, join_attempt, hour}
use agents_board.Store.Views.{Agent}
use agents_board.Store.Db.{Db}
use agents_board.Store.Agents.{agent_by_key, claim_handle, describe_agent, valid_handle}
use agents_board.Store.Sessions.{create_session}
use agents_board.Store.Counters.{record_rate}
use agents_board.Server.Limits.{window}
use agents_board.Server.Content.{Textlib, key_pattern, normalize_text, single_line, check_blocked}
use agents_board.Server.Handler.{
  Refusal, Answer, answered, refused, Handler, ◌>>=◌, ◌>>◌, answer, refuse_with, stop_if, write,
  read_db, write_error, write_validation, write_blocked, write_rate_limited, internal, store_write,
  store_read,
}
use agents_board.Server.Api.{Member, absent, mistyped, given, decoded, required}
use agents_board.Server.Json.{AgentJson, agent_json}

abbrev pub join_per_hour_per_ip : ℕ
join_per_hour_per_ip = 10

abbrev pub describe_max : ℕ
describe_max = 64

-- The first match, "" for none.
abbrev pub first_match : List Text → Text
first_match [] = []
first_match (m ∷ ms) = m

unfoldable pub well_formed_key : Textlib → Text → Bool
well_formed_key lib raw =
    (length raw == 46)
    && lib.match_string key_pattern raw
    && eq_text (first_match (lib.find_all_string key_pattern raw)) raw

abbrev pub limited_until : Option ℕ → Handler (Unit {0})
limited_until none = answer tt
limited_until (some retry) =
    refuse_with (record (write_error 429 (codes "rate_limited")) { retry_after_s = retry })

abbrev pub key_error : Err → Handler Agent
key_error invalid_key = refuse_with (write_error 401 (codes "invalid_key"))
key_error revoked = refuse_with (write_error 403 (codes "revoked"))
key_error e = refuse_with internal

abbrev pub session_error : Err → Handler ℕ
session_error revoked = refuse_with (write_error 403 (codes "revoked"))
session_error e = refuse_with internal

-- The end of the method join: the key's agent and its new session.
unfoldable pub sign_in : Golib → ℕ → Text → Text → Handler Agent
sign_in g now token key = do
  agent ← store_read (agent_by_key g now key) key_error
  expiry ← store_write (create_session g now token agent.id) session_error
  answer agent

-- The limit, on the database with the recorded attempt.
unfoldable pub limited_sign_in : Golib → ℕ → Text → Text → Text → Handler Agent
limited_sign_in g now ip token key = do
  limit ← read_db (window join_attempt (some ip) (join_per_hour_per_ip + 1) hour now)
  limited_until limit
  sign_in g now token key

-- The method join: a refusal carries the status, the code and the retry time of a joinOutcome.
unfoldable pub join_outcome : Golib → Textlib → ℕ → Text → Text → Text → Handler Agent
join_outcome g lib now ip token key = do
  stop_if (not (well_formed_key lib key)) (write_error 422 (codes "validation"))
  write (record_rate now join_attempt ip)
  limited_sign_in g now ip token key

-- What apiJoin writes for a refused join.
abbrev pub join_refusal : Refusal → Refusal
join_refusal r =
    if eq_text r.error (codes "validation")
    then write_validation (codes "key")
    else if eq_text r.error (codes "rate_limited")
    then write_rate_limited r.retry_after_s
    else write_error r.status r.error

abbrev pub with_refusal {ℓ} : {A : Type ℓ} → (Refusal → Refusal) → Answer A × Db → Answer A × Db
with_refusal f (refused r, db) = (refused (f r), db)
with_refusal f (answered a, db) = (answered a, db)

abbrev pub joined : Golib → Textlib → ℕ → Text → Text → Text → Handler Agent
joined g lib now ip token key db =
    with_refusal join_refusal (join_outcome g lib now ip token key db)

-- The end of a text field on one line: its length and the blocked patterns, without a revocation.
abbrev pub blocked_or : Textlib → Text → Handler Text
blocked_or lib norm = elim (check_blocked lib norm) [
  | none ↦ answer norm
  | some reason ↦ refuse_with (write_blocked reason)
]

abbrev pub checked_line : Textlib → Text → ℕ → Text → Handler Text
checked_line lib name max_len norm =
    if ltb (length norm) 1 || ltb max_len (length norm)
    then refuse_with (write_validation name)
    else blocked_or lib norm

unfoldable pub one_line : Golib → Textlib → Text → ℕ → Text → Handler Text
one_line g lib name max_len v = elim (normalize_text g v) [
  | none ↦ refuse_with (record (write_error 422 (codes "control_chars")) { field = name })
  | some norm ↦ checked_line lib name max_len (single_line norm)
]

-- One turn of the loop over model and runtime.
unfoldable pub described : Golib → Textlib → Member Text → Text → Handler (Option Text)
described g lib absent name = answer none
described g lib mistyped name = refuse_with (write_validation name)
described g lib (given v) name = do norm ← one_line g lib name describe_max v; answer (some norm)

abbrev pub valid_or_refused : Text → Handler (Option Text)
valid_or_refused h =
    if not (valid_handle h)
    then refuse_with (write_validation (codes "handle"))
    else answer (some h)

unfoldable pub handle_of : Golib → Member Text → Handler (Option Text)
handle_of g absent = answer none
handle_of g mistyped = refuse_with (write_validation (codes "handle"))
handle_of g (given v) = valid_or_refused (g.to_lower (trim_space v))

abbrev pub claim_error : Err → Handler Agent
claim_error duplicate = refuse_with (write_error 409 (codes "duplicate"))
claim_error (validation f) = refuse_with (write_validation f)
claim_error e = refuse_with internal

abbrev pub text_or : Option Text → Text → Text
text_or none default = default
text_or (some v) default = v

-- A new description of an agent that keeps its handle.
abbrev pub describe : ℕ → Text → Agent → Option Text → Option Text → Handler AgentJson
describe now base a none none = answer (agent_json base a)
describe now base a model runtime = do
  updated ←
      store_write (describe_agent a.id (text_or model a.model) (text_or runtime a.runtime))
        (λ e. refuse_with internal)
  answer (agent_json base updated)

-- The switch on the handle: the agent is unnamed, or the handle is checked against its own.
unfoldable pub named :
    Golib → ℕ → Text → Bool → Agent → Option Text → Option Text → Option Text → Handler AgentJson
named g now base false a none model runtime = refuse_with (write_validation (codes "handle"))
named g now base false a (some h) model runtime = do
  claimed ←
      store_write (claim_handle g now a.id h (text_or model []) (text_or runtime [])) claim_error
  answer (agent_json base claimed)
named g now base true a none model runtime = describe now base a model runtime
named g now base true a (some h) model runtime =
    if not (eq_text h a.handle)
    then refuse_with (write_validation (codes "handle"))
    else describe now base a model runtime

pub record JoinRequest : Type 0 where
  pub key : Member Text
  pub handle : Member Text
  pub model : Member Text
  pub runtime : Member Text

unfoldable pub api_join :
    Golib → Textlib → ℕ → Text → Text → Text → Answer JoinRequest → Handler AgentJson
api_join g lib now base ip token request = do
  f ← decoded request
  key ← required f.key (codes "key")
  model ← described g lib f.model (codes "model")
  runtime ← described g lib f.runtime (codes "runtime")
  handle ← handle_of g f.handle
  a ← joined g lib now ip token (trim_space key)
  named g now base a.handle_locked a handle model runtime
