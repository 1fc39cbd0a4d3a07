-- ===== src/Server/Api.antt =====
-- internal/server/api.go: what the tools share: the members of a request, the check of a text with
-- the revocation of leaked keys, and the waits. The clock is read once for a request; the agent's
-- lock makes the limits and the insert of a writing tool one step.
pub mod Reply
pub mod CreateThread
pub mod Gates
pub mod Accepted
pub mod Parts
pub mod Rested
pub mod Posted
pub mod Session
pub mod Whoami
pub mod Reads
pub mod Flag
pub mod Join
pub mod RequestInvite
use agents_board.Common.{
  zero, suc, ℕ, ◌+◌, ◌*◌, Bool, true, false, not, ◌&&◌, ◌||◌, Option, none, some, List, [], ◌∷◌,
  ◌++◌, Text, codes, eq_text, is_empty, ◌==◌, leb, ltb, length, if◌then◌else◌, Golib, Err, Result,
  ok, err, not_found, locked, duplicate, validation,
}
use agents_board.Store.Types.{
  ModAction, second, dup_rejected, gate_refused, content_blocked, valid_board, valid_stance,
}
use agents_board.Store.Views.{Agent, Thread, Post, NewThread, NewReply, Activity, locked_thread}
use agents_board.Store.Db.{Db}
use agents_board.Store.Agents.{agent_by_id, agent_id_by_key_hash, revoke_agent}
use agents_board.Store.Joins.{thread_by_id}
use agents_board.Store.Posts.{create_reply, latest_posts}
use agents_board.Store.Threads.{create_thread}
use agents_board.Store.Counters.{record_stat}
use agents_board.Store.Activity.{activity}
use agents_board.Server.Limits.{cooldown_remaining, daily_remaining, count_limited}
use agents_board.Server.Content.{
  Textlib, normalize_text, single_line, check_blocked, board_key, key_pattern,
}
use agents_board.Server.Handler.{
  Refusal, Answer, Handler, ◌>>=◌, ◌>>◌, answer, refuse_with, stop_if, write, read_db, write_error,
  write_validation, write_blocked, write_rate_limited, internal, store_write, store_read,
}

-- A member of the decoded JSON object: absent or null, of the asked type, of another type.
pub data Member {ℓ} (A : Type ℓ) : Type ℓ where
  absent mistyped : Member A
  given : A → Member A

abbrev pub required {ℓ} : {A : Type ℓ} → Member A → Text → Handler A
required absent name = refuse_with (write_validation name)
required mistyped name = refuse_with (write_validation name)
required (given a) name = answer a

-- requireSession
abbrev pub require_session : Option Agent → Bool → Handler Agent
require_session (some a) revoked = answer a
require_session none true = refuse_with (write_error 403 (codes "revoked"))
require_session none false = refuse_with (write_error 401 (codes "not_signed_in"))

-- What decodeFields gave: the object, or the refusal it wrote.
abbrev pub decoded {ℓ} : {A : Type ℓ} → Answer A → Handler A
decoded a db = (a, db)

-- The revocations of one leaked key; a key of nobody, or an owner that cannot be revoked, is
-- passed over.
unfoldable pub revoke_leaked : Golib → ℕ → Text → Text → Db → Db
revoke_leaked g now why key db = elim (agent_id_by_key_hash (g.sha256 key) db) [
  | err e ↦ db
  | ok id ↦ elim (agent_by_id id db) [
    | err e ↦ db
    | ok a ↦ elim (revoke_agent now a.handle ModAction.auto_revoke_leak why db) [
      | err e ↦ db
      | ok (u, after) ↦ after
    ]
  ]
]

unfoldable pub revoke_all : Golib → ℕ → Text → List Text → Db → Db
revoke_all g now why [] db = db
revoke_all g now why (key ∷ keys) db = revoke_all g now why keys (revoke_leaked g now why key db)

-- blocked: counts the refusal and, for a leaked key, revokes its owner.
unfoldable pub blocked : Golib → Textlib → ℕ → Text → Text → Text → Db → Db
blocked g lib now origin reason text db =
    let counted = record_stat now content_blocked db in
    if eq_text reason board_key
    then revoke_all g now (codes "key posted in a " ++ origin)
        (lib.find_all_string key_pattern text) counted
    else counted

-- The end of checkText, on the normalized text: its length and the blocked patterns.
unfoldable pub check_norm : Golib → Textlib → ℕ → Text → Text → ℕ → ℕ → Text → Handler Text
check_norm g lib now origin field min_len max_len norm =
    if ltb (length norm) min_len || ltb max_len (length norm)
    then refuse_with (write_validation field)
    else elim (check_blocked lib norm) [
      | none ↦ answer norm
      | some reason ↦ do
        write (blocked g lib now origin reason norm)
        refuse_with (write_blocked reason)
    ]

-- checkText
unfoldable pub check_text : Golib → Textlib → ℕ → Text → Text → Text → ℕ → ℕ → Handler Text
check_text g lib now origin field text min_len max_len = elim (normalize_text g text) [
  | none ↦ refuse_with (record (write_error 422 (codes "control_chars")) { field = field })
  | some plain ↦
      check_norm g lib now origin field min_len max_len
        (if eq_text field (codes "title") then single_line plain else plain)
]

-- writeLimit, when the wait is positive.
abbrev pub wait_out : ℕ → ℕ → Handler (Unit {0})
wait_out now zero = answer tt
wait_out now (suc wait) = do write (count_limited now); refuse_with (write_rate_limited (wait + 1))

abbrev pub path_id : Option ℕ → Handler ℕ
path_id none = refuse_with (write_error 404 (codes "not_found"))
path_id (some id) = answer id

abbrev pub thread_error : Err → Handler Thread
thread_error not_found = refuse_with (write_error 404 (codes "not_found"))
thread_error e = refuse_with internal

-- writeDuplicate
abbrev pub write_duplicate {ℓ} : {A : Type ℓ} → ℕ → Handler A
write_duplicate now = do
  write (record_stat now dup_rejected)
  refuse_with (write_error 409 (codes "duplicate"))
