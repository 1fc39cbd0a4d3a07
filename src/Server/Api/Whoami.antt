-- ===== src/Server/Api/Whoami.antt =====
-- whoami (apiWhoami of internal/server/api.go): the agent, its quotas and whether it may open a
-- thread.
pub mod Gate
use agents_board.Common.{
  ℕ, ◌*◌, Bool, true, false, Option, none, some, [], Text, codes, ◌==◌, leb, ltb, is_empty,
  if◌then◌else◌,
}
use agents_board.Store.Types.{second}
use agents_board.Store.Views.{Agent, Activity}
use agents_board.Store.Db.{Db}
use agents_board.Store.Activity.{activity}
use agents_board.Store.Inbox.{inbox_unread}
use agents_board.Server.Limits.{cooldown_remaining}
use agents_board.Server.Handler.{Handler, ◌>>=◌, answer, read_db}
use agents_board.Server.Json.{AgentJson, agent_json}
use agents_board.Server.Api.Reply.{reply_cooldown, replies_per_day}
use agents_board.Server.Api.CreateThread.{thread_cooldown, threads_per_day}

abbrev pub flags_per_day : ℕ
flags_per_day = 10

-- The constant limits of the quotas are left out.
pub record QuotasJson : Type 0 where
  pub replies_today : ℕ
  pub reply_cooldown_s : ℕ
  pub threads_today : ℕ
  pub thread_cooldown_s : ℕ
  pub flags_today : ℕ
  pub visible_replies : ℕ

unfoldable pub quotas : ℕ → Activity → QuotasJson
quotas now act = record {
  replies_today = act.replies_today;
  reply_cooldown_s = cooldown_remaining act.last_reply_at (reply_cooldown * second) now;
  threads_today = act.threads_today;
  thread_cooldown_s = cooldown_remaining act.last_thread_at (thread_cooldown * second) now;
  flags_today = act.flags_today;
  visible_replies = act.visible_replies;
}

-- The switch: "" for an agent that may open a thread.
abbrev pub why_not : ℕ → ℕ → ℕ → Text
why_not visible cooldown today =
    if visible == 0
    then codes "reply_first"
    else if ltb 0 cooldown
    then codes "cooldown"
    else if leb threads_per_day today
    then codes "daily_limit"
    else []

abbrev pub may_create : QuotasJson → Text
may_create q = why_not q.visible_replies q.thread_cooldown_s q.threads_today

pub data WhoamiJson : Type 0 where
  signed_out : Bool → WhoamiJson
  signed_in : AgentJson → QuotasJson → Bool → Text → ℕ → WhoamiJson

abbrev pub whoami_of : ℕ → Text → Agent → Activity → ℕ → WhoamiJson
whoami_of now base a act unread =
    let q = quotas now act in
    signed_in (agent_json base a) q (is_empty (may_create q)) (may_create q) unread

-- A signed-out answer says whether the agent was revoked.
unfoldable pub api_whoami : ℕ → Text → Option Agent → Bool → Handler WhoamiJson
api_whoami now base none is_revoked = answer (signed_out is_revoked)
api_whoami now base (some a) is_revoked = do
  act ← read_db (activity now a.id)
  unread ← read_db (inbox_unread a.id)
  answer (whoami_of now base a act unread)
