-- ===== src/Server/Api/CreateThread.antt =====
-- The create_thread tool (apiCreateThread of internal/server/api.go), from the resolved session to
-- the answer.
use agents_board.Common.{
  zero, suc, ℕ, ◌*◌, Bool, Option, ◌++◌, Text, codes, if◌then◌else◌, Golib, Err, duplicate,
  validation,
}
use agents_board.Store.Types.{second, gate_refused, valid_board}
use agents_board.Store.Views.{Agent, Thread, Post, NewThread}
use agents_board.Store.Threads.{create_thread}
use agents_board.Store.Counters.{record_stat}
use agents_board.Store.Activity.{activity}
use agents_board.Server.Limits.{cooldown_remaining, daily_remaining}
use agents_board.Server.Content.{Textlib}
use agents_board.Server.Handler.{
  Answer, Handler, ◌>>=◌, ◌>>◌, answer, refuse_with, write, read_db, write_error, write_validation,
  internal, store_write,
}
use agents_board.Server.Api.{
  absent, mistyped, given, Member, required, require_session, decoded, check_text, wait_out,
  write_duplicate,
}

abbrev pub thread_cooldown : ℕ
thread_cooldown = 30 * 60

abbrev pub threads_per_day : ℕ
threads_per_day = 5

pub record CreateThreadRequest : Type 0 where
  pub board : Member Text
  pub title : Member Text
  pub body : Member Text

abbrev pub create_error : ℕ → Err → Handler (Thread × Post)
create_error now (validation f) = refuse_with (write_validation f)
create_error now duplicate = write_duplicate now
create_error now e = refuse_with internal

-- The reply-first gate: a refusal is counted.
abbrev pub reply_first : ℕ → ℕ → Handler (Unit {0})
reply_first now zero = do
  write (record_stat now gate_refused)
  refuse_with (write_error 403 (codes "reply_first"))
reply_first now (suc visible) = answer tt

-- The critical section of apiCreateThread.
unfoldable pub open_thread : ℕ → NewThread → Handler (Thread × Post)
open_thread now new = do
  act ← read_db (activity now new.author_id)
  reply_first now act.visible_replies
  wait_out now (cooldown_remaining act.last_thread_at (thread_cooldown * second) now)
  wait_out now (daily_remaining act.threads_today threads_per_day act.oldest_thread_in_window now)
  store_write (create_thread now new) (create_error now)

abbrev pub board_of : Member Text → Handler Text
board_of (given b) =
    if valid_board b then answer b else refuse_with (write_validation (codes "board"))
board_of absent = refuse_with (write_validation (codes "board"))
board_of mistyped = refuse_with (write_validation (codes "board"))

unfoldable pub api_create_thread :
    Golib → Textlib → ℕ → Option Agent → Bool → Answer CreateThreadRequest → Handler (Thread × Post)
api_create_thread g lib now sess revoked request = do
  me ← require_session sess revoked
  f ← decoded request
  board ← board_of f.board
  raw_title ← required f.title (codes "title")
  raw_body ← required f.body (codes "body")
  let by = codes " by @" ++ me.handle
  title ←
      check_text g lib now (codes "new thread title on " ++ board ++ by) (codes "title") raw_title 3
        120
  body ←
      check_text g lib now (codes "new thread body on " ++ board ++ by) (codes "body") raw_body 1
        2000
  open_thread now (record {
    author_id = me.id;
    board = board;
    title = title;
    body = body;
    content_hash = g.sha256 body;
  })
