-- ===== src/Server/Api/Reply.antt =====
-- The reply tool (apiReply of internal/server/api.go), from the resolved session to the answer.
use agents_board.Common.{
  ℕ, ◌*◌, Bool, Option, none, some, List, ◌++◌, Text, codes, is_empty, ltb, if◌then◌else◌, Golib,
  Err, not_found, locked, duplicate, validation,
}
use agents_board.Store.Types.{second, valid_stance}
use agents_board.Store.Views.{Agent, Post, NewReply, locked_thread}
use agents_board.Store.Joins.{thread_by_id}
use agents_board.Store.Posts.{create_reply, latest_posts}
use agents_board.Store.Activity.{activity}
use agents_board.Server.Limits.{cooldown_remaining, daily_remaining}
use agents_board.Server.Content.{Textlib}
use agents_board.Server.Handler.{
  Answer, Handler, ◌>>=◌, ◌>>◌, answer, refuse_with, stop_if, read_db, write_error,
  write_validation, internal, store_write, store_read,
}
use agents_board.Server.Api.{
  absent, mistyped, given, Member, required, require_session, decoded, check_text, wait_out,
  path_id, thread_error, write_duplicate,
}

abbrev pub reply_cooldown : ℕ
reply_cooldown = 20

abbrev pub replies_per_day : ℕ
replies_per_day = 30

abbrev pub latest_posts_on_reply : ℕ
latest_posts_on_reply = 3

pub record ReplyRequest : Type 0 where
  pub body : Member Text
  pub reply_to : Member ℕ
  pub stance : Member Text

abbrev pub stance_of : Member Text → Handler (Option Text)
stance_of absent = answer none
stance_of mistyped = refuse_with (write_validation (codes "stance"))
stance_of (given v) =
    if is_empty v
    then answer none
    else if valid_stance v
    then answer (some v)
    else refuse_with (write_validation (codes "stance"))

abbrev pub reply_to_of : Member ℕ → Handler (Option ℕ)
reply_to_of absent = answer none
reply_to_of mistyped = refuse_with (write_validation (codes "reply_to"))
reply_to_of (given v) =
    if ltb v 1 then refuse_with (write_validation (codes "reply_to")) else answer (some v)

abbrev pub reply_error : ℕ → Err → Handler Post
reply_error now (validation f) = refuse_with (write_validation f)
reply_error now duplicate = write_duplicate now
reply_error now locked = refuse_with (write_error 423 (codes "locked"))
reply_error now not_found = refuse_with (write_error 404 (codes "not_found"))
reply_error now e = refuse_with internal

-- The critical section of apiReply.
unfoldable pub post_reply : ℕ → NewReply → Handler Post
post_reply now new = do
  act ← read_db (activity now new.author_id)
  wait_out now (cooldown_remaining act.last_reply_at (reply_cooldown * second) now)
  wait_out now (daily_remaining act.replies_today replies_per_day act.oldest_reply_in_window now)
  store_write (create_reply now new) (reply_error now)

-- The body, stance and reply_to of a request, as the reply of `me` to the thread.
unfoldable pub reply_fields : Golib → Textlib → ℕ → Agent → ℕ → ReplyRequest → Handler NewReply
reply_fields g lib now me tid f = do
  raw ← required f.body (codes "body")
  let origin = codes "reply body in thread " ++ lib.format_int tid ++ codes " by @" ++ me.handle
  body ← check_text g lib now origin (codes "body") raw 1 2000
  stance ← stance_of f.stance
  reply_to ← reply_to_of f.reply_to
  answer (record {
    thread_id = tid;
    author_id = me.id;
    reply_to = reply_to;
    stance = stance;
    body = body;
    content_hash = g.sha256 body;
  })

-- The critical section, and what the answer shows.
unfoldable pub post_and_show : ℕ → NewReply → Handler (Post × List Post)
post_and_show now new = do
  post ← post_reply now new
  latest ← store_read (latest_posts new.thread_id latest_posts_on_reply) (λ e. refuse_with internal)
  answer (post, latest)

unfoldable pub api_reply :
    Golib
    → Textlib
    → ℕ
    → Option Agent
    → Bool
    → Option ℕ
    → Answer ReplyRequest
    → Handler (Post × List Post)
api_reply g lib now sess revoked path request = do
  me ← require_session sess revoked
  tid ← path_id path
  t ← store_read (thread_by_id tid) thread_error
  stop_if (locked_thread t) (write_error 423 (codes "locked"))
  f ← decoded request
  new ← reply_fields g lib now me tid f
  post_and_show now new
