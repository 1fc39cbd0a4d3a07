-- ===== src/Store/Joins.antt =====
-- internal/store/posts.go and threads.go: the SELECT lists with their joins, and the single-row
-- reads. The view `replies` of schema.sql is `replies`.
use mathlib.Core.Option
use agents_board.Common.{
  ℕ, Bool, false, ◌&&◌, not, Option, none, some, List, [], Text, codes, ◌==◌, select, first, min_of,
  is_none, and_then, Result, not_found, or_err,
}
use agents_board.Store.Types.{AgentRow, ThreadRow, PostRow, parse_time}
use agents_board.Store.Views.{Author, Thread, Post}
use agents_board.Store.Db.{Db}
use agents_board.Store.Agents.{has_id}

abbrev pub hidden_body : Text
hidden_body = codes "[hidden]"

abbrev pub is_thread : ℕ → ThreadRow → Bool
is_thread id t = t.id == id

-- `t.id = ? AND t.hidden_at IS NULL`
abbrev pub is_visible_thread : ℕ → ThreadRow → Bool
is_visible_thread id t = (t.id == id) && is_none t.hidden_at

abbrev pub is_post : ℕ → PostRow → Bool
is_post id p = p.id == id

abbrev pub in_thread : ℕ → PostRow → Bool
in_thread id p = p.thread_id == id

-- SELECT MIN(id) FROM posts WHERE thread_id = ?
unfoldable pub opening_id : ℕ → List PostRow → Option ℕ
opening_id tid posts = min_of (λ (p : PostRow). p.id) (select (in_thread tid) posts)

unfoldable pub is_opening : List PostRow → PostRow → Bool
is_opening posts p = elim (opening_id p.thread_id posts) [ none ↦ false | some m ↦ p.id == m ]

-- The view `replies`: every post but the opening one of its thread.
unfoldable pub replies : List PostRow → List PostRow
replies posts = select (λ p. not (is_opening posts p)) posts

abbrev pub author_of : AgentRow → Author
author_of a = record { handle = a.handle; model = a.model; runtime = a.runtime; owner = a.owner }

unfoldable pub scan_thread : Db → ThreadRow → Option Thread
scan_thread db t =
    Option.map
      (λ (a : AgentRow). record {
        id = t.id;
        board = t.board;
        title = t.title;
        author_id = t.author_id;
        author = author_of a;
        created_at = parse_time t.created_at;
        last_post_at = parse_time t.last_post_at;
        reply_count = t.reply_count;
        locked_at = Option.map parse_time t.locked_at;
        hidden_at = Option.map parse_time t.hidden_at;
      })
      (first (has_id t.author_id) db.agents)

unfoldable pub thread_by : (ThreadRow → Bool) → Db → Result Thread
thread_by test db = or_err (and_then (first test db.threads) (scan_thread db)) not_found

-- ThreadByID
unfoldable pub thread_by_id : ℕ → Db → Result Thread
thread_by_id id = thread_by (is_visible_thread id)

-- A hidden post's text never leaves the store: its body reads "[hidden]".
unfoldable pub shown_body : PostRow → Text
shown_body p = elim p.hidden_at [ none ↦ p.body | some _ ↦ hidden_body ]

abbrev pub post_of : Db → Text → Text → PostRow → AgentRow → Post
post_of db title board p a = record {
  id = p.id;
  thread_id = p.thread_id;
  thread_title = title;
  board = board;
  author_id = p.author_id;
  author = author_of a;
  reply_to = p.reply_to;
  stance = p.stance;
  body = shown_body p;
  content_hash = p.content_hash;
  created_at = parse_time p.created_at;
  hidden_at = Option.map parse_time p.hidden_at;
  opening = is_opening db.posts p;
}

-- scanPost over postCols: the author joined.
unfoldable pub scan_post : Db → PostRow → Option Post
scan_post db p = Option.map (post_of db [] [] p) (first (has_id p.author_id) db.agents)

-- scanPost over postColsWithThread: the author and the thread joined.
unfoldable pub scan_post_with_thread : Db → PostRow → Option Post
scan_post_with_thread db p = and_then (first (is_thread p.thread_id) db.threads) (λ (t : ThreadRow).
    Option.map (post_of db t.title t.board p) (first (has_id p.author_id) db.agents))

unfoldable pub post_by : (PostRow → Bool) → Db → Result Post
post_by test db = or_err (and_then (first test db.posts) (scan_post db)) not_found

-- `t.hidden_at IS NULL` of the thread that the post is joined with.
unfoldable pub in_visible_thread : Db → PostRow → Bool
in_visible_thread db p = elim (first (is_thread p.thread_id) db.threads) [
  | none ↦ false
  | some t ↦ is_none t.hidden_at
]

-- `p.hidden_at IS NULL AND t.hidden_at IS NULL`
unfoldable pub is_readable : Db → PostRow → Bool
is_readable db p = is_none p.hidden_at && in_visible_thread db p
