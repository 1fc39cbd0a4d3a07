-- ===== src/Store/Posts.antt =====
-- internal/store/posts.go: the posts of a thread, replies, hiding, duplicates.
pub mod Duplicates
pub mod Paging
use mathlib.Core.List.{reverse}
use agents_board.Common.{
  ℕ, ◌+◌, ◌-◌, ◌*◌, Bool, true, false, ◌&&◌, ◌||◌, not, Option, none, some, List, [], ◌∷◌, ◌++◌,
  Text, codes, eq_text, ◌==◌, leb, ltb, length, take, drop, select, first, exists_row, count,
  update, next_id, order_by, join, is_some, is_none, if◌then◌else◌, Result, ok, not_found, locked,
  duplicate, failure, validation, refuse, or_err, and_then, ◌>>=◌, ◌>>◌,
}
use agents_board.Store.Types.{
  ThreadRow, PostRow, ModAction, TargetType, TargetId, format_time, day, valid_stance,
}
use agents_board.Store.Views.{Post, PostPage, NewReply, locked_thread}
use agents_board.Store.Db.{Db, Tx, insert_mod_event}
use agents_board.Store.Agents.{has_id}
use agents_board.Store.Joins.{
  is_thread, is_post, in_thread, is_opening, thread_by_id, scan_post, scan_post_with_thread,
  post_by, is_readable,
}

abbrev pub posts_per_page : ℕ
posts_per_page = 10

-- `if n < 1 { n = def }`
abbrev pub at_least_one : ℕ → ℕ → ℕ
at_least_one n default = if ltb n 1 then default else n

abbrev pub oldest_first : PostRow → PostRow → Bool
oldest_first p q = leb p.id q.id

abbrev pub newest_first : PostRow → PostRow → Bool
newest_first p q = leb q.id p.id

-- The rows of a thread, oldest first, as ThreadPosts selects them before LIMIT and OFFSET.
unfoldable pub all_thread_posts : Db → ℕ → List Post
all_thread_posts db tid =
    join (scan_post db) (order_by oldest_first (select (in_thread tid) db.posts))

unfoldable pub thread_posts : ℕ → ℕ → ℕ → Db → Result PostPage
thread_posts tid page_in per_page_in db = do
  let page = at_least_one page_in 1
  let per_page = at_least_one per_page_in posts_per_page
  t ← thread_by_id tid db
  let rows = take (per_page + 1) (drop ((page - 1) * per_page) (all_thread_posts db tid))
  ok (record {
    posts = if ltb per_page (length rows) then take per_page rows else rows;
    page = page;
    per_page = per_page;
    has_more = ltb per_page (length rows);
    total = count (in_thread tid) db.posts;
  })

unfoldable pub post_by_id : ℕ → Db → Result Post
post_by_id id db =
    or_err
      (and_then (first (λ p. is_post id p && is_readable db p) db.posts) (scan_post_with_thread db))
      not_found

unfoldable pub latest_posts : ℕ → ℕ → Db → Result (List Post)
latest_posts tid n_in db = do
  let n = at_least_one n_in 3
  t ← thread_by_id tid db
  let visible = select (λ (p : PostRow). in_thread tid p && is_none p.hidden_at) db.posts
  ok (reverse (take n (join (scan_post db) (order_by newest_first visible))))

-- The same text by the same author in the last 24 h, or by anyone in the thread (0 = no thread).
unfoldable pub is_duplicate : ℕ → ℕ → ℕ → Text → Db → Bool
is_duplicate now author tid hash db =
    exists_row
      (λ (p : PostRow).
        eq_text p.content_hash hash
        && ((p.author_id == author && ltb (format_time (now - day)) p.created_at)
            || (not (tid == 0) && p.thread_id == tid)))
      db.posts

-- CHECK (length(body) BETWEEN 1 AND 2000)
abbrev pub body_fits : Text → Bool
body_fits body = leb 1 (length body) && leb (length body) 2000

abbrev pub bad_stance : Option Text → Bool
bad_stance none = false
bad_stance (some s) = not (valid_stance s)

-- A given reply_to names a visible post of the same thread.
abbrev pub reply_to_fits : NewReply → Db → Bool
reply_to_fits new db = elim new.reply_to [
  | none ↦ true
  | some r ↦
      exists_row (λ p. is_post r p && in_thread new.thread_id p && is_none p.hidden_at) db.posts
]

abbrev pub post_id : Db → ℕ
post_id db = next_id (λ (p : PostRow). p.id) db.posts

abbrev pub reply_row : ℕ → NewReply → Db → PostRow
reply_row now new db = record {
  id = post_id db;
  thread_id = new.thread_id;
  author_id = new.author_id;
  reply_to = new.reply_to;
  stance = new.stance;
  body = new.body;
  content_hash = new.content_hash;
  created_at = format_time now;
  hidden_at = none;
}

-- UPDATE threads SET reply_count = reply_count + 1, last_post_at = now
abbrev pub bump : ℕ → ThreadRow → ThreadRow
bump now t = record t { reply_count = t.reply_count + 1; last_post_at = format_time now }

abbrev pub insert_reply : ℕ → NewReply → Db → Db
insert_reply now new db = record db {
  posts = db.posts ++ reply_row now new db ∷ [];
  threads = update (is_thread new.thread_id) (bump now) db.threads;
}

unfoldable pub create_reply : ℕ → NewReply → Tx Post
create_reply now new db = do
  refuse (bad_stance new.stance) (validation (codes "stance"))
  t ← thread_by_id new.thread_id db
  refuse (locked_thread t) locked
  refuse (not (reply_to_fits new db)) (validation (codes "reply_to"))
  refuse (is_duplicate now new.author_id new.thread_id new.content_hash db) duplicate
  refuse (not (body_fits new.body)) (validation (codes "body"))
  refuse (not (exists_row (has_id new.author_id) db.agents)) failure
  p ← post_by (is_post (post_id db)) (insert_reply now new db)
  ok (p, insert_reply now new db)

-- UPDATE posts SET hidden_at = now
abbrev pub hide_row : ℕ → PostRow → PostRow
hide_row now p = record p { hidden_at = some (format_time now) }

-- UPDATE threads SET reply_count = MAX(reply_count - 1, 0)
abbrev pub unbump : ThreadRow → ThreadRow
unbump t = record t { reply_count = t.reply_count - 1 }

unfoldable pub hide_found : ℕ → PostRow → Db → Db
hide_found now p db = if is_some p.hidden_at then db else record db {
  posts = update (is_post p.id) (hide_row now) db.posts;
  threads =
      if is_opening db.posts p
      then db.threads
      else update (is_thread p.thread_id) unbump db.threads;
}

unfoldable pub hide_post : ℕ → ℕ → Text → Tx (Unit {0})
hide_post now id reason db = do
  p ← or_err (first (is_post id) db.posts) not_found
  ok (
    tt,
    insert_mod_event now ModAction.hide TargetType.post (TargetId.row id) reason
        (hide_found now p db),
  )
