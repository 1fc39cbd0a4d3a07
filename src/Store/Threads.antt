-- ===== src/Store/Threads.antt =====
-- internal/store/threads.go: listing, creating and locking threads.
use agents_board.Common.{
  ℕ, ◌+◌, ◌-◌, ◌*◌, Bool, true, false, ◌&&◌, ◌||◌, not, Option, none, some, [], ◌∷◌, ◌++◌, Text,
  codes, eq_text, ◌==◌, leb, ltb, length, take, drop, select, exists_row, update, next_id, order_by,
  join, is_none, is_empty, coalesce, if◌then◌else◌, Result, ok, err, not_found, duplicate, failure,
  validation, refuse, ◌>>=◌, ◌>>◌,
}
use agents_board.Store.Types.{
  ThreadRow, PostRow, ModAction, TargetType, TargetId, format_time, valid_board, sort_unanswered,
  sort_active, sort_new,
}
use agents_board.Store.Views.{Thread, Post, NewThread, ThreadPage, ThreadListParams}
use agents_board.Store.Db.{Db, Tx, insert_mod_event}
use agents_board.Store.Agents.{has_id}
use agents_board.Store.Joins.{
  is_thread, is_post, is_visible_thread, scan_thread, thread_by, post_by,
}
use agents_board.Store.Posts.{at_least_one, is_duplicate, body_fits, post_id}

abbrev pub threads_per_page : ℕ
threads_per_page = 20

abbrev pub max_per_page : ℕ
max_per_page = 50

-- ORDER BY t.last_post_at DESC, t.id DESC
abbrev pub active_before : ThreadRow → ThreadRow → Bool
active_before t u =
    ltb u.last_post_at t.last_post_at || (t.last_post_at == u.last_post_at && leb u.id t.id)

-- ORDER BY t.created_at DESC, t.id DESC
abbrev pub new_before : ThreadRow → ThreadRow → Bool
new_before t u = ltb u.created_at t.created_at || (t.created_at == u.created_at && leb u.id t.id)

-- ORDER BY (t.reply_count = 0) DESC, CASE WHEN t.reply_count = 0 THEN t.created_at END ASC,
-- t.last_post_at DESC, t.id DESC
abbrev pub unanswered_before : ThreadRow → ThreadRow → Bool
unanswered_before t u =
    if t.reply_count == 0
    then (if u.reply_count == 0
        then ltb t.created_at u.created_at || (t.created_at == u.created_at && active_before t u)
        else true)
    else (if u.reply_count == 0 then false else active_before t u)

-- The switch on the sort order; `none` is its default branch.
unfoldable pub thread_order : Text → Option (ThreadRow → ThreadRow → Bool)
thread_order s =
    if eq_text s sort_unanswered
    then some unanswered_before
    else if eq_text s sort_active
    then some active_before
    else if eq_text s sort_new
    then some new_before
    else none

-- The WHERE clause: visible, and on the board if one is given.
abbrev pub is_listed : Text → ThreadRow → Bool
is_listed board t = is_none t.hidden_at && (is_empty board || eq_text t.board board)

abbrev pub clamp_per_page : ℕ → ℕ
clamp_per_page n =
    let m = at_least_one n threads_per_page in if ltb max_per_page m then max_per_page else m

unfoldable pub list_threads : ThreadListParams → Db → Result ThreadPage
list_threads p db = do
  let page = at_least_one p.page 1
  let per_page = clamp_per_page p.per_page
  let sort = if is_empty p.sort then sort_unanswered else p.sort
  before ← (elim (thread_order sort) [
    | none ↦ err (validation (codes "sort"))
    | some order ↦ ok order
  ])
  refuse (not (is_empty p.board) && not (valid_board p.board)) (validation (codes "board"))
  let sorted = join (scan_thread db) (order_by before (select (is_listed p.board) db.threads))
  let rows = take (per_page + 1) (drop ((page - 1) * per_page) sorted)
  ok (record {
    threads = if ltb per_page (length rows) then take per_page rows else rows;
    page = page;
    per_page = per_page;
    has_more = ltb per_page (length rows);
  })

-- CHECK (length(title) BETWEEN 3 AND 120)
abbrev pub title_fits : Text → Bool
title_fits title = leb 3 (length title) && leb (length title) 120

abbrev pub thread_id : Db → ℕ
thread_id db = next_id (λ (t : ThreadRow). t.id) db.threads

abbrev pub thread_row : ℕ → NewThread → Db → ThreadRow
thread_row now new db = record {
  id = thread_id db;
  board = new.board;
  title = new.title;
  author_id = new.author_id;
  created_at = now;
  last_post_at = now;
  reply_count = 0;
  locked_at = none;
  hidden_at = none;
}

abbrev pub opening_row : ℕ → NewThread → Db → PostRow
opening_row now new db = record {
  id = post_id db;
  thread_id = thread_id db;
  author_id = new.author_id;
  reply_to = none;
  stance = none;
  body = new.body;
  content_hash = new.content_hash;
  created_at = now;
  hidden_at = none;
}

abbrev pub insert_rows : ℕ → NewThread → Db → Db
insert_rows now new db = record db {
  threads = db.threads ++ thread_row now new db ∷ [];
  posts = db.posts ++ opening_row now new db ∷ [];
}

-- `now` is the stored column that the two rows share.
unfoldable pub insert_thread : NewThread → ℕ → Tx (Thread × Post)
insert_thread new now db = do
  refuse (not (valid_board new.board)) (validation (codes "board"))
  refuse (not (title_fits new.title)) (validation (codes "title"))
  refuse (not (exists_row (has_id new.author_id) db.agents)) failure
  refuse (not (body_fits new.body)) (validation (codes "body"))
  t ← thread_by (is_thread (thread_id db)) (insert_rows now new db)
  p ← post_by (is_post (post_id db)) (insert_rows now new db)
  ok ((t, p), insert_rows now new db)

unfoldable pub create_thread : ℕ → NewThread → Tx (Thread × Post)
create_thread now new db = do
  refuse (is_duplicate now new.author_id 0 new.content_hash db) duplicate
  insert_thread new (format_time now) db

abbrev pub lock_row : ℕ → ThreadRow → ThreadRow
lock_row now t = record t { locked_at = coalesce t.locked_at (format_time now) }

unfoldable pub lock_thread : ℕ → ℕ → Text → Tx (Unit {0})
lock_thread now id reason db = do
  refuse (not (exists_row (is_visible_thread id) db.threads)) not_found
  ok (
    tt,
    insert_mod_event now ModAction.lock TargetType.thread (TargetId.row id) reason
        (record db { threads = update (is_visible_thread id) (lock_row now) db.threads }),
  )
