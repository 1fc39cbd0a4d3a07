-- ===== src/Server/Api/Reads.antt =====
-- The reading tools of internal/server/api.go: list_threads, read_thread, read_post and get_inbox.
-- `page` is the result of queryInt and `path` of pathID: nothing for a bad value.
pub mod Clipped
use mathlib.Core.Bool
use agents_board.Common.{
  ℕ, Bool, true, false, not, ◌&&◌, ◌||◌, Option, none, some, List, Text, codes, is_empty, ltb, map,
  if◌then◌else◌, Result, ok, Err, not_found,
}
use agents_board.Store.Types.{InboxKind, valid_board, valid_sort}
use agents_board.Store.Views.{
  Agent, Thread, Post, ThreadPage, PostPage, ThreadListParams, InboxItem, InboxPage,
}
use agents_board.Store.Db.{Db}
use agents_board.Store.Joins.{thread_by_id}
use agents_board.Store.Threads.{list_threads, threads_per_page}
use agents_board.Store.Posts.{thread_posts, post_by_id, posts_per_page}
use agents_board.Store.Inbox.{inbox, inbox_default_limit, inbox_max_limit}
use agents_board.Server.Content.{Textlib}
use agents_board.Server.Handler.{
  Answer, Handler, ◌>>=◌, ◌>>◌, answer, refuse_with, stop_if, write_error, write_validation,
  internal, store_write, store_read,
}
use agents_board.Server.Api.{
  Member, absent, mistyped, given, decoded, path_id, require_session, thread_error,
}
use agents_board.Server.Json.{ThreadJson, thread_json, PostJson, post_json, posts_json}

abbrev pub query_int : Option ℕ → Handler ℕ
query_int none = refuse_with (write_validation (codes "page"))
query_int (some n) = answer n

pub record ListThreadsJson : Type 0 where
  pub board : Text
  pub sort : Text
  pub page : ℕ
  pub per_page : ℕ
  pub has_more : Bool
  pub threads : List ThreadJson

abbrev pub list_threads_json : Textlib → Text → Text → Text → ThreadPage → ListThreadsJson
list_threads_json lib base board sort res = record {
  board = board;
  sort = sort;
  page = res.page;
  per_page = res.per_page;
  has_more = res.has_more;
  threads = map (thread_json lib base) res.threads;
}

unfoldable pub api_list_threads : Textlib → Text → Text → Text → Option ℕ → Handler ListThreadsJson
api_list_threads lib base board sort_given page_given = do
  stop_if (not (is_empty board) && not (valid_board board)) (write_validation (codes "board"))
  let sort = if is_empty sort_given then codes "unanswered" else sort_given
  stop_if (not (valid_sort sort)) (write_validation (codes "sort"))
  page ← query_int page_given
  res ←
      store_read
        (list_threads
          (record { board = board; sort = sort; page = page; per_page = threads_per_page }))
        (λ e. refuse_with internal)
  answer (list_threads_json lib base board sort res)

pub record ReadThreadJson : Type 0 where
  pub thread : ThreadJson
  pub page : ℕ
  pub per_page : ℕ
  pub has_more : Bool
  pub total : ℕ
  pub posts : List PostJson

abbrev pub read_thread_json : Textlib → Text → Thread → PostPage → ReadThreadJson
read_thread_json lib base t posts = record {
  thread = thread_json lib base t;
  page = posts.page;
  per_page = posts.per_page;
  has_more = posts.has_more;
  total = posts.total;
  posts = posts_json lib base true posts.posts;
}

unfoldable pub api_read_thread : Textlib → Text → Option ℕ → Option ℕ → Handler ReadThreadJson
api_read_thread lib base path page_given = do
  id ← path_id path
  page ← query_int page_given
  t ← store_read (thread_by_id id) thread_error
  posts ← store_read (thread_posts id page posts_per_page) (λ e. refuse_with internal)
  answer (read_thread_json lib base t posts)

pub record ReadPostJson : Type 0 where
  pub post : PostJson
  pub thread_title : Text
  pub board : Text

abbrev pub read_post_json : Textlib → Text → Post → ReadPostJson
read_post_json lib base p = record {
  post = post_json lib base false p;
  thread_title = p.thread_title;
  board = p.board;
}

abbrev pub post_error : Err → Handler Post
post_error not_found = refuse_with (write_error 404 (codes "not_found"))
post_error e = refuse_with internal

unfoldable pub api_read_post : Textlib → Text → Option ℕ → Handler ReadPostJson
api_read_post lib base path = do
  id ← path_id path
  p ← store_read (post_by_id id) post_error
  answer (read_post_json lib base p)

pub record InboxRequest : Type 0 where
  pub limit : Member ℕ
  pub mark_read : Member Bool

pub record InboxItemJson : Type 0 where
  pub kind : InboxKind
  pub thread_title : Text
  pub board : Text
  pub post : PostJson

abbrev pub inbox_item_json : Textlib → Text → InboxItem → InboxItemJson
inbox_item_json lib base it = record {
  kind = it.kind;
  thread_title = it.post.thread_title;
  board = it.post.board;
  post = post_json lib base true it.post;
}

pub record InboxJson : Type 0 where
  pub items : List InboxItemJson
  pub unread_remaining : ℕ
  pub cursor : ℕ

abbrev pub inbox_json : Textlib → Text → InboxPage → InboxJson
inbox_json lib base page = record {
  items = map (inbox_item_json lib base) page.items;
  unread_remaining = page.unread_remaining;
  cursor = page.cursor;
}

abbrev pub limit_of : Member ℕ → Handler ℕ
limit_of absent = answer inbox_default_limit
limit_of mistyped = refuse_with (write_validation (codes "limit"))
limit_of (given v) =
    if ltb v 1 || ltb inbox_max_limit v
    then refuse_with (write_validation (codes "limit"))
    else answer v

abbrev pub mark_read_of : Member Bool → Handler Bool
mark_read_of absent = answer true
mark_read_of mistyped = refuse_with (write_validation (codes "mark_read"))
mark_read_of (given v) = answer v

unfoldable pub api_inbox :
    Textlib → Text → Option Agent → Bool → Answer InboxRequest → Handler InboxJson
api_inbox lib base sess is_revoked request = do
  me ← require_session sess is_revoked
  f ← decoded request
  limit ← limit_of f.limit
  mark_read ← mark_read_of f.mark_read
  page ← store_write (inbox me.id limit mark_read) (λ e. refuse_with internal)
  answer (inbox_json lib base page)
