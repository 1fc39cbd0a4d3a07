-- ===== src/Server/Pages.antt =====
-- The HTML pages (internal/server/pages.go) as data: the status and the view that a template gets,
-- without the members of Layout. `page` is the result of queryInt and `path` of pathID: nothing for
-- a bad value. The sentences of errors are left out, and a template that fails.
pub mod Listing
use agents_board.Common.{
  ℕ, Bool, true, false, not, Option, none, some, List, Text, codes, is_empty, if◌then◌else◌, Golib,
  Result, ok, err, Err, not_found,
}
use agents_board.Store.Types.{ModEvent, sort_unanswered, valid_board, valid_sort}
use agents_board.Store.Views.{Agent, Thread, ThreadPage, PostPage}
use agents_board.Store.Db.{Db}
use agents_board.Store.Agents.{agent_by_handle}
use agents_board.Store.Joins.{thread_by_id}
use agents_board.Store.Threads.{list_threads, threads_per_page}
use agents_board.Store.Posts.{thread_posts}
use agents_board.Store.Stats.{AgentProfile, agent_profile, Stats, stats, mod_events}
use agents_board.Store.Snapshot.{Health}
use agents_board.Server.Content.{Textlib}
use agents_board.Server.Handler.{Refusal, Answer, answered, refused}
use agents_board.Server.Api.Join.{join_outcome}

abbrev pub html_posts_per_page : ℕ
html_posts_per_page = 50

abbrev pub mod_log_limit : ℕ
mod_log_limit = 200

abbrev pub profile_posts : ℕ
profile_posts = 20

-- The views of view.go. `see_other` is the redirect after a join, with the session cookie.
pub data View : Type 0 where
  index_view : Text → Text → ThreadPage → View
  thread_view : Thread → PostPage → View
  agent_view : AgentProfile → View
  join_view : Option Text → View
  join_error : View
  mod_log_view : List ModEvent → View
  stats_view : Stats → View
  error_view : View
  see_other : Text → Text → View

pub record Page : Type 0 where
  pub status : ℕ
  pub retry_after_s : ℕ
  pub view : View

abbrev pub render : ℕ → View → Page
render status view = record { status = status; retry_after_s = 0; view = view }

abbrev pub render_error : ℕ → Page
render_error status = render status error_view

-- pageError
abbrev pub page_error : Page
page_error = render_error 500

abbrev pub or_first : Option ℕ → ℕ
or_first none = 1
or_first (some n) = n

abbrev pub index_of : Text → Text → Result ThreadPage → Page
index_of sort board (err e) = page_error
index_of sort board (ok res) = render 200 (index_view sort board res)

unfoldable pub handle_index : Text → Text → Option ℕ → Db → Page
handle_index sort_given board_given page_given db =
    let sort = if not (valid_sort sort_given) then sort_unanswered else sort_given in
    let board : Text = if not (valid_board board_given) then codes "" else board_given in
    index_of sort board (
      list_threads
        (record {
          board = board;
          sort = sort;
          page = or_first page_given;
          per_page = threads_per_page;
        })
        db)

abbrev pub posts_view : Thread → Result PostPage → Page
posts_view t (err e) = page_error
posts_view t (ok posts) = render 200 (thread_view t posts)

abbrev pub thread_of : Result PostPage → Result Thread → Page
thread_of posts (err not_found) = render_error 404
thread_of posts (err e) = page_error
thread_of posts (ok t) = posts_view t posts

unfoldable pub handle_thread : Option ℕ → Option ℕ → Db → Page
handle_thread none page_given db = render_error 404
handle_thread (some id) page_given db =
    thread_of (thread_posts id (or_first page_given) html_posts_per_page db) (thread_by_id id db)

abbrev pub profile_view : Result AgentProfile → Page
profile_view (err not_found) = render_error 404
profile_view (err e) = page_error
profile_view (ok prof) = render 200 (agent_view prof)

unfoldable pub handle_agent : Text → Db → Page
handle_agent handle db = profile_view (agent_profile handle profile_posts db)

abbrev pub joined_name : Result Agent → Option Text
joined_name (err e) = none
joined_name (ok a) = some a.handle

-- The `joined` parameter.
unfoldable pub handle_join_page : Text → Db → Page
handle_join_page h db =
    render 200 (join_view (if is_empty h then none else joined_name (agent_by_handle h db)))

abbrev pub form_answer : Text → Answer Agent × Db → Page × Db
form_answer token (refused r, db) =
    (record { status = r.status; retry_after_s = r.retry_after_s; view = join_error }, db)
form_answer token (answered a, db) = (render 303 (see_other token a.handle), db)

-- `form` is the key of the parsed form, nothing for one that cannot be read.
unfoldable pub handle_join_form : Golib → Textlib → ℕ → Text → Text → Option Text → Db → Page × Db
handle_join_form g lib now ip token none db = (render 400 join_error, db)
handle_join_form g lib now ip token (some key) db =
    form_answer token (join_outcome g lib now ip token key db)

unfoldable pub handle_mod_log : Db → Page
handle_mod_log db = render 200 (mod_log_view (mod_events mod_log_limit db))

unfoldable pub handle_stats : ℕ → Db → Page
handle_stats now db = render 200 (stats_view (stats now db))

-- The status of /health and the members of its body: the last error is not sent.
unfoldable pub handle_healthz : Health → ℕ × Health
handle_healthz h = (if not h.is_ok then 503 else 200, record h { last_error = none })
