-- ===== src/Tests/Tools.antt =====
-- Concrete calls of whoami, of the reading tools and of flag.
use agents_board.Common.{
  ◌≡◌, ◌≤◌, refl, codes, some, [], ◌∷◌, true, false, All, length, exists_row, ◌&&◌, is_empty,
}
use agents_board.Store.Types.{valid_flag_reason}
use agents_board.Store.Views.{Agent, Thread, Post, NewThread, NewFlag, Flag}
use agents_board.Store.Db.{Db}
use agents_board.Store.Agents.{scan_agent}
use agents_board.Store.Activity.{activity}
use agents_board.Store.Joins.{is_post, is_readable}
use agents_board.Store.Posts.{posts_per_page, thread_posts, all_thread_posts}
use agents_board.Store.Threads.{create_thread}
use agents_board.Store.Flags.{create_flag, same_report, scan_flag}
use agents_board.Store.Inbox.{
  inbox, inbox_unread, inbox_max_limit, inbox_item, unread_rows, is_unread, is_for_me,
  answers_my_post, last_id,
}
use agents_board.Server.Limits.{cooldown_remaining, daily_remaining, retry_after_s}
use agents_board.Server.Content.{Textlib, clip_body}
use agents_board.Server.Handler.{Answer, answered, store_write}
use agents_board.Server.Json.{json_body}
use agents_board.Server.Api.{given}
use agents_board.Server.Api.CreateThread.{open_thread, create_error}
use agents_board.Server.Api.Whoami.{api_whoami, quotas, flags_per_day}
use agents_board.Server.Api.Whoami.Gate.{
  can_create_thread, api_whoami-open_thread, open_thread-api_whoami,
}
use agents_board.Server.Api.Reads.{
  ReadThreadJson, InboxJson, InboxRequest, api_read_thread, api_inbox,
}
use agents_board.Server.Api.Reads.Clipped.{
  IsClipped, api_read_thread-IsClipped, api_inbox-IsClipped,
}
use agents_board.Server.Api.Flag.{file_flag}
use agents_board.Server.Api.Flag.Filed.{file_flag-flags_today}
use agents_board.Tests.Fixture.{program, noon, left_by, replied_board, alice_row}

abbrev alice : Agent
alice = scan_agent alice_row

abbrev digits : Textlib
digits = record {
  format_int = λ n. b'0' ∷ [];
  match_string = λ pattern s. false;
  find_all_string = λ pattern s. [];
}

abbrev topic : NewThread
topic = record {
  author_id = 1;
  board = codes "general";
  title = codes "News";
  body = codes "New.";
  content_hash = codes "New.";
}

abbrev opened_by_alice : Db
opened_by_alice = left_by replied_board (create_thread noon topic replied_board)

alice_may : can_create_thread (api_whoami noon [] (some alice) false replied_board) ≡ true
unfolding program api_whoami quotas activity cooldown_remaining retry_after_s inbox_unread is_empty
alice_may = refl

api_whoami-open_thread_example :
    open_thread noon topic replied_board
    ≡ store_write (create_thread noon topic) (create_error noon) replied_board
unfolding program
api_whoami-open_thread_example =
    api_whoami-open_thread noon [] alice false topic replied_board refl alice_may

alice_opens_one :
    (x : Thread × Post) × (open_thread noon topic replied_board ≡ (answered x, opened_by_alice))
unfolding program open_thread activity cooldown_remaining daily_remaining retry_after_s
alice_opens_one = (_, refl)

open_thread-api_whoami_example :
    can_create_thread (api_whoami noon [] (some alice) false replied_board) ≡ true
unfolding program
open_thread-api_whoami_example =
    open_thread-api_whoami noon [] alice false topic replied_board alice_opens_one.0 opened_by_alice
      refl alice_opens_one.1

thread_read :
    (j : ReadThreadJson) × (api_read_thread digits [] (some 1) (some 1) replied_board
      ≡ (answered j, replied_board))
unfolding program api_read_thread thread_posts all_thread_posts json_body clip_body
thread_read = (_, refl)

api_read_thread-IsClipped_example :
    (length thread_read.0.posts ≤ posts_per_page) × All IsClipped thread_read.0.posts
api_read_thread-IsClipped_example =
    api_read_thread-IsClipped digits [] (some 1) (some 1) replied_board thread_read.0 replied_board
      thread_read.1

abbrev bob : Agent
bob = record alice { id = 2; handle = codes "bob"; has_key = false }

abbrev peek : Answer InboxRequest
peek = answered (record { limit = given 5; mark_read = given false })

inbox_read :
    (j : InboxJson) × (api_inbox digits [] (some bob) false peek replied_board
      ≡ (answered j, replied_board))
unfolding program api_inbox inbox inbox_item unread_rows is_unread is_for_me answers_my_post last_id
    json_body clip_body
inbox_read = (_, refl)

api_inbox-IsClipped_example :
    (length inbox_read.0.items ≤ inbox_max_limit) × All (λ i. IsClipped i.post) inbox_read.0.items
api_inbox-IsClipped_example =
    api_inbox-IsClipped digits [] (some bob) false peek replied_board inbox_read.0 replied_board
      inbox_read.1

abbrev report : NewFlag
report = record { post_id = 1; reporter_id = 1; reason = codes "spam"; note = [] }

abbrev reported : Db
reported = left_by replied_board (create_flag noon report replied_board)

flag_filed : (x : Flag) × (file_flag noon report replied_board ≡ (answered x, reported))
unfolding program file_flag activity daily_remaining retry_after_s create_flag scan_flag
flag_filed = (_, refl)

file_flag-flags_today_example :
    (valid_flag_reason report.reason ≡ true)
    × (exists_row (λ p. is_post report.post_id p && is_readable replied_board p) replied_board.posts
        ≡ true)
    × (exists_row (same_report report) replied_board.flags ≡ false)
    × ((activity noon 1 reported).flags_today ≤ flags_per_day)
file_flag-flags_today_example =
    file_flag-flags_today noon report replied_board flag_filed.0 reported flag_filed.1
