-- ===== src/Tests/Server.antt =====
-- The server's rules at concrete inputs.
use agents_board.Common.{ℕ, ◌<◌, List}
use agents_board.Store.Views.{NewReply}
use agents_board.Store.Posts.{create_reply, latest_posts}
use agents_board.Server.Api.{given, check_text, check_norm}
use agents_board.Server.Api.Reply.{ReplyRequest, api_reply, reply_fields, post_and_show, post_reply}
use agents_board.Server.Api.CreateThread.{CreateThreadRequest, api_create_thread, open_thread}
use agents_board.Server.Api.Posted.{IsPosted, api_reply-IsPosted}
use agents_board.Common.{◌≤◌, ◌<◌, ◌⊎◌, ◌+◌, ◌-◌, ◌*◌, arith, All, [], ◌∷◌, none, false, eq_text}
use agents_board.Store.Types.{read, second, hour, format_time}
use agents_board.Store.Views.{Thread, Post, NewThread}
use agents_board.Store.Db.{Db, empty_db}
use agents_board.Store.Agents.{scan_agent}
use agents_board.Store.Threads.{create_thread}
use agents_board.Store.Activity.{activity}
use agents_board.Store.Counters.{rate_window, record_rate, prune_rate_events}
use agents_board.Server.Limits.{
  window, admit_read, minute, reads_per_minute, retry_after_s, cooldown_remaining, daily_remaining,
}
use agents_board.Server.Limits.Waiting.{retry_after_s-enough, cooldown_remaining-wait}
use agents_board.Server.Limits.Parallel.{idle, more, elsewhere}
use agents_board.Server.Limits.Windows.{
  rate_window-prune_rate_events, reads_at, admit_read-reads_at,
}
use agents_board.Server.Content.{Textlib, check_blocked, first_reason}
use agents_board.Server.Content.Clean.{IsAllowed, normalize_text-IsAllowed}
use agents_board.Server.Handler.{answered}
use agents_board.Server.Api.Accepted.{IsCreated, api_create_thread-IsCreated}
use agents_board.Common.{◌≡◌, refl, codes, some}
use agents_board.Server.Content.{
  strip_runes, split_lines, trim_blanks, trim_right, join_trimmed, collapse_newlines,
  normalize_text, fields, single_line, join_words,
}
use agents_board.Common.{is_empty, trim_space, trim_left, is_space}
use agents_board.Tests.Fixture.{plain, noon, program, left_by, replied_board, alice_row}

normalized : normalize_text plain (codes " a \t\r\n\n\n\nb\n ") ≡ some (codes "a\n\nb")
unfolding strip_runes split_lines trim_blanks trim_right join_trimmed collapse_newlines
    normalize_text trim_space trim_left is_space
normalized = refl

one_line : single_line (codes " a \n b") ≡ codes "a b"
unfolding single_line fields is_space join_words is_empty
one_line = refl

retry_after_s-enough_example :
    (1 ≤ retry_after_s 2500000000 1000000000)
    × (2500000000 ≤ 1000000000 + retry_after_s 2500000000 1000000000 * second)
    × ((retry_after_s 2500000000 1000000000 ≡ 1)
        ⊎ (1000000000 + (retry_after_s 2500000000 1000000000 - 1) * second < 2500000000))
retry_after_s-enough_example = retry_after_s-enough 2500000000 1000000000

cooldown_remaining-wait_example :
    (cooldown_remaining (some 5) second (7 + cooldown_remaining (some 5) second 7 * second) ≡ 0)
    × (((7 < 5 + second) × (1 ≤ cooldown_remaining (some 5) second 7))
        ⊎ ((5 + second ≤ 7) × (cooldown_remaining (some 5) second 7 ≡ 0)))
cooldown_remaining-wait_example = cooldown_remaining-wait 5 second 7

abbrev one_read : Db
one_read = record_rate noon read (codes "ip") empty_db

rate_window-prune_rate_events_example :
    rate_window read (codes "ip") (noon - minute) (prune_rate_events (noon - hour) one_read)
    ≡ rate_window read (codes "ip") (noon - minute) one_read
rate_window-prune_rate_events_example =
    rate_window-prune_rate_events read (codes "ip") (noon - hour) (noon - minute) one_read
      (omega arith)

-- Another address reads between the check and the record.
abbrev other_read : Db → Db
other_read db = record_rate noon read (codes "other") db

abbrev two_reads : Db
two_reads = record_rate noon read (codes "ip") (other_read one_read)

admitted : admit_read noon (some (codes "ip")) other_read one_read ≡ (none, two_reads)
unfolding admit_read window rate_window record_rate format_time eq_text
admitted = refl

other_key :
    (u : ℕ) → reads_at (codes "ip") u (other_read one_read) ≤ reads_at (codes "ip") u one_read
unfolding rate_window record_rate eq_text
other_key u = ground arith

admit_read-reads_at_example : reads_at (codes "ip") noon two_reads + 0 < reads_per_minute + 1
unfolding rate_window record_rate format_time eq_text
admit_read-reads_at_example =
    admit_read-reads_at (codes "ip") 1 noon noon 0 0 other_read one_read one_read (omega arith) idle
      (omega arith) (more idle (elsewhere (omega arith) other_key)) admitted

normalize_text-IsAllowed_example : All IsAllowed (codes "a\n\nb")
normalize_text-IsAllowed_example =
    normalize_text-IsAllowed plain (codes " a \t\r\n\n\n\nb\n ") normalized

-- No pattern matches.
abbrev no_match : Textlib
no_match = record {
  format_int = λ n. n ∷ [];
  match_string = λ p s. false;
  find_all_string = λ p s. [];
}

abbrev request : CreateThreadRequest
request = record {
  board = given (codes "general");
  title = given (codes "A  title");
  body = given (codes "Hi all");
}

abbrev opened_thread : NewThread
opened_thread = record {
  author_id = 1;
  board = codes "general";
  title = codes "A title";
  body = codes "Hi all";
  content_hash = codes "Hi all";
}

abbrev opened_board : Db
opened_board = left_by replied_board (create_thread noon opened_thread replied_board)

alice_opens :
    (x : Thread × Post) × (api_create_thread plain no_match noon
        (some (scan_agent alice_row))
        false
        (answered request)
        replied_board
      ≡ (answered x, opened_board))
unfolding program api_create_thread check_text check_norm normalize_text strip_runes split_lines
    trim_blanks trim_right join_trimmed collapse_newlines fields single_line join_words is_empty
    check_blocked first_reason open_thread activity cooldown_remaining daily_remaining retry_after_s
alice_opens = (_, refl)

api_create_thread-IsCreated_example :
    IsCreated plain no_match noon
      (some (scan_agent alice_row))
      replied_board
      alice_opens.0
      opened_board
api_create_thread-IsCreated_example =
    api_create_thread-IsCreated plain no_match noon (some (scan_agent alice_row)) false
      (answered request) replied_board alice_opens.1

abbrev reply_request : ReplyRequest
reply_request = record {
  body = given (codes "So true");
  reply_to = given 1;
  stance = given (codes "agree");
}

abbrev alice_reply : NewReply
alice_reply = record {
  thread_id = 1;
  author_id = 1;
  reply_to = some 1;
  stance = some (codes "agree");
  body = codes "So true";
  content_hash = codes "So true";
}

abbrev alice_board : Db
alice_board = left_by replied_board (create_reply noon alice_reply replied_board)

alice_posts :
    (x : Post × List Post) × (api_reply plain no_match noon
        (some (scan_agent alice_row))
        false
        (some 1)
        (answered reply_request)
        replied_board
      ≡ (answered x, alice_board))
unfolding program api_reply reply_fields post_and_show post_reply latest_posts check_text check_norm
    normalize_text strip_runes split_lines trim_blanks trim_right join_trimmed collapse_newlines
    fields single_line join_words is_empty check_blocked first_reason activity cooldown_remaining
    daily_remaining retry_after_s
alice_posts = (_, refl)

api_reply-IsPosted_example :
    IsPosted no_match noon
      (some (scan_agent alice_row))
      replied_board
      alice_posts.0.0
      alice_posts.0.1
      alice_board
api_reply-IsPosted_example =
    api_reply-IsPosted plain no_match noon (some (scan_agent alice_row)) false (some 1)
      (answered reply_request) replied_board alice_posts.1
