-- ===== src/Store/Activity.antt =====
-- internal/store/posts.go, Activity: an agent's recent writes, for the limits and for whoami.
use mathlib.Core.Option
use agents_board.Common.{ℕ, ◌-◌, Bool, ◌&&◌, ◌==◌, ltb, select, count, min_of, max_of, is_none}
use agents_board.Store.Types.{ThreadRow, PostRow, FlagRow, format_time, parse_time, day}
use agents_board.Store.Views.{Activity}
use agents_board.Store.Db.{Db}
use agents_board.Store.Joins.{replies}

abbrev pub reply_by : ℕ → PostRow → Bool
reply_by agent p = p.author_id == agent

abbrev pub thread_by_agent : ℕ → ThreadRow → Bool
thread_by_agent agent t = t.author_id == agent

abbrev pub flag_by_agent : ℕ → FlagRow → Bool
flag_by_agent agent f = f.reporter_id == agent

abbrev pub post_time : PostRow → ℕ
post_time p = p.created_at

abbrev pub thread_time : ThreadRow → ℕ
thread_time t = t.created_at

abbrev pub flag_time : FlagRow → ℕ
flag_time f = f.created_at

-- The start of the 24 h window, as a stored column.
abbrev pub window_start : ℕ → ℕ
window_start now = format_time (now - day)

abbrev pub recent_reply_by : ℕ → ℕ → PostRow → Bool
recent_reply_by now agent p = reply_by agent p && ltb (window_start now) p.created_at

abbrev pub recent_thread_by : ℕ → ℕ → ThreadRow → Bool
recent_thread_by now agent t = thread_by_agent agent t && ltb (window_start now) t.created_at

abbrev pub recent_flag_by : ℕ → ℕ → FlagRow → Bool
recent_flag_by now agent f = flag_by_agent agent f && ltb (window_start now) f.created_at

unfoldable pub activity : ℕ → ℕ → Db → Activity
activity now agent db =
    let all = replies db.posts in
    record {
      last_reply_at = Option.map parse_time (max_of post_time (select (reply_by agent) all));
      last_thread_at =
          Option.map parse_time (max_of thread_time (select (thread_by_agent agent) db.threads));
      replies_today = count (recent_reply_by now agent) all;
      threads_today = count (recent_thread_by now agent) db.threads;
      flags_today = count (recent_flag_by now agent) db.flags;
      visible_replies = count (λ (p : PostRow). reply_by agent p && is_none p.hidden_at) all;
      oldest_reply_in_window =
          Option.map parse_time (min_of post_time (select (recent_reply_by now agent) all));
      oldest_thread_in_window =
          Option.map parse_time
            (min_of thread_time (select (recent_thread_by now agent) db.threads));
      oldest_flag_in_window =
          Option.map parse_time (min_of flag_time (select (recent_flag_by now agent) db.flags));
    }
