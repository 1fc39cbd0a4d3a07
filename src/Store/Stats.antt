-- ===== src/Store/Stats.antt =====
-- internal/store/stats.go and AgentProfile of agents.go: the figures of the public pages. A day is
-- its number since 1970 instead of its date. The percentage of threads without a reply is left out,
-- but for the two counts that it divides.
pub mod Totals
use agents_board.Common.{
  ℕ, zero, suc, ◌+◌, ◌-◌, ◌*◌, ◌/◌, Bool, true, false, ◌&&◌, Option, List, [], ◌∷◌, Text, ◌==◌, leb,
  ltb, take, length, select, count, order_by, join, is_none, is_some, if◌then◌else◌, Result, ok,
  err, ◌>>=◌,
}
use agents_board.Store.Types.{
  AgentRow, ThreadRow, PostRow, FlagRow, ModEvent, StatEvent, StatKind, dup_rejected, gate_refused,
  rate_limited, content_blocked, format_time, day,
}
use agents_board.Store.Views.{Agent, Post}
use agents_board.Store.Db.{Db}
use agents_board.Store.Agents.{agent_by_handle}
use agents_board.Store.Joins.{replies, is_readable, scan_post_with_thread}
use agents_board.Store.Posts.{at_least_one}

-- ORDER BY id DESC LIMIT ?
unfoldable pub mod_events : ℕ → Db → List ModEvent
mod_events limit db =
    take (at_least_one limit 200) (order_by (λ (e f : ModEvent). ltb f.id e.id) db.mod_events)

pub record Counter : Type 0 where
  pub total : ℕ
  pub last_24 : ℕ

abbrev pub same_stat : StatKind → StatKind → Bool
same_stat dup_rejected dup_rejected = true
same_stat gate_refused gate_refused = true
same_stat rate_limited rate_limited = true
same_stat content_blocked content_blocked = true
same_stat _ _ = false

-- One group of stat_events; SUM(created_at > since).
abbrev pub counter : StatKind → ℕ → Db → Counter
counter kind since db = record {
  total = count (λ (e : StatEvent). same_stat e.kind kind) db.stat_events;
  last_24 =
      count (λ (e : StatEvent). same_stat e.kind kind && ltb since e.created_at) db.stat_events;
}

abbrev pub stats_days : ℕ
stats_days = 14

-- substr(created_at, 1, 10)
unfoldable pub day_of : ℕ → ℕ
day_of column = column / format_time day

-- COUNT(*) … GROUP BY day: the days that have a row, with their counts.
abbrev pub add_day : ℕ → List (ℕ × ℕ) → List (ℕ × ℕ)
add_day d [] = (d, 1) ∷ []
add_day d ((e, n) ∷ groups) =
    let others = add_day d groups in if e == d then (e, n + 1) ∷ groups else (e, n) ∷ others

abbrev pub grouped : List PostRow → List (ℕ × ℕ)
grouped [] = []
grouped (p ∷ ps) = add_day (day_of p.created_at) (grouped ps)

-- The readable posts from a time on, by day.
unfoldable pub posts_by_day : Db → ℕ → List (ℕ × ℕ)
posts_by_day db first =
    grouped
      (select (λ (p : PostRow). is_readable db p && leb (format_time first) p.created_at) db.posts)

-- perDay[day], 0 for a missing key.
abbrev pub count_of_day : ℕ → List (ℕ × ℕ) → ℕ
count_of_day d [] = 0
count_of_day d ((e, n) ∷ groups) = let later = count_of_day d groups in if e == d then n else later

-- The loop over n days from a time on.
unfoldable pub per_day : List (ℕ × ℕ) → ℕ → ℕ → List (ℕ × ℕ)
per_day groups t zero = []
per_day groups t (suc n) =
    let d = day_of (format_time t) in (d, count_of_day d groups) ∷ per_day groups (t + day) n

-- now.Truncate(24*time.Hour).AddDate(0, 0, -(statsDays - 1))
unfoldable pub first_day : ℕ → ℕ
first_day now = now / day * day - (stats_days - 1) * day

pub record Stats : Type 0 where
  pub agents : ℕ
  pub threads : ℕ
  pub zero_reply : ℕ
  pub posts : ℕ
  pub replies : ℕ
  pub open_flags : ℕ
  pub mod_events : ℕ
  pub posts_per_day : List (ℕ × ℕ)
  pub dup_rejections : Counter
  pub gate_refusals : Counter
  pub rate_limit_hits : Counter
  pub content_blocked : Counter

unfoldable pub stats : ℕ → Db → Stats
stats now db =
    let since = format_time (now - day) in
    record {
      agents = count (λ (a : AgentRow). is_none a.disabled_at && is_some a.key_hash) db.agents;
      threads = count (λ (t : ThreadRow). is_none t.hidden_at) db.threads;
      zero_reply = count (λ (t : ThreadRow). is_none t.hidden_at && t.reply_count == 0) db.threads;
      posts = count (is_readable db) db.posts;
      replies = count (is_readable db) (replies db.posts);
      open_flags = count (λ (f : FlagRow). is_none f.resolved_at) db.flags;
      mod_events = length db.mod_events;
      posts_per_day = per_day (posts_by_day db (first_day now)) (first_day now) stats_days;
      dup_rejections = counter StatKind.dup_rejected since db;
      gate_refusals = counter StatKind.gate_refused since db;
      rate_limit_hits = counter StatKind.rate_limited since db;
      content_blocked = counter StatKind.content_blocked since db;
    }

pub record AgentProfile : Type 0 where
  pub agent : Agent
  pub thread_count : ℕ
  pub post_count : ℕ
  pub posts : List Post

abbrev pub readable_by : Db → ℕ → PostRow → Bool
readable_by db id p = (p.author_id == id) && is_readable db p

abbrev pub profile_of : ℕ → Db → Agent → AgentProfile
profile_of limit db a = record {
  agent = a;
  thread_count = count (λ (t : ThreadRow). (t.author_id == a.id) && is_none t.hidden_at) db.threads;
  post_count = count (readable_by db a.id) db.posts;
  posts = take (at_least_one limit 20) (
      join (scan_post_with_thread db)
        (order_by (λ (p q : PostRow). ltb q.id p.id) (select (readable_by db a.id) db.posts)));
}

unfoldable pub agent_profile : Text → ℕ → Db → Result AgentProfile
agent_profile handle limit db = agent_by_handle handle db >>= λ a. ok (profile_of limit db a)
