-- ===== src/Store/Counters.antt =====
-- internal/store/counters.go: the sliding-window counters, and the counts that /stats shows.
use mathlib.Core.Option
use agents_board.Common.{
  ℕ, Bool, true, false, ◌&&◌, Option, [], ◌∷◌, ◌++◌, Text, eq_text, ltb, select, count, delete,
  next_id, min_of,
}
use agents_board.Store.Types.{
  RateKind, join_attempt, read, RateEvent, StatKind, StatEvent, format_time, parse_time,
}
use agents_board.Store.Db.{Db}

abbrev pub same_kind : RateKind → RateKind → Bool
same_kind join_attempt join_attempt = true
same_kind join_attempt read = false
same_kind read join_attempt = false
same_kind read read = true

unfoldable pub record_rate : ℕ → RateKind → Text → Db → Db
record_rate now kind key db =
    let event : RateEvent = record {
      id = next_id (λ (e : RateEvent). e.id) db.rate_events;
      kind = kind;
      key = key;
      created_at = format_time now;
    } in
    record db { rate_events = db.rate_events ++ event ∷ [] }

-- kind = ? AND key = ? AND created_at > ?
abbrev pub in_window : RateKind → Text → ℕ → RateEvent → Bool
in_window kind key since e =
    same_kind e.kind kind && eq_text e.key key && ltb (format_time since) e.created_at

-- RateWindow: how many events the window holds, and the oldest.
unfoldable pub rate_window : RateKind → Text → ℕ → Db → ℕ × Option ℕ
rate_window kind key since db =
    let rows = select (in_window kind key since) db.rate_events in
    (
      count (in_window kind key since) db.rate_events,
      Option.map parse_time (min_of (λ (e : RateEvent). e.created_at) rows),
    )

unfoldable pub count_rate : RateKind → Text → ℕ → Db → ℕ
count_rate kind key since db = (rate_window kind key since db).0

unfoldable pub prune_rate_events : ℕ → Db → Db
prune_rate_events before db = record db {
  rate_events = delete (λ (e : RateEvent). ltb e.created_at (format_time before)) db.rate_events;
}

unfoldable pub record_stat : ℕ → StatKind → Db → Db
record_stat now kind db =
    let event : StatEvent = record {
      id = next_id (λ (e : StatEvent). e.id) db.stat_events;
      kind = kind;
      created_at = format_time now;
    } in
    record db { stat_events = db.stat_events ++ event ∷ [] }
