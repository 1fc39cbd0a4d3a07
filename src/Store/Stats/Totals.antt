-- ===== src/Store/Stats/Totals.antt =====
-- The figures of internal/store/stats.go against independent descriptions of them.
use agents_board.Common.{
  ℕ, zero, suc, ◌+◌, ◌-◌, ◌*◌, ◌/◌, ◌≤◌, ◌≡◌, refl, ap, ◌∙◌, arith, Bool, true, false, ◌&&◌, List,
  [], ◌∷◌, ◌==◌, leb, ltb, count, count-append, count-select, count-congr, All-every, select,
  if◌then◌else◌,
}
use agents_board.Store.Types.{
  PostRow, StatEvent, StatKind, dup_rejected, gate_refused, rate_limited, content_blocked,
  format_time, day,
}
use agents_board.Store.Db.{Db}
use agents_board.Store.Joins.{is_readable}
use agents_board.Store.Counters.{record_stat}
use agents_board.Store.Stats.{
  Stats, day_of, add_day, grouped, posts_by_day, count_of_day, per_day, first_day, stats_days,
  same_stat, counter, stats,
}

-- The milliseconds of a day.
abbrev pub day_ms : ℕ
day_ms = 86400000

abbrev pub posted_within : Db → ℕ → ℕ → PostRow → Bool
posted_within db from until p =
    is_readable db p && (leb from p.created_at && ltb p.created_at until)

-- Each of n days from a day on, with the readable posts between its two midnights.
abbrev pub posts_of_days : Db → ℕ → ℕ → List (ℕ × ℕ)
posts_of_days db d zero = []
posts_of_days db d (suc n) =
    (d, count (posted_within db (d * day_ms) ((d + 1) * day_ms)) db.posts)
    ∷ posts_of_days db (d + 1) n

count_of_day-add_day :
    (d e : ℕ) (groups : List (ℕ × ℕ))
    → count_of_day d (add_day e groups) ≡ (if e == d then 1 else 0) + count_of_day d groups
count_of_day-add_day d e [] = ground arith
count_of_day-add_day d e ((k, n) ∷ groups) = ground (arith, count_of_day-add_day d e groups)

count_of_day-grouped :
    (d : ℕ) (ps : List PostRow)
    → count_of_day d (grouped ps) ≡ count (λ (p : PostRow). day_of p.created_at == d) ps
count_of_day-grouped d [] = refl
count_of_day-grouped d (p ∷ ps) =
    count_of_day-add_day d (day_of p.created_at) (grouped ps)
    ∙ ap (λ n. (if day_of p.created_at == d then 1 else 0) + n) (count_of_day-grouped d ps)

within_day :
    (readable : Bool) (first c d : ℕ)
    → first ≤ d * day_ms
    → ((day_of c == d) && (readable && leb first c))
      ≡ (readable && (leb (d * day_ms) c && ltb c ((d + 1) * day_ms)))
unfolding day_of format_time
within_day true first c d h = ground arith
within_day false first c d h = ground arith

count_of_day-posts_by_day :
    (db : Db) (first d : ℕ)
    → format_time first ≤ d * day_ms
    → count_of_day d (posts_by_day db first)
      ≡ count (posted_within db (d * day_ms) ((d + 1) * day_ms)) db.posts
unfolding posts_by_day
count_of_day-posts_by_day db first d h =
    count_of_day-grouped d
      (select (λ (p : PostRow). is_readable db p && leb (format_time first) p.created_at) db.posts)
    ∙ count-select _ _ db.posts
    ∙ count-congr _ _ db.posts (
        All-every _ db.posts
          (λ p. within_day (is_readable db p) (format_time first) p.created_at d h))

day_of-midnight : (d : ℕ) → day_of (format_time (d * day)) ≡ d
unfolding day_of format_time
day_of-midnight d = omega arith

per_day-posts_of_days :
    (db : Db) (first d n : ℕ)
    → format_time first ≤ d * day_ms
    → per_day (posts_by_day db first) (d * day) n ≡ posts_of_days db d n
unfolding per_day
per_day-posts_of_days db first d zero h = refl
per_day-posts_of_days db first d (suc n) h =
    let next : d * day + day ≡ (d + 1) * day = omega arith in
    rw (day_of-midnight d, count_of_day-posts_by_day db first d h, next)
      (ap (λ l. (d, count (posted_within db (d * day_ms) ((d + 1) * day_ms)) db.posts) ∷ l)
        (per_day-posts_of_days db first (d + 1) n (omega (arith, h))))

midnight_ms : (d : ℕ) → format_time (d * day) ≤ d * day_ms
unfolding format_time
midnight_ms d = omega arith

-- The posts per day of the stats page are those of the days from 13 days ago to today, oldest first
-- and none left out, each with the number of readable posts from its midnight to the next.
pub stats-posts_of_days :
    (now : ℕ) (db : Db) → (stats now db).posts_per_day ≡ posts_of_days db (now / day - 13) 14
unfolding stats first_day
stats-posts_of_days now db =
    let d = now / day - 13 in
    let start : now / day * day - 13 * day ≡ (now / day - 13) * day = omega arith in
    ap (λ t. per_day (posts_by_day db t) t stats_days) start
    ∙ per_day-posts_of_days db (d * day) d 14 (midnight_ms d)

-- The counter of the stats page that shows a kind of refusal.
abbrev pub counter_of : StatKind → Stats → ℕ × ℕ
counter_of dup_rejected s = (s.dup_rejections.total, s.dup_rejections.last_24)
counter_of gate_refused s = (s.gate_refusals.total, s.gate_refusals.last_24)
counter_of rate_limited s = (s.rate_limit_hits.total, s.rate_limit_hits.last_24)
counter_of content_blocked s = (s.content_blocked.total, s.content_blocked.last_24)

abbrev pub raised_by : ℕ → ℕ × ℕ → ℕ × ℕ
raised_by n (total, last_24) = (total + n, last_24 + n)

one_more :
    (b : Bool) (total last_24 : ℕ)
    → ◌≡◌ {A = ℕ × ℕ}
        (total + ((if b then 1 else 0) + 0), last_24 + ((if b && true then 1 else 0) + 0))
        (raised_by (if b then 1 else 0) (total, last_24))
one_more true total last_24 = ground arith
one_more false total last_24 = ground arith

within_24 : (now : ℕ) → day ≤ now → ltb (format_time (now - day)) (format_time now) ≡ true
unfolding format_time
within_24 now h = ground arith

counter-record_stat :
    (now : ℕ) (kind shown : StatKind) (db : Db)
    → day ≤ now
    → let since = format_time (now - day) in
      ◌≡◌ {A = ℕ × ℕ}
        (
          (counter shown since (record_stat now kind db)).total,
          (counter shown since (record_stat now kind db)).last_24,
        )
        (raised_by
          (if same_stat kind shown then 1 else 0)
          ((counter shown since db).total, (counter shown since db).last_24))
unfolding record_stat
counter-record_stat now kind shown db h =
    rw
      (
        count-append (λ (e : StatEvent). same_stat e.kind shown) db.stat_events,
        count-append
            (λ (e : StatEvent).
              same_stat e.kind shown && ltb (format_time (now - day)) e.created_at)
            db.stat_events,
        within_24 now h,
      )
      (one_more (same_stat kind shown) _ _)

-- RecordStat raises the two numbers of the counter of its kind by one, the total and that of the
-- last 24 hours, and leaves those of the other three kinds. (The clock is a day or more past 1970.)
pub stats-record_stat :
    (now : ℕ) (kind shown : StatKind) (db : Db)
    → day ≤ now
    → counter_of shown (stats now (record_stat now kind db))
      ≡ raised_by (if same_stat kind shown then 1 else 0) (counter_of shown (stats now db))
unfolding stats
stats-record_stat now kind dup_rejected db h = counter-record_stat now kind dup_rejected db h
stats-record_stat now kind gate_refused db h = counter-record_stat now kind gate_refused db h
stats-record_stat now kind rate_limited db h = counter-record_stat now kind rate_limited db h
stats-record_stat now kind content_blocked db h = counter-record_stat now kind content_blocked db h
