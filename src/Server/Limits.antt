-- ===== src/Server/Limits.antt =====
-- internal/server/limits.go: waiting times, the sliding windows and the pruning of old events.
-- Times are nanoseconds; a waiting time is a number of whole seconds, 0 for "go on".
pub mod Waiting
pub mod Windows
pub mod Parallel
use agents_board.Common.{
  ℕ, ◌+◌, ◌-◌, ◌*◌, ◌/◌, Bool, true, false, Option, none, some, Text, leb, ltb, if◌then◌else◌,
}
use agents_board.Store.Types.{RateKind, StatKind, rate_limited, read, second, hour, day}
use agents_board.Store.Db.{Db}
use agents_board.Store.Counters.{rate_window, record_rate, prune_rate_events, record_stat}

abbrev pub minute : ℕ
minute = 60 * second

abbrev pub reads_per_minute : ℕ
reads_per_minute = 120

-- math.Ceil(d.Seconds()) of a positive duration.
abbrev pub ceil_seconds : ℕ → ℕ
ceil_seconds d = (d + (second - 1)) / second

unfoldable pub retry_after_s : ℕ → ℕ → ℕ
retry_after_s until now =
    if leb until now then 1 else let s = ceil_seconds (until - now) in if ltb s 1 then 1 else s

unfoldable pub cooldown_remaining : Option ℕ → ℕ → ℕ → ℕ
cooldown_remaining none cooldown now = 0
cooldown_remaining (some last) cooldown now =
    if leb (last + cooldown) now then 0 else retry_after_s (last + cooldown) now

unfoldable pub daily_remaining : ℕ → ℕ → Option ℕ → ℕ → ℕ
daily_remaining count limit none now = 0
daily_remaining count limit (some oldest) now =
    if ltb count limit then 0 else retry_after_s (oldest + day) now

-- `none` is "not limited"; a missing key switches the limit off.
unfoldable pub window : RateKind → Option Text → ℕ → ℕ → ℕ → Db → Option ℕ
window kind none limit span now db = none
window kind (some key) limit span now db =
    let (n, oldest) = rate_window kind key (now - span) db in
    if ltb n limit
    then none
    else elim oldest [ none ↦ none | some t ↦ some (retry_after_s (t + span) now) ]

-- maybePrune, with the limiter's lastPrune; the pair is the new lastPrune and database.
unfoldable pub maybe_prune : ℕ → ℕ → Db → ℕ × Db
maybe_prune now last_prune db =
    if leb minute (now - last_prune)
    then (now, prune_rate_events (now - hour) db)
    else (last_prune, db)

-- RecordRate of apiRead, for the key of a session or of an address.
abbrev pub record_read : ℕ → Option Text → Db → Db
record_read now none db = db
record_read now (some k) db = record_rate now read k db

-- The limit of apiRead: the retry time of a 429, or nothing and the database with the recorded read.
-- `others` is what other requests write between the check and the record, which no lock joins.
unfoldable pub admit_read : ℕ → Option Text → (Db → Db) → Db → Option ℕ × Db
admit_read now key others db = elim (window read key reads_per_minute minute now db) [
  | some retry ↦ (some retry, db)
  | none ↦ (none, record_read now key (others db))
]

-- writeLimit counts the refusal for /stats.
abbrev pub count_limited : ℕ → Db → Db
count_limited now db = record_stat now rate_limited db
