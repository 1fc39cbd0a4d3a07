-- ===== src/Server/Limits/Windows.antt =====
-- The sliding windows over rate_events.
use mathlib.Core.Option
use agents_board.Common.{
  suc, count-le, count-append_one, sym, ◌∙◌, length, min_of, Bool-cases, Option-cases, inl, inr,
  count-eq-length-select, ℕ, ◌+◌, ◌-◌, ◌≤◌, ◌<◌, ◌≡◌, refl, arith, true, false, none, some, List,
  [], ◌∷◌, ltb, Text, select, delete, ap,
}
use agents_board.Store.Types.{RateKind, read, RateEvent, format_time, parse_time}
use agents_board.Store.Db.{Db}
use agents_board.Store.Counters.{in_window, rate_window, record_rate, prune_rate_events}
use agents_board.Server.Limits.{window, record_read, admit_read, reads_per_minute, minute}
use agents_board.Server.Limits.Parallel.{Goes, request-Goes, Run-below}

-- A row that the pruning deletes is in no window that starts at or after its bound.
in_window-pruned :
    (kind : RateKind) (key : Text) (before since : ℕ) (e : RateEvent)
    → before ≤ since
    → ltb e.created_at (format_time before) ≡ true
    → in_window kind key since e ≡ false
unfolding format_time
in_window-pruned kind key before since e h old = ground arith

select-prune :
    (kind : RateKind) (key : Text) (before since : ℕ) (es : List RateEvent)
    → before ≤ since
    → select
        (in_window kind key since)
        (delete (λ (e : RateEvent). ltb e.created_at (format_time before)) es)
      ≡ select (in_window kind key since) es
select-prune kind key before since [] h = refl
select-prune kind key before since (e ∷ es) h =
    elim (Bool-cases (ltb e.created_at (format_time before))) [
      | inl old ↦
          rw (old, in_window-pruned kind key before since e h old)
            (select-prune kind key before since es h)
      | inr young ↦ ground (arith, select-prune kind key before since es h)
    ]

rate_window-select :
    (kind : RateKind) (key : Text) (since : ℕ) (db : Db)
    → rate_window kind key since db ≡ (
      length (select (in_window kind key since) db.rate_events),
      Option.map parse_time (
          min_of
            (λ (e : RateEvent). e.created_at)
            (select (in_window kind key since) db.rate_events)),
    )
unfolding rate_window
rate_window-select kind key since db =
    rw (count-eq-length-select (in_window kind key since) db.rate_events) refl

-- Pruning never changes what a rate limit sees: after PruneRateEvents with a bound, every window
-- that starts at that bound or later has the same count and the same oldest event, for every kind
-- and key.
pub rate_window-prune_rate_events :
    (kind : RateKind) (key : Text) (before since : ℕ) (db : Db)
    → before ≤ since
    → rate_window kind key since (prune_rate_events before db) ≡ rate_window kind key since db
unfolding prune_rate_events
rate_window-prune_rate_events kind key before since db h =
    rate_window-select kind key since (prune_rate_events before db)
    ∙ ap
        (λ rows.
          (length rows, Option.map parse_time (min_of (λ (e : RateEvent). e.created_at) rows)))
        (select-prune kind key before since db.rate_events h)
    ∙ sym (rate_window-select kind key since db)

min_of-some :
    (es : List RateEvent) → min_of (λ (e : RateEvent). e.created_at) es ≡ none → length es ≡ 0
min_of-some [] h = refl
min_of-some (e ∷ es) h = absurd (ground arith)

-- A window without an oldest event is empty.
rate_window-none :
    (kind : RateKind) (key : Text) (since : ℕ) (db : Db)
    → (rate_window kind key since db).1 ≡ none
    → (rate_window kind key since db).0 ≡ 0
unfolding rate_window
rate_window-none kind key since db h =
    count-eq-length-select (in_window kind key since) db.rate_events
    ∙ min_of-some (select (in_window kind key since) db.rate_events) (ground arith)

pub window-lt :
    (kind : RateKind) (key : Text) (limit span now : ℕ) (db : Db)
    → 1 ≤ limit
    → window kind (some key) limit span now db ≡ none
    → (rate_window kind key (now - span) db).0 < limit
unfolding window
window-lt kind key limit span now db h free =
    elim (Option-cases (rate_window kind key (now - span) db).1) [
      | inl e ↦ ground (arith, rate_window-none kind key (now - span) db e)
      | inr (t, e) ↦ ground arith
    ]

-- What the read limit counts for a key, its check, and the write that it counts.
abbrev pub reads_at : Text → ℕ → Db → ℕ
reads_at key now db = (rate_window read key (now - minute) db).0

abbrev pub ReadPasses : Text → ℕ → Db → Type 0
ReadPasses key now db = window read (some key) reads_per_minute minute now db ≡ none

abbrev pub ReadEnters : Text → ℕ → Db → Db → Type 0
ReadEnters key now db after = after ≡ record_read now (some key) db

in_window-older :
    (kind : RateKind) (key : Text) (since later : ℕ) (e : RateEvent)
    → since ≤ later
    → in_window kind key later e ≡ true
    → in_window kind key since e ≡ true
unfolding format_time
in_window-older kind key since later e h inside = ground arith

reads_at-older :
    (key : Text) (now later : ℕ) (db : Db)
    → now ≤ later
    → reads_at key later db ≤ reads_at key now db
unfolding rate_window
reads_at-older key now later db h =
    count-le (in_window read key (later - minute)) (in_window read key (now - minute))
      db.rate_events (λ e. in_window-older read key (now - minute) (later - minute) e (omega arith))

reads_at-recorded :
    (key : Text) (now : ℕ) (db after : Db)
    → ReadEnters key now db after
    → reads_at key now after ≤ suc (reads_at key now db)
unfolding rate_window record_rate
reads_at-recorded key now db after h =
    rw h (count-append_one (in_window read key (now - minute)) db.rate_events _)

-- The requests of one key and all others, with at most `width` reads of the key between their check
-- and their record at once.
abbrev pub ReadsGo : Text → ℕ → ℕ → Db → ℕ → ℕ → Db → ℕ → Type 0
ReadsGo key width = Goes (reads_at key) (ReadPasses key) (ReadEnters key) width

ReadsGo-below :
    (key : Text) (width : ℕ) {now inside later left : ℕ} {db after : Db}
    → ReadsGo key width now db inside later after left
    → reads_at key now db + inside < reads_per_minute + width
    → reads_at key later after + left < reads_per_minute + width
ReadsGo-below key width =
    Run-below (reads_at key) (ReadPasses key) (ReadEnters key) width reads_per_minute
      (reads_at-older key)
      (λ t d free. window-lt read key reads_per_minute minute t d (omega arith) free)
      (reads_at-recorded key)

admit_read-ReadsGo :
    (key : Text) (width now inside left : ℕ) (others : Db → Db) (db : Db) {db' : Db}
    → inside < width
    → ReadsGo key width now db (suc inside) now (others db) (suc left)
    → admit_read now (some key) others db ≡ (none, db')
    → ReadsGo key width now db inside now db' left
unfolding admit_read
admit_read-ReadsGo key width now inside left others db {db'} room between h =
    elim (Option-cases (window read (some key) reads_per_minute minute now db)) [
      | inl e ↦
          let recorded : db' ≡ record_read now (some key) (others db) = ground arith in
          request-Goes (reads_at key) (ReadPasses key) (ReadEnters key) width room e between
            recorded
      | inr (t, e) ↦ absurd (ground arith)
    ]

-- A read that apiRead lets through leaves in the last minute, together with the reads of its key that
-- are still to be recorded, fewer than ReadsPerMinute + width reads of the key, whatever requests, of
-- the same key or not, ran before it and run between its check and its record, when at most `width`
-- reads of the key are between the two at once: at most ReadsPerMinute when the reads of a key come
-- one at a time. (No more than ReadsPerMinute are in the table at first, and the clock does not go
-- back.)
pub admit_read-reads_at :
    (key : Text) (width first now inside left : ℕ) (others : Db → Db) (start db : Db) {db' : Db}
    → reads_at key first start ≤ reads_per_minute
    → ReadsGo key width first start 0 now db inside
    → inside < width
    → ReadsGo key width now db (suc inside) now (others db) (suc left)
    → admit_read now (some key) others db ≡ (none, db')
    → reads_at key now db' + left < reads_per_minute + width
admit_read-reads_at key width first now inside left others start db few before room between h =
    ReadsGo-below key width (admit_read-ReadsGo key width now inside left others db room between h)
      (ReadsGo-below key width before (omega arith))
