-- ===== src/Server/Api/Gates.antt =====
-- What a thread that the API created has passed (internal/server/api.go, apiCreateThread).
use mathlib.Core.Path.{subst}
use agents_board.Common.{
  zero, suc, ℕ, ◌+◌, ◌*◌, ◌≤◌, ◌<◌, ◌≡◌, ◌≢◌, ◌⊎◌, refl, sym, ap, ◌∙◌, arith, Bool, true, false,
  Option, none, some, inl, inr, List, [], ◌∷◌, count, count-append, count-eq-length-select, length,
  select, min_of, ltb, Bool-cases, Option-cases, Result-cases, Result, ok, Err, not_found,
  invalid_key, revoked, locked, duplicate, no_object, generation_mismatch, failure, validation,
  if◌then◌else◌,
}
use agents_board.Store.Types.{ThreadRow, second, day}
use agents_board.Store.Views.{Thread, Post, NewThread}
use agents_board.Store.Db.{Db}
use agents_board.Store.Threads.{create_thread, insert_rows, thread_row}
use agents_board.Store.Board.Creation.{insert_thread-IsInsertable}
use agents_board.Store.Posts.{is_duplicate}
use agents_board.Store.Types.{format_time}
use agents_board.Store.Activity.{activity, recent_thread_by, thread_time}
use agents_board.Server.Limits.{cooldown_remaining, daily_remaining}
use agents_board.Server.Limits.Waiting.{retry_after_s-enough}
use agents_board.Server.Handler.{answered, Handler, store_answer, store_write, >>=-eq-answered}
use agents_board.Server.Api.{wait_out}
use agents_board.Server.Api.CreateThread.{
  threads_per_day, thread_cooldown, reply_first, create_error, open_thread,
}

pub wait_out-zero :
    (now wait : ℕ) (db : Db) {u : Unit {0}} {db' : Db}
    → wait_out now wait db ≡ (answered u, db')
    → (wait ≡ 0) × (db' ≡ db)
wait_out-zero now zero db h = (refl, ground arith)
wait_out-zero now (suc w) db h = absurd (ground arith)

reply_first-positive :
    (now visible : ℕ) (db : Db) {u : Unit {0}} {db' : Db}
    → reply_first now visible db ≡ (answered u, db')
    → (visible ≢ 0) × (db' ≡ db)
reply_first-positive now zero db h = absurd (ground arith)
reply_first-positive now (suc v) db h = (ground arith, ground arith)

create_error-refused :
    (now : ℕ) (e : Err) (db : Db) {x : Thread × Post} {db' : Db}
    → create_error now e db ≢ (answered x, db')
create_error-refused now not_found db h = absurd (ground arith)
create_error-refused now invalid_key db h = absurd (ground arith)
create_error-refused now revoked db h = absurd (ground arith)
create_error-refused now locked db h = absurd (ground arith)
create_error-refused now duplicate db h = absurd (ground arith)
create_error-refused now no_object db h = absurd (ground arith)
create_error-refused now generation_mismatch db h = absurd (ground arith)
create_error-refused now failure db h = absurd (ground arith)
create_error-refused now (validation f) db h = absurd (ground arith)

same_made :
    (on_error : Err → Handler (Thread × Post)) (made : (Thread × Post) × Db) (db : Db)
    {x : Thread × Post} {db' : Db}
    → store_answer on_error (ok made) db ≡ (answered x, db')
    → ◌≡◌ {A = Result ((Thread × Post) × Db)} (ok made) (ok (x, db'))
same_made on_error (y, after) db h = ground arith

store_write-ok :
    (now : ℕ) (new : NewThread) (db : Db) {x : Thread × Post} {db' : Db}
    → store_write (create_thread now new) (create_error now) db ≡ (answered x, db')
    → create_thread now new db ≡ ok (x, db')
store_write-ok now new db h = elim (Result-cases (create_thread now new db)) [
  | inl (e, f) ↦
      absurd
        (create_error-refused now e db (sym (ap (λ r. store_answer (create_error now) r db) f) ∙ h))
  | inr (made, f) ↦
      f
      ∙ same_made (create_error now) made db
          (sym (ap (λ r. store_answer (create_error now) r db) f) ∙ h)
]

-- What stands before the insert of apiCreateThread, on the database that it finds.
pub record IsFree (now : ℕ) (author : ℕ) (db : Db) : Type 0 where
  pub has_replied : (activity now author db).visible_replies ≢ 0
  pub rested :
      cooldown_remaining (activity now author db).last_thread_at (thread_cooldown * second) now ≡ 0
  pub below :
      daily_remaining
        (activity now author db).threads_today
        threads_per_day
        (activity now author db).oldest_thread_in_window
        now
      ≡ 0

pub open_thread-IsFree :
    (now : ℕ) (new : NewThread) (db : Db) {x : Thread × Post} {db' : Db}
    → open_thread now new db ≡ (answered x, db')
    → IsFree now new.author_id db × (create_thread now new db ≡ ok (x, db'))
unfolding open_thread
open_thread-IsFree now new db {x} {db'} h =
    let (u, mid1, gate, h1) =
      >>=-eq-answered (reply_first now (activity now new.author_id db).visible_replies) _ db h in
    let (positive, same1) = reply_first-positive now _ db gate in
    let (v, mid2, rest, h2) = >>=-eq-answered (wait_out now _) _ mid1 h1 in
    let (free, same2) = wait_out-zero now _ mid1 rest in
    let (w, mid3, daily, h3) = >>=-eq-answered (wait_out now _) _ mid2 h2 in
    let (under, same3) = wait_out-zero now _ mid2 daily in
    (
      record { has_replied = positive; rested = free; below = under },
      store_write-ok now new db (
          subst (λ d. store_write (create_thread now new) (create_error now) d ≡ (answered x, db'))
            (same3 ∙ same2 ∙ same1) h3),
    )

no_oldest : (xs : List ThreadRow) → min_of thread_time xs ≡ none → length xs ≡ 0
no_oldest [] h = refl
no_oldest (t ∷ ts) h = absurd (ground arith)

pub daily_remaining-lt :
    (n limit now : ℕ) (oldest : Option ℕ)
    → daily_remaining n limit oldest now ≡ 0
    → (n < limit) ⊎ (oldest ≡ none)
unfolding daily_remaining
daily_remaining-lt n limit now none h = inr refl
daily_remaining-lt n limit now (some t) h = elim (Bool-cases (ltb n limit)) [
  | inl e ↦ inl (ground arith)
  | inr e ↦ absurd (ground (arith, retry_after_s-enough (t + day) now))
]

pub threads_today-lt :
    (now author : ℕ) (db : Db)
    → daily_remaining
        (activity now author db).threads_today
        threads_per_day
        (activity now author db).oldest_thread_in_window
        now
      ≡ 0
    → count (recent_thread_by now author) db.threads < threads_per_day
unfolding activity
threads_today-lt now author db h =
    let rows = select (recent_thread_by now author) db.threads in
    elim (daily_remaining-lt (count (recent_thread_by now author) db.threads) threads_per_day now _
      h) [
        | inl few ↦ few
        | inr e ↦ elim (Option-cases (min_of thread_time rows)) [
          | inl n ↦ ground (
            arith,
            count-eq-length-select (recent_thread_by now author) db.threads,
            no_oldest rows n,
          )
          | inr (t, n) ↦ absurd (ground arith)
        ]
      ]

create_thread-rows :
    (now : ℕ) (new : NewThread) (db : Db) {x : Thread × Post} {db' : Db}
    → create_thread now new db ≡ ok (x, db')
    → db' ≡ insert_rows (format_time now) new db
unfolding create_thread
create_thread-rows now new db h =
    elim (Bool-cases (is_duplicate now new.author_id 0 new.content_hash db)) [
      | inl e ↦ absurd (ground arith)
      | inr e ↦ (insert_thread-IsInsertable new (format_time now) db (rw e at h)).1
    ]

one_more :
    (n : ℕ) (b : Bool) → n < threads_per_day → n + ((if b then 1 else 0) + 0) ≤ threads_per_day
one_more n true h = omega arith
one_more n false h = omega arith

threads_today-insert_rows :
    (now author : ℕ) (new : NewThread) (db : Db)
    → count (recent_thread_by now author) db.threads < threads_per_day
    → (activity now author (insert_rows (format_time now) new db)).threads_today ≤ threads_per_day
unfolding activity
threads_today-insert_rows now author new db few =
    rw
      (count-append (recent_thread_by now author) db.threads
        (thread_row (format_time now) new db ∷ []))
      (one_more _ _ few)

-- Whenever the critical section of create_thread answers with a thread, its author had a visible
-- reply before and was past the cooldown, and with the new thread has at most ThreadsPerDay threads
-- in the 24 hours that end with it.
pub open_thread-threads_today :
    (now : ℕ) (new : NewThread) (db : Db) {x : Thread × Post} {db' : Db}
    → open_thread now new db ≡ (answered x, db')
    → ((activity now new.author_id db).visible_replies ≢ 0)
      × (cooldown_remaining
            (activity now new.author_id db).last_thread_at
            (thread_cooldown * second)
            now
          ≡ 0)
      × ((activity now new.author_id db').threads_today ≤ threads_per_day)
open_thread-threads_today now new db h =
    let (free, made) = open_thread-IsFree now new db h in
    (
      free.has_replied,
      free.rested,
      rw (create_thread-rows now new db made) (
          threads_today-insert_rows now new.author_id new db
            (threads_today-lt now new.author_id db free.below)),
    )
