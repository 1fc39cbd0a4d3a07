-- ===== src/Server/Api/Flag/Filed.antt =====
-- What a filed flag has passed (apiFlag of internal/server/api.go).
use agents_board.Common.{
  ◌&&◌, if◌then◌else◌, ℕ, ◌+◌, ◌≤◌, ◌<◌, ◌≡◌, refl, sym, ap, ◌∙◌, arith, Bool, true, false, none,
  inl, inr, List, [], ◌∷◌, ◌++◌, count, count-append, count-eq-length-select, length, select,
  min_of, exists_row, Option-cases, Result, ok, err, not_found, invalid_key, revoked, locked,
  duplicate, no_object, generation_mismatch, failure, validation,
}
use agents_board.Store.Types.{FlagRow, valid_flag_reason}
use agents_board.Store.Views.{NewFlag, Flag}
use agents_board.Store.Db.{Db}
use agents_board.Store.Activity.{activity, recent_flag_by, flag_time}
use agents_board.Store.Flags.{create_flag, same_report, flag_row}
use agents_board.Store.Joins.{is_post, is_readable}
use agents_board.Server.Limits.{daily_remaining}
use agents_board.Server.Handler.{answered, answered_after, store_answer, store_write}
use agents_board.Server.Api.{wait_out}
use agents_board.Server.Api.Gates.{wait_out-zero, daily_remaining-lt}
use agents_board.Server.Api.Flag.{flag_error, file_flag}
use agents_board.Server.Api.Whoami.{flags_per_day}

no_oldest : (xs : List FlagRow) → min_of flag_time xs ≡ none → length xs ≡ 0
no_oldest [] h = refl
no_oldest (f ∷ fs) h = absurd (ground arith)

flags_today-lt :
    (now agent : ℕ) (db : Db)
    → daily_remaining
        (activity now agent db).flags_today
        flags_per_day
        (activity now agent db).oldest_flag_in_window
        now
      ≡ 0
    → count (recent_flag_by now agent) db.flags < flags_per_day
unfolding activity
flags_today-lt now agent db h =
    let rows = select (recent_flag_by now agent) db.flags in
    elim (daily_remaining-lt (count (recent_flag_by now agent) db.flags) flags_per_day now _ h) [
      | inl few ↦ few
      | inr e ↦ elim (Option-cases (min_of flag_time rows)) [
        | inl n ↦
            ground
              (arith, count-eq-length-select (recent_flag_by now agent) db.flags, no_oldest rows n)
        | inr (t, n) ↦ absurd (ground arith)
      ]
    ]

create_flag-parts :
    (now : ℕ) (new : NewFlag) (db : Db) {x : Flag} {db' : Db}
    → create_flag now new db ≡ ok (x, db')
    → (exists_row (same_report new) db.flags ≡ false)
      × (exists_row (λ p. is_post new.post_id p && is_readable db p) db.posts ≡ true)
      × (valid_flag_reason new.reason ≡ true)
      × (db' ≡ record db { flags = db.flags ++ flag_row now new db ∷ [] })
unfolding create_flag
create_flag-parts now new db h = (ground arith, ground arith, ground arith, ground arith)

flag_write-ok :
    (r : Result (Flag × Db)) (db : Db) {x : Flag} {db' : Db}
    → store_answer flag_error r db ≡ (answered x, db')
    → r ≡ ok (x, db')
flag_write-ok (ok (x, after)) db h = ground arith
flag_write-ok (err not_found) db h = absurd (ground arith)
flag_write-ok (err invalid_key) db h = absurd (ground arith)
flag_write-ok (err revoked) db h = absurd (ground arith)
flag_write-ok (err locked) db h = absurd (ground arith)
flag_write-ok (err duplicate) db h = absurd (ground arith)
flag_write-ok (err no_object) db h = absurd (ground arith)
flag_write-ok (err generation_mismatch) db h = absurd (ground arith)
flag_write-ok (err failure) db h = absurd (ground arith)
flag_write-ok (err (validation f)) db h = absurd (ground arith)

one_more : (n : ℕ) (b : Bool) → n < flags_per_day → n + ((if b then 1 else 0) + 0) ≤ flags_per_day
one_more n true h = omega arith
one_more n false h = omega arith

flags_today-le :
    (now : ℕ) (new : NewFlag) (db : Db)
    → count (recent_flag_by now new.reporter_id) db.flags < flags_per_day
    → (activity now new.reporter_id
        (record db { flags = db.flags ++ flag_row now new db ∷ [] })).flags_today
      ≤ flags_per_day
unfolding activity
flags_today-le now new db few =
    rw (count-append (recent_flag_by now new.reporter_id) db.flags (flag_row now new db ∷ []))
      (one_more _ _ few)

-- Whenever the critical section of flag answers with a flag, its reason is one of the five and the
-- post could be read, its reporter had not flagged that post before, and with the new flag has at
-- most FlagsPerDay flags in the 24 hours that end with it.
pub file_flag-flags_today :
    (now : ℕ) (new : NewFlag) (db : Db) (x : Flag) (db' : Db)
    → file_flag now new db ≡ (answered x, db')
    → (valid_flag_reason new.reason ≡ true)
      × (exists_row (λ p. is_post new.post_id p && is_readable db p) db.posts ≡ true)
      × (exists_row (same_report new) db.flags ≡ false)
      × ((activity now new.reporter_id db').flags_today ≤ flags_per_day)
unfolding file_flag
file_flag-flags_today now new db x db' h =
    let wait =
      daily_remaining (activity now new.reporter_id db).flags_today flags_per_day
        (activity now new.reporter_id db).oldest_flag_in_window now in
    answered_after (wait_out now wait) _ db
      (λ u mid e h1.
        let (free, same) = wait_out-zero now wait db e in
        let p = create_flag-parts now new db (
          flag_write-ok (create_flag now new db) db
            (sym (ap (store_write (create_flag now new) flag_error) same) ∙ h1)) in
        (
          p.2,
          p.1,
          p.0,
          rw p.3 (flags_today-le now new db (flags_today-lt now new.reporter_id db free)),
        ))
      h
