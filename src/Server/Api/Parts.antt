-- ===== src/Server/Api/Parts.antt =====
-- The steps of apiReply (internal/server/api.go) that answer without a write.
use agents_board.Common.{
  ℕ, ◌≡◌, ◌≢◌, refl, arith, Bool, true, false, Option, none, some, inl, inr, List, ltb, Bool-cases,
  Text, is_empty, Result, ok, err, Err, not_found, invalid_key, revoked, locked, duplicate,
  no_object, generation_mismatch, failure, validation,
}
use agents_board.Store.Types.{valid_stance}
use agents_board.Store.Views.{Thread, Post}
use agents_board.Store.Db.{Db}
use agents_board.Server.Handler.{
  answered, Refusal, Handler, stop_if, refuse_with, internal, store_answer, read_answer,
}
use agents_board.Server.Api.{Member, absent, mistyped, given, path_id, thread_error}
use agents_board.Server.Api.Reply.{stance_of, reply_to_of, reply_error}

pub path_id-answered :
    (path : Option ℕ) (db : Db) {id : ℕ} {db' : Db}
    → path_id path db ≡ (answered id, db')
    → db' ≡ db
path_id-answered none db h = absurd (ground arith)
path_id-answered (some id) db h = ground arith

pub stop_if-answered :
    (test : Bool) (r : Refusal) (db : Db) {u : Unit {0}} {db' : Db}
    → stop_if test r db ≡ (answered u, db')
    → (test ≡ false) × (db' ≡ db)
stop_if-answered true r db h = absurd (ground arith)
stop_if-answered false r db h = (refl, ground arith)

pub stance_of-answered :
    (m : Member Text) (db : Db) {o : Option Text} {db' : Db}
    → stance_of m db ≡ (answered o, db')
    → db' ≡ db
stance_of-answered absent db h = ground arith
stance_of-answered mistyped db h = absurd (ground arith)
stance_of-answered (given v) db h = elim (Bool-cases (is_empty v)) [
  | inl e ↦ ground arith
  | inr e ↦ elim (Bool-cases (valid_stance v)) [
    | inl f ↦ ground arith
    | inr f ↦ absurd (ground arith)
  ]
]

pub reply_to_of-answered :
    (m : Member ℕ) (db : Db) {o : Option ℕ} {db' : Db}
    → reply_to_of m db ≡ (answered o, db')
    → db' ≡ db
reply_to_of-answered absent db h = ground arith
reply_to_of-answered mistyped db h = absurd (ground arith)
reply_to_of-answered (given v) db h = elim (Bool-cases (ltb v 1)) [
  | inl e ↦ absurd (ground arith)
  | inr e ↦ ground arith
]

pub thread_error-refused :
    (e : Err) (db : Db) {t : Thread} {db' : Db} → thread_error e db ≢ (answered t, db')
thread_error-refused not_found db h = absurd (ground arith)
thread_error-refused invalid_key db h = absurd (ground arith)
thread_error-refused revoked db h = absurd (ground arith)
thread_error-refused locked db h = absurd (ground arith)
thread_error-refused duplicate db h = absurd (ground arith)
thread_error-refused no_object db h = absurd (ground arith)
thread_error-refused generation_mismatch db h = absurd (ground arith)
thread_error-refused failure db h = absurd (ground arith)
thread_error-refused (validation f) db h = absurd (ground arith)

pub reply_error-refused :
    (now : ℕ) (e : Err) (db : Db) {p : Post} {db' : Db} → reply_error now e db ≢ (answered p, db')
reply_error-refused now not_found db h = absurd (ground arith)
reply_error-refused now invalid_key db h = absurd (ground arith)
reply_error-refused now revoked db h = absurd (ground arith)
reply_error-refused now locked db h = absurd (ground arith)
reply_error-refused now duplicate db h = absurd (ground arith)
reply_error-refused now no_object db h = absurd (ground arith)
reply_error-refused now generation_mismatch db h = absurd (ground arith)
reply_error-refused now failure db h = absurd (ground arith)
reply_error-refused now (validation f) db h = absurd (ground arith)

pub read_answer-ok {ℓ} :
    {A : Type ℓ} (on_error : Err → Handler A) (r : Result A) (db : Db) {t : A} {db' : Db}
    → ((e : Err) → on_error e db ≢ (answered t, db'))
    → read_answer on_error r db ≡ (answered t, db')
    → (r ≡ ok t) × (db' ≡ db)
read_answer-ok on_error (err e) db refuses h = absurd (refuses e h)
read_answer-ok on_error (ok t) db refuses h = (ground arith, ground arith)

pub store_answer-ok {ℓ} :
    {A : Type ℓ} (on_error : Err → Handler A) (r : Result (A × Db)) (db : Db) {p : A} {db' : Db}
    → ((e : Err) → on_error e db ≢ (answered p, db'))
    → store_answer on_error r db ≡ (answered p, db')
    → r ≡ ok (p, db')
store_answer-ok on_error (err e) db refuses h = absurd (refuses e h)
store_answer-ok on_error (ok (p, after)) db refuses h = ground arith

pub latest-answered :
    (r : Result (List Post)) (db : Db) {ps : List Post} {db' : Db}
    → read_answer (λ e. refuse_with internal) r db ≡ (answered ps, db')
    → (r ≡ ok ps) × (db' ≡ db)
latest-answered (err e) db h = absurd (ground arith)
latest-answered (ok ps) db h = (ground arith, ground arith)
