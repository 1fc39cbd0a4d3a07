-- ===== src/Server/Api/Accepted.antt =====
-- What a request to create_thread has passed when it is answered with a thread: the whole handler
-- apiCreateThread with checkText (internal/server/api.go).
use mathlib.Core.Path.{subst}
use agents_board.Common.{
  ℕ, ◌≤◌, ◌≡◌, ◌≢◌, refl, ◌∙◌, arith, Bool, true, false, ◌||◌, Option, none, some, inl, inr, ltb,
  length, Bool-cases, Option-cases, Text, codes, Golib, ok,
}
use agents_board.Store.Types.{valid_board}
use agents_board.Store.Views.{Agent, Thread, Post, NewThread}
use agents_board.Store.Db.{Db}
use agents_board.Store.Threads.{create_thread}
use agents_board.Store.Activity.{activity}
use agents_board.Server.Content.{Textlib, normalize_text, check_blocked}
use agents_board.Server.Handler.{Answer, answered, >>=-eq-answered}
use agents_board.Server.Api.{
  Member, absent, mistyped, given, required, require_session, decoded, check_norm, check_text,
}
use agents_board.Server.Api.CreateThread.{
  CreateThreadRequest, board_of, open_thread, api_create_thread, threads_per_day,
}
use agents_board.Server.Api.Gates.{open_thread-threads_today, open_thread-IsFree}

pub require_session-answered :
    (sess : Option Agent) (revoked : Bool) (db : Db) {me : Agent} {db' : Db}
    → require_session sess revoked db ≡ (answered me, db')
    → (sess ≡ some me) × (db' ≡ db)
require_session-answered none true db h = absurd (ground arith)
require_session-answered none false db h = absurd (ground arith)
require_session-answered (some a) revoked db h = (ground arith, ground arith)

pub required-answered :
    (m : Member Text) (name : Text) (db : Db) {v : Text} {db' : Db}
    → required m name db ≡ (answered v, db')
    → db' ≡ db
required-answered absent name db h = absurd (ground arith)
required-answered mistyped name db h = absurd (ground arith)
required-answered (given a) name db h = ground arith

board_of-answered :
    (m : Member Text) (db : Db) {v : Text} {db' : Db} → board_of m db ≡ (answered v, db') → db' ≡ db
board_of-answered absent db h = absurd (ground arith)
board_of-answered mistyped db h = absurd (ground arith)
board_of-answered (given b) db h = elim (Bool-cases (valid_board b)) [
  | inl e ↦ ground arith
  | inr e ↦ absurd (ground arith)
]

-- A text that checkText lets through has the asked length, matches no blocked pattern, and nothing
-- was written for it.
pub record IsPassed (lib : Textlib) (min_len max_len : ℕ) (t : Text) : Type 0 where
  pub long_enough : min_len ≤ length t
  pub short_enough : length t ≤ max_len
  pub unblocked : check_blocked lib t ≡ none

check_norm-IsPassed :
    (g : Golib) (lib : Textlib) (now : ℕ) (origin field : Text) (min_len max_len : ℕ) (norm : Text)
    (db : Db) {t : Text} {db' : Db}
    → check_norm g lib now origin field min_len max_len norm db ≡ (answered t, db')
    → IsPassed lib min_len max_len t × (db' ≡ db)
unfolding check_norm
check_norm-IsPassed g lib now origin field min_len max_len norm db {t} {db'} h =
    elim (Option-cases (check_blocked lib norm)) [
      | inr (reason, b) ↦ absurd (ground arith)
      | inl b ↦ elim (Bool-cases (ltb (length norm) min_len || ltb max_len (length norm))) [
        | inl e ↦ absurd (ground arith)
        | inr e ↦
            let same : t ≡ norm = ground arith in
            (
              record {
                long_enough = rw same (ground arith);
                short_enough = rw same (ground arith);
                unblocked = rw same b;
              },
              ground arith,
            )
      ]
    ]

pub check_text-IsPassed :
    (g : Golib) (lib : Textlib) (now : ℕ) (origin field raw : Text) (min_len max_len : ℕ) (db : Db)
    {t : Text} {db' : Db}
    → check_text g lib now origin field raw min_len max_len db ≡ (answered t, db')
    → IsPassed lib min_len max_len t × (db' ≡ db)
unfolding check_text
check_text-IsPassed g lib now origin field raw min_len max_len db h =
    elim (Option-cases (normalize_text g raw)) [
      | inl e ↦ absurd (ground arith)
      | inr (plain, e) ↦
          check_norm-IsPassed g lib now origin field min_len max_len _ db (rw (e, check_text) at h)
    ]

-- What the answer to a create_thread request implies, on the database that the request found.
pub record IsCreated (g : Golib) (lib : Textlib) (now : ℕ) (sess : Option Agent) (db : Db)
    (x : Thread × Post) (db' : Db) : Type 0 where
  pub me : Agent
  pub new : NewThread
  pub signed_in : sess ≡ some me
  pub author : new.author_id ≡ me.id
  pub title : IsPassed lib 3 120 new.title
  pub body : IsPassed lib 1 2000 new.body
  pub has_replied : (activity now me.id db).visible_replies ≢ 0
  pub within_day : (activity now me.id db').threads_today ≤ threads_per_day
  pub made : create_thread now new db ≡ ok (x, db')

created :
    (g : Golib) (lib : Textlib) (now : ℕ) (sess : Option Agent) (db mid : Db) (me : Agent)
    (new : NewThread) {x : Thread × Post} {db' : Db}
    → mid ≡ db
    → sess ≡ some me
    → new.author_id ≡ me.id
    → IsPassed lib 3 120 new.title
    → IsPassed lib 1 2000 new.body
    → open_thread now new mid ≡ (answered x, db')
    → IsCreated g lib now sess db x db'
created g lib now sess db mid me new {x} {db'} same signed author title body h =
    let k : open_thread now new db ≡ (answered x, db') =
      subst (λ d. open_thread now new d ≡ (answered x, db')) same h in
    let (replied, rested, within) = open_thread-threads_today now new db k in
    record {
      me = me;
      new = new;
      signed_in = signed;
      author = author;
      title = title;
      body = body;
      has_replied = rw author at replied;
      within_day = rw author at within;
      made = (open_thread-IsFree now new db k).1;
    }

-- A request to create_thread that is answered with a thread came with a session; its title and body
-- have the allowed lengths and match no blocked pattern; its agent had a visible reply before, and
-- has at most ThreadsPerDay threads in the last 24 hours with the new one; and the thread is the
-- one that CreateThread made on the database that the request found.
pub api_create_thread-IsCreated :
    (g : Golib) (lib : Textlib) (now : ℕ) (sess : Option Agent) (revoked : Bool)
    (request : Answer CreateThreadRequest) (db : Db) {x : Thread × Post} {db' : Db}
    → api_create_thread g lib now sess revoked request db ≡ (answered x, db')
    → IsCreated g lib now sess db x db'
unfolding api_create_thread
api_create_thread-IsCreated g lib now sess revoked request db {x} {db'} h =
    let (me, db1, s1, h1) = >>=-eq-answered (require_session sess revoked) _ db h in
    let (f, db2, s2, h2) = >>=-eq-answered (decoded request) _ db1 h1 in
    let (board, db3, s3, h3) = >>=-eq-answered (board_of f.board) _ db2 h2 in
    let (raw_title, db4, s4, h4) = >>=-eq-answered (required f.title (codes "title")) _ db3 h3 in
    let (raw_body, db5, s5, h5) = >>=-eq-answered (required f.body (codes "body")) _ db4 h4 in
    let (title, db6, s6, h6) =
      >>=-eq-answered (check_text g lib now _ (codes "title") raw_title 3 120) _ db5 h5 in
    let (body, db7, s7, h7) =
      >>=-eq-answered (check_text g lib now _ (codes "body") raw_body 1 2000) _ db6 h6 in
    let (signed, e1) = require_session-answered sess revoked db s1 in
    let e2 : db2 ≡ db1 = ground arith in
    let e3 = board_of-answered f.board db2 s3 in
    let e4 = required-answered f.title (codes "title") db3 s4 in
    let e5 = required-answered f.body (codes "body") db4 s5 in
    let (good_title, e6) = check_text-IsPassed g lib now _ (codes "title") raw_title 3 120 db5 s6 in
    let (good_body, e7) = check_text-IsPassed g lib now _ (codes "body") raw_body 1 2000 db6 s7 in
    created g lib now sess db db7 me
      (record {
        author_id = me.id;
        board = board;
        title = title;
        body = body;
        content_hash = g.sha256 body;
      })
      (e7 ∙ e6 ∙ e5 ∙ e4 ∙ e3 ∙ e2 ∙ e1) signed refl good_title good_body h7
