-- ===== src/Server/Api/Posted.antt =====
-- What a request to reply has passed when it is answered with a post: the whole handler apiReply
-- (internal/server/api.go).
use agents_board.Server.Api.Parts.{
  path_id-answered, stop_if-answered, stance_of-answered, reply_to_of-answered,
  thread_error-refused, reply_error-refused, read_answer-ok, store_answer-ok, latest-answered,
}
use mathlib.Core.Path.{subst}
use agents_board.Common.{
  ℕ, ◌+◌, ◌*◌, ◌≤◌, ◌<◌, ◌≡◌, sym, ap, ◌∙◌, arith, Bool, Option, some, List, codes, Golib, ok, All,
  select, count,
}
use agents_board.Store.Types.{PostRow, parse_time, second}
use agents_board.Store.Views.{Agent, Post, NewReply, locked_thread}
use agents_board.Store.Db.{Db}
use agents_board.Store.Joins.{thread_by_id, replies}
use agents_board.Store.Posts.{create_reply, latest_posts}
use agents_board.Store.Activity.{reply_by, recent_reply_by}
use agents_board.Server.Content.{Textlib}
use agents_board.Server.Handler.{
  answer, Answer, answered, stop_if, refuse_with, internal, store_write, store_read, write_error,
  >>=-eq-answered,
}
use agents_board.Server.Api.{
  required, require_session, decoded, path_id, thread_error, wait_out, check_text,
}
use agents_board.Server.Api.Reply.{
  ReplyRequest, stance_of, reply_to_of, reply_error, reply_cooldown, replies_per_day,
  latest_posts_on_reply, post_reply, reply_fields, post_and_show, api_reply,
}
use agents_board.Server.Api.Gates.{wait_out-zero}
use agents_board.Server.Api.Rested.{IsRested, last_reply-rested, replies_today-lt}
use agents_board.Server.Api.Accepted.{
  IsPassed, check_text-IsPassed, require_session-answered, required-answered,
}

post_reply-IsRested :
    (now : ℕ) (new : NewReply) (db : Db) {p : Post} {db' : Db}
    → post_reply now new db ≡ (answered p, db')
    → IsRested now new.author_id db × (create_reply now new db ≡ ok (p, db'))
unfolding post_reply
post_reply-IsRested now new db {p} {db'} h =
    let (u, mid1, rest, h1) = >>=-eq-answered (wait_out now _) _ db h in
    let (free, same1) = wait_out-zero now _ db rest in
    let (v, mid2, daily, h2) = >>=-eq-answered (wait_out now _) _ mid1 h1 in
    let (under, same2) = wait_out-zero now _ mid1 daily in
    (
      record {
        rested = last_reply-rested now new.author_id db free;
        below = replies_today-lt now new.author_id db under;
      },
      store_answer-ok (reply_error now) (create_reply now new db) db
          (λ e. reply_error-refused now e db)
          (subst (λ d. store_write (create_reply now new) (reply_error now) d ≡ (answered p, db'))
            (same2 ∙ same1) h2),
    )

-- What the answer to a reply request implies, on the database that the request found.
pub record IsPosted (lib : Textlib) (now : ℕ) (sess : Option Agent) (db : Db) (p : Post)
    (latest : List Post) (db' : Db) : Type 0 where
  pub me : Agent
  pub new : NewReply
  pub signed_in : sess ≡ some me
  pub author : new.author_id ≡ me.id
  pub body : IsPassed lib 1 2000 new.body
  pub rested :
      All
        (λ (p : PostRow). parse_time p.created_at + reply_cooldown * second ≤ now)
        (select (reply_by me.id) (replies db.posts))
  pub below : count (recent_reply_by now me.id) (replies db.posts) < replies_per_day
  pub made : create_reply now new db ≡ ok (p, db')
  pub shown : latest_posts new.thread_id latest_posts_on_reply db' ≡ ok latest

answer-same :
    (p : Post) (ps : List Post) (db : Db) {q : Post} {qs : List Post} {db' : Db}
    → answer {A = Post × List Post} (p, ps) db ≡ (answered (q, qs), db')
    → (q ≡ p) × (qs ≡ ps) × (db' ≡ db)
answer-same p ps db h = (ground arith, ground arith, ground arith)

answer-reply :
    (n : NewReply) (db : Db) {new : NewReply} {db' : Db}
    → answer n db ≡ (answered new, db')
    → (new ≡ n) × (db' ≡ db)
answer-reply n db h = (ground arith, ground arith)

-- The reply that the fields of a request make.
pub record IsReplyOf (lib : Textlib) (me : Agent) (new : NewReply) : Type 0 where
  pub author : new.author_id ≡ me.id
  pub body : IsPassed lib 1 2000 new.body

reply_fields-IsReplyOf :
    (g : Golib) (lib : Textlib) (now : ℕ) (me : Agent) (tid : ℕ) (f : ReplyRequest) (db : Db)
    {new : NewReply} {db' : Db}
    → reply_fields g lib now me tid f db ≡ (answered new, db')
    → IsReplyOf lib me new × (db' ≡ db)
unfolding reply_fields
reply_fields-IsReplyOf g lib now me tid f db {new} {db'} h =
    let (raw, db1, s1, h1) = >>=-eq-answered (required f.body (codes "body")) _ db h in
    let (body, db2, s2, h2) =
      >>=-eq-answered (check_text g lib now _ (codes "body") raw 1 2000) _ db1 h1 in
    let (stance, db3, s3, h3) = >>=-eq-answered (stance_of f.stance) _ db2 h2 in
    let (reply_to, db4, s4, h4) = >>=-eq-answered (reply_to_of f.reply_to) _ db3 h3 in
    let (good, e2) = check_text-IsPassed g lib now _ (codes "body") raw 1 2000 db1 s2 in
    let (e_new, e5) = answer-reply _ db4 h4 in
    (
      record {
        author = ap (λ (n : NewReply). n.author_id) e_new;
        body = subst (λ (n : NewReply). IsPassed lib 1 2000 n.body) (sym e_new) good;
      },
      e5
          ∙ reply_to_of-answered f.reply_to db3 s4
          ∙ stance_of-answered f.stance db2 s3
          ∙ e2
          ∙ required-answered f.body (codes "body") db s1,
    )

pub record IsShown (now : ℕ) (new : NewReply) (db : Db) (p : Post) (latest : List Post) (db' : Db)
    : Type 0 where
  pub free : IsRested now new.author_id db
  pub made : create_reply now new db ≡ ok (p, db')
  pub shown : latest_posts new.thread_id latest_posts_on_reply db' ≡ ok latest

parts-IsShown :
    (now : ℕ) (new : NewReply) (db after : Db) (q : Post) (qs : List Post) {p : Post}
    {latest : List Post} {db' : Db}
    → post_reply now new db ≡ (answered q, after)
    → latest_posts new.thread_id latest_posts_on_reply after ≡ ok qs
    → (p ≡ q) × (latest ≡ qs) × (db' ≡ after)
    → IsShown now new db p latest db'
parts-IsShown now new db after q qs {p} {latest} {db'} made shown (ep, el, ed) =
    let (free, ok_made) = post_reply-IsRested now new db made in
    record {
      free = free;
      made = ok_made ∙ ap (λ x. ok (x, after)) (sym ep) ∙ ap (λ d. ok (p, d)) (sym ed);
      shown = ap (latest_posts new.thread_id latest_posts_on_reply) ed ∙ shown ∙ ap ok (sym el);
    }

post_and_show-IsShown :
    (now : ℕ) (new : NewReply) (db : Db) {p : Post} {latest : List Post} {db' : Db}
    → post_and_show now new db ≡ (answered (p, latest), db')
    → IsShown now new db p latest db'
unfolding post_and_show
post_and_show-IsShown now new db h =
    let (q, db1, s1, h1) = >>=-eq-answered (post_reply now new) _ db h in
    let (qs, db2, s2, h2) =
      >>=-eq-answered
        (store_read (latest_posts new.thread_id latest_posts_on_reply) (λ e. refuse_with internal))
        _ db1 h1 in
    let (shown, e2) =
      latest-answered (latest_posts new.thread_id latest_posts_on_reply db1) db1 s2 in
    let (ep, el, e3) = answer-same q qs db2 h2 in
    parts-IsShown now new db db1 q qs s1 shown (ep, el, e3 ∙ e2)

posted :
    (lib : Textlib) (now : ℕ) (sess : Option Agent) (db mid db' : Db) (me : Agent) (new : NewReply)
    {p : Post} {latest : List Post}
    → mid ≡ db
    → sess ≡ some me
    → IsReplyOf lib me new
    → IsShown now new mid p latest db'
    → IsPosted lib now sess db p latest db'
posted lib now sess db mid db' me new {p} {latest} same signed r s =
    let t : IsShown now new db p latest db' = subst (λ d. IsShown now new d p latest db') same s in
    let free : IsRested now me.id db = subst (λ id. IsRested now id db) r.author t.free in
    record {
      me = me;
      new = new;
      signed_in = signed;
      author = r.author;
      body = r.body;
      rested = free.rested;
      below = free.below;
      made = t.made;
      shown = t.shown;
    }

-- A request to reply that is answered with a post came with a session; its body has 1 to 2000
-- characters and matches no blocked pattern; every earlier reply of its agent is at least the reply
-- cooldown old, and fewer than RepliesPerDay of them are in the last 24 hours; the post is the one that CreateReply made on the database that the request found, and
-- the posts shown with it are LatestPosts of its thread afterwards.
pub api_reply-IsPosted :
    (g : Golib) (lib : Textlib) (now : ℕ) (sess : Option Agent) (gone : Bool) (path : Option ℕ)
    (request : Answer ReplyRequest) (db : Db) {p : Post} {latest : List Post} {db' : Db}
    → api_reply g lib now sess gone path request db ≡ (answered (p, latest), db')
    → IsPosted lib now sess db p latest db'
unfolding api_reply
api_reply-IsPosted g lib now sess gone path request db {p} {latest} {db'} h =
    let (me, db1, s1, h1) = >>=-eq-answered (require_session sess gone) _ db h in
    let (tid, db2, s2, h2) = >>=-eq-answered (path_id path) _ db1 h1 in
    let (t, db3, s3, h3) = >>=-eq-answered (store_read (thread_by_id tid) thread_error) _ db2 h2 in
    let (u, db4, s4, h4) =
      >>=-eq-answered (stop_if (locked_thread t) (write_error 423 (codes "locked"))) _ db3 h3 in
    let (f, db5, s5, h5) = >>=-eq-answered (decoded request) _ db4 h4 in
    let (new, db6, s6, h6) = >>=-eq-answered (reply_fields g lib now me tid f) _ db5 h5 in
    let (signed, e1) = require_session-answered sess gone db s1 in
    let e2 = path_id-answered path db1 s2 in
    let (found, e3) =
      read_answer-ok thread_error (thread_by_id tid db2) db2 (λ e. thread_error-refused e db2) s3 in
    let (unlocked, e4) = stop_if-answered (locked_thread t) _ db3 s4 in
    let e5 : db5 ≡ db4 = ground arith in
    let (mine, e6) = reply_fields-IsReplyOf g lib now me tid f db5 s6 in
    posted lib now sess db db6 db' me new (e6 ∙ e5 ∙ e4 ∙ e3 ∙ e2 ∙ e1) signed mine
      (post_and_show-IsShown now new db6 h6)
