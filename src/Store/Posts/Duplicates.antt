-- ===== src/Store/Posts/Duplicates.antt =====
-- The duplicate rule of CreateReply (internal/store/posts.go, isDuplicate).
use agents_board.Common.{
  Err, err, inl, inr, Result-cases, ℕ, ◌≡◌, ◌≢◌, true, false, arith, exists_row-append_last,
  eq_text_self, ok,
}
use agents_board.Store.Views.{Post, NewReply}
use agents_board.Store.Db.{Db}
use agents_board.Store.Posts.{is_duplicate, reply_row, insert_reply, create_reply}
use agents_board.Store.Board.Replies.{create_reply-IsAccepted}

is_duplicate-insert_reply :
    (now later author : ℕ) (new : NewReply) (db : Db)
    → new.thread_id ≢ 0
    → is_duplicate later author new.thread_id new.content_hash (insert_reply now new db) ≡ true
unfolding is_duplicate
is_duplicate-insert_reply now later author new db thread =
    exists_row-append_last _ db.posts (reply_row now new db)
      (ground (arith, eq_text_self new.content_hash))

not_accepted_again :
    (now later : ℕ) (new again : NewReply) (db db' : Db) {q : Post} {after : Db}
    → db' ≡ insert_reply now new db
    → new.thread_id ≢ 0
    → again.thread_id ≡ new.thread_id
    → again.content_hash ≡ new.content_hash
    → create_reply later again db' ≢ ok (q, after)
not_accepted_again now later new again db db' e positive thread hash returned =
    let (b, f) = create_reply-IsAccepted later again db' returned in
    let found = is_duplicate-insert_reply now later again.author_id new db positive in
    let fresh : is_duplicate later again.author_id again.thread_id again.content_hash db' ≡ false =
      b.fresh in
    absurd (ground arith)

-- Once CreateReply has put a reply in a thread, it refuses every reply to that thread with the same
-- content hash on the database that the first one left, whoever sends it and however much later.
-- (Thread ids are positive.)
pub create_reply-again :
    (now later : ℕ) (new again : NewReply) (db : Db) {p : Post} {db' : Db}
    → create_reply now new db ≡ ok (p, db')
    → new.thread_id ≢ 0
    → again.thread_id ≡ new.thread_id
    → again.content_hash ≡ new.content_hash
    → (e : Err) × (create_reply later again db' ≡ err e)
create_reply-again now later new again db {p} {db'} h positive thread hash =
    elim (Result-cases (create_reply later again db')) [
      | inl refusal ↦ refusal
      | inr ((q, after), returned) ↦ absurd (
          not_accepted_again now later new again db db' (create_reply-IsAccepted now new db h).1
            positive thread hash returned)
    ]
