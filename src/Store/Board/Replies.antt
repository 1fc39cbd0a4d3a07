-- ===== src/Store/Board/Replies.antt =====
-- CreateReply (internal/store/posts.go): when it succeeds, what it writes, and that the board's
-- invariant is kept.
use agents_board.Common.{
  ℕ, ◌+◌, ◌<◌, ◌≡◌, refl, Bool, true, false, ◌&&◌, Option, none, some, inl, inr, List, [], ◌∷◌,
  ◌++◌, arith, if◌then◌else◌, Option-cases, is_some, is_none, All, All-imp, All-update, All-append,
  All-both, first, exists_row, IsAscending-append, IsAscending-update, lt-next_id,
  exists_row-append, exists_row-update, ok, Result-cases, exists_row-imp, exists_row_of_first,
}
use agents_board.Store.Types.{ThreadRow, PostRow}
use agents_board.Store.Views.{Thread, Post, NewReply, locked_thread}
use agents_board.Store.Db.{Db}
use agents_board.Store.Agents.{has_id}
use agents_board.Store.Joins.{
  is_thread, is_visible_thread, is_post, in_thread, opening_id, scan_thread, thread_by,
  thread_by_id,
}
use agents_board.Store.Posts.{
  bad_stance, reply_to_fits, is_duplicate, body_fits, reply_row, bump, insert_reply, create_reply,
}
use agents_board.Store.Board.Counting.{
  row_id, thread_row_id, visible_replies, parent_found, IsWellFormed, visible_replies-append,
  opening_id-append_later,
}

-- A thread that is read is a row of the table, with the same lock.
pub thread_by_id-row :
    (id : ℕ) (db : Db) {t : Thread}
    → thread_by_id id db ≡ ok t
    → (r : ThreadRow) × (first (is_visible_thread id) db.threads ≡ some r)
      × (locked_thread t ≡ is_some r.locked_at)
unfolding thread_by_id thread_by scan_thread
thread_by_id-row id db {t} h = elim (Option-cases (first (is_visible_thread id) db.threads)) [
  | inl e ↦ absurd (ground arith)
  | inr (r, e) ↦ (
    r,
    e,
    elim (Option-cases (first (has_id r.author_id) db.agents)) [
      | inl n ↦ absurd (ground arith)
      | inr (a, n) ↦ ground arith
    ],
  )
]

-- What a successful CreateReply has checked.
pub record IsAccepted (now : ℕ) (new : NewReply) (db : Db) : Type 0 where
  pub stance : bad_stance new.stance ≡ false
  pub thread : ThreadRow
  pub found : first (is_visible_thread new.thread_id) db.threads ≡ some thread
  pub unlocked : thread.locked_at ≡ none
  pub parent : reply_to_fits new db ≡ true
  pub fresh : is_duplicate now new.author_id new.thread_id new.content_hash db ≡ false
  pub fits : body_fits new.body ≡ true
  pub author : exists_row (has_id new.author_id) db.agents ≡ true

pub create_reply-IsAccepted :
    (now : ℕ) (new : NewReply) (db : Db) {p : Post} {db' : Db}
    → create_reply now new db ≡ ok (p, db')
    → IsAccepted now new db × (db' ≡ insert_reply now new db)
unfolding create_reply
create_reply-IsAccepted now new db h = elim (Result-cases (thread_by_id new.thread_id db)) [
  | inl (e, none_found) ↦ absurd (ground arith)
  | inr (t, seen) ↦
      let (r, found, same_lock) = thread_by_id-row new.thread_id db seen in
      (
        record {
          stance = ground arith;
          thread = r;
          found = found;
          unlocked = ground arith;
          parent = ground arith;
          fresh = ground arith;
          fits = ground arith;
          author = ground arith;
        },
        ground arith,
      )
]

abbrev parent_fits : List PostRow → ℕ → Option ℕ → Bool
parent_fits posts tid none = true
parent_fits posts tid (some r) =
    exists_row (λ q. (is_post r q && in_thread tid q) && is_none q.hidden_at) posts

-- An inserted post finds its parent, and the others keep theirs.
pub parent_found-append :
    (posts : List PostRow) (tid : ℕ) (y : PostRow) (o : Option ℕ)
    → parent_found posts tid o ≡ true
    → parent_found (posts ++ y ∷ []) tid o ≡ true
parent_found-append posts tid y none h = refl
parent_found-append posts tid y (some r) h = exists_row-append _ posts (y ∷ []) h

parent_found_of_fits :
    (new : NewReply) (db : Db) (o : Option ℕ)
    → new.reply_to ≡ o
    → reply_to_fits new db ≡ true
    → parent_found db.posts new.thread_id o ≡ true
parent_found_of_fits new db none e h = refl
parent_found_of_fits new db (some r) e h =
    exists_row-imp _ _ db.posts (λ q t. ground arith) (rw (e, reply_to_fits) at h)

module _ (now : ℕ) (new : NewReply) (db : Db) (w : IsWellFormed db)
    (a : IsAccepted now new db) where
  abbrev row : PostRow
  row = reply_row now new db

  later : All (λ p. row_id p < row_id row) db.posts
  later = lt-next_id row_id db.posts

  -- One thread's count and opening post after the insert.
  recount :
      (t : ThreadRow)
      → (t.reply_count ≡ visible_replies t.id db.posts)
        × (is_some (opening_id t.id db.posts) ≡ true)
      → (visible_replies t.id (db.posts ++ row ∷ [])
          ≡ t.reply_count + (if in_thread t.id row then 1 else 0))
        × (is_some (opening_id t.id (db.posts ++ row ∷ [])) ≡ true)
  recount t (n, o) = elim (Option-cases (opening_id t.id db.posts)) [
    | inl e ↦ absurd (ground arith)
    | inr (m, e) ↦ (
      rw (visible_replies-append t.id db.posts row later e refl, n) refl,
      rw (opening_id-append_later t.id db.posts row later e) refl,
    )
  ]

  still_there :
      (tid : ℕ)
      → exists_row (is_thread tid) db.threads ≡ true
      → exists_row (is_thread tid) (insert_reply now new db).threads ≡ true
  still_there tid h =
      rw
        (exists_row-update (is_thread tid) (is_thread new.thread_id) (bump now) db.threads
          (λ x. refl))
        h

  insert_reply-IsWellFormed : IsWellFormed (insert_reply now new db)
  insert_reply-IsWellFormed = record {
    post_ids = IsAscending-append row_id db.posts row w.post_ids later;
    thread_ids =
        IsAscending-update thread_row_id (is_thread new.thread_id) (bump now) db.threads (λ x. refl)
          w.thread_ids;
    counted =
        All-update _ _ (is_thread new.thread_id) (bump now) db.threads
          (λ t h e. ground (arith, recount t h)) (λ t h e. ground (arith, recount t h)) both;
    opened =
        All-update _ _ (is_thread new.thread_id) (bump now) db.threads (λ t h e. (recount t h).1)
          (λ t h e. (recount t h).1) both;
    owned =
        All-append _ db.posts (row ∷ [])
          (All-imp _ _ db.posts (λ p h. still_there p.thread_id h) w.owned)
          (
            still_there new.thread_id (
                exists_row-imp (is_visible_thread new.thread_id) (is_thread new.thread_id)
                  db.threads (λ t e. ground arith) (exists_row_of_first _ db.threads a.found)),
            tt,
          );
    parents =
        All-append _ db.posts (row ∷ [])
          (All-imp _ _ db.posts (λ p h. parent_found-append db.posts p.thread_id row p.reply_to h)
            w.parents)
          (
            parent_found-append db.posts new.thread_id row new.reply_to
                (parent_found_of_fits new db new.reply_to refl a.parent),
            tt,
          );
  }
    where
      both :
          All
            (λ (t : ThreadRow).
              (t.reply_count ≡ visible_replies t.id db.posts)
              × (is_some (opening_id t.id db.posts) ≡ true))
            db.threads
      both = All-both _ _ db.threads w.counted w.opened

-- A successful CreateReply keeps the board's invariant: the counter of the thread still equals its
-- number of visible replies, ids stay in order, and the new post's parent lies in its thread.
pub create_reply-IsWellFormed :
    (now : ℕ) (new : NewReply) (db : Db) {p : Post} {db' : Db}
    → IsWellFormed db
    → create_reply now new db ≡ ok (p, db')
    → IsWellFormed db'
create_reply-IsWellFormed now new db w h =
    let (a, e) = create_reply-IsAccepted now new db h in
    rw e (insert_reply-IsWellFormed now new db w a)
