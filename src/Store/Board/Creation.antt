-- ===== src/Store/Board/Creation.antt =====
-- CreateThread (internal/store/threads.go): what it writes, and that the board's invariant is kept.
use agents_board.Common.{
  ℕ, ◌<◌, ◌≡◌, refl, true, false, inl, inr, List, [], ◌∷◌, ◌++◌, arith, ◌==◌, Bool-cases,
  Option-cases, ==_iff, ==_self, is_some, All, All-imp, All-append, All-both, exists_row,
  IsAscending-append, lt-next_id, exists_row-append, exists_row-append_last, ok,
}
use agents_board.Store.Types.{ThreadRow, PostRow, format_time, valid_board}
use agents_board.Store.Views.{Thread, Post, NewThread}
use agents_board.Store.Db.{Db}
use agents_board.Store.Agents.{has_id}
use agents_board.Store.Joins.{is_thread, in_thread, opening_id}
use agents_board.Store.Posts.{is_duplicate, body_fits}
use agents_board.Store.Threads.{
  title_fits, thread_id, thread_row, opening_row, insert_rows, insert_thread, create_thread,
}
use agents_board.Store.Board.Counting.{
  row_id, thread_row_id, visible_replies, IsWellFormed, visible_replies-append,
  visible_replies-append_first, opening_id-append_later, opening_id-append_first, opening_id-none,
}
use agents_board.Store.Board.Replies.{parent_found-append}

-- What a successful insertThread has checked.
pub record IsInsertable (new : NewThread) (db : Db) : Type 0 where
  pub board : valid_board new.board ≡ true
  pub title : title_fits new.title ≡ true
  pub body : body_fits new.body ≡ true
  pub author : exists_row (has_id new.author_id) db.agents ≡ true

pub insert_thread-IsInsertable :
    (new : NewThread) (now : ℕ) (db : Db) {x : Thread × Post} {db' : Db}
    → insert_thread new now db ≡ ok (x, db')
    → IsInsertable new db × (db' ≡ insert_rows now new db)
unfolding insert_thread
insert_thread-IsInsertable new now db h = (
  record { board = ground arith; title = ground arith; body = ground arith; author = ground arith },
  ground arith,
)

-- No thread has an id that is above them all.
absent_above :
    (n : ℕ) (threads : List ThreadRow)
    → All (λ t. thread_row_id t < n) threads
    → exists_row (is_thread n) threads ≡ false
absent_above n [] h = refl
absent_above n (t ∷ ts) h = ground (arith, absent_above n ts h.1)

module _ (now : ℕ) (new : NewThread) (db : Db) (w : IsWellFormed db) where
  abbrev row : PostRow
  row = opening_row now new db

  later : All (λ p. row_id p < row_id row) db.posts
  later = lt-next_id row_id db.posts

  apart : All (λ p. in_thread (thread_id db) p ≡ false) db.posts
  apart =
      All-imp _ _ db.posts
        (λ (p : PostRow) h. elim (Bool-cases (p.thread_id == thread_id db)) [
          | inl e ↦
              let gone : exists_row (is_thread (thread_id db)) db.threads ≡ false =
                absent_above (thread_id db) db.threads (lt-next_id thread_row_id db.threads) in
              let same : p.thread_id ≡ thread_id db = (==_iff p.thread_id (thread_id db)).0 e in
              absurd (ground arith)
          | inr e ↦ e
        ])
        w.owned

  -- A thread that was there keeps its count and its opening post.
  recount :
      (t : ThreadRow)
      → (t.reply_count ≡ visible_replies t.id db.posts)
        × ((is_some (opening_id t.id db.posts) ≡ true) × (t.id < thread_id db))
      → (t.reply_count ≡ visible_replies t.id (db.posts ++ row ∷ []))
        × (is_some (opening_id t.id (db.posts ++ row ∷ [])) ≡ true)
  recount t (n, (o, old)) = elim (Option-cases (opening_id t.id db.posts)) [
    | inl e ↦ absurd (ground arith)
    | inr (m, e) ↦ (
      rw (visible_replies-append t.id db.posts row later e refl, n) (ground arith),
      rw (opening_id-append_later t.id db.posts row later e) refl,
    )
  ]

  insert_rows-IsWellFormed : IsWellFormed (insert_rows now new db)
  insert_rows-IsWellFormed = record {
    post_ids = IsAscending-append row_id db.posts row w.post_ids later;
    thread_ids =
        IsAscending-append thread_row_id db.threads (thread_row now new db) w.thread_ids
          (lt-next_id thread_row_id db.threads);
    counted =
        All-append _ db.threads (thread_row now new db ∷ [])
          (All-imp _ _ db.threads (λ t h. (recount t h).0) old)
          (
            rw (visible_replies-append_first (thread_id db) db.posts row (==_self _) apart) refl,
            tt,
          );
    opened =
        All-append _ db.threads (thread_row now new db ∷ [])
          (All-imp _ _ db.threads (λ t h. (recount t h).1) old)
          (
            rw
                (opening_id-append_first (thread_id db) db.posts row (==_self _)
                  (opening_id-none (thread_id db) db.posts apart))
                refl,
            tt,
          );
    owned =
        All-append _ db.posts (row ∷ [])
          (All-imp _ _ db.posts (λ p h. exists_row-append (is_thread p.thread_id) db.threads _ h)
            w.owned)
          (exists_row-append_last (is_thread (thread_id db)) db.threads _ (==_self _), tt);
    parents =
        All-append _ db.posts (row ∷ [])
          (All-imp _ _ db.posts (λ p h. parent_found-append db.posts p.thread_id row p.reply_to h)
            w.parents)
          (refl, tt);
  }
    where
      old :
          All
            (λ (t : ThreadRow).
              (t.reply_count ≡ visible_replies t.id db.posts)
              × ((is_some (opening_id t.id db.posts) ≡ true) × (t.id < thread_id db)))
            db.threads
      old =
          All-both _ _ db.threads w.counted
            (All-both _ _ db.threads w.opened (lt-next_id thread_row_id db.threads))

pub insert_thread-IsWellFormed :
    (new : NewThread) (now : ℕ) (db : Db) {x : Thread × Post} {db' : Db}
    → IsWellFormed db
    → insert_thread new now db ≡ ok (x, db')
    → IsWellFormed db'
insert_thread-IsWellFormed new now db w h =
    rw (insert_thread-IsInsertable new now db h).1 (insert_rows-IsWellFormed now new db w)

-- A successful CreateThread keeps the board's invariant: the new thread has an opening post, no
-- counted reply, and a fresh id; every other thread keeps its count.
pub create_thread-IsWellFormed :
    (now : ℕ) (new : NewThread) (db : Db) {x : Thread × Post} {db' : Db}
    → IsWellFormed db
    → create_thread now new db ≡ ok (x, db')
    → IsWellFormed db'
unfolding create_thread
create_thread-IsWellFormed now new db w h =
    elim (Bool-cases (is_duplicate now new.author_id 0 new.content_hash db)) [
      | inl e ↦ absurd (ground arith)
      | inr e ↦ insert_thread-IsWellFormed new (format_time now) db w (rw e at h)
    ]
