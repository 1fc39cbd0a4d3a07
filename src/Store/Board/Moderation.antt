-- ===== src/Store/Board/Moderation.antt =====
-- HidePost (internal/store/posts.go) and LockThread (internal/store/threads.go): what they write,
-- and that the board's invariant is kept.
use agents_board.Common.{
  ℕ, ◌+◌, ◌≡◌, refl, Bool, true, false, Option, none, some, inl, inr, List, arith, Bool-cases,
  Option-cases, ==_iff, ◌∙◌, IsAscending, is_some, All, All-imp, All-update, All-every,
  All_of_first, first, update, exists_row, exists_row-update, IsAscending-update, ok, Text,
  if◌then◌else◌,
}
use agents_board.Store.Types.{ThreadRow, PostRow, ModAction, TargetType, TargetId}
use agents_board.Store.Db.{Db, insert_mod_event}
use agents_board.Store.Joins.{
  is_thread, is_visible_thread, is_post, in_thread, opening_id, is_opening,
}
use agents_board.Store.Posts.{hide_row, unbump, hide_found, hide_post}
use agents_board.Store.Threads.{lock_row, lock_thread}
use agents_board.Store.Board.Counting.{
  row_id, thread_row_id, visible_replies, parent_found, IsWellFormed, visible_replies-hide,
  opening_id-hide, is_counted_opening, IsWellFormed-of_tables,
}

parent_found-hide :
    (now id tid : ℕ) (posts : List PostRow) (o : Option ℕ)
    → parent_found (update (is_post id) (hide_row now) posts) tid o ≡ parent_found posts tid o
parent_found-hide now id tid posts none = refl
parent_found-hide now id tid posts (some r) =
    exists_row-update _ (is_post id) (hide_row now) posts (λ x. refl)

abbrev hidden_rows : ℕ → PostRow → Db → List PostRow
hidden_rows now p db = update (is_post p.id) (hide_row now) db.posts

-- The board after a visible post is hidden; `b` says whether it is an opening post.
abbrev hidden_db : ℕ → PostRow → Db → Bool → Db
hidden_db now p db b = record db {
  posts = hidden_rows now p db;
  threads = if b then db.threads else update (is_thread p.thread_id) unbump db.threads;
}

module _ (now : ℕ) (p : PostRow) (db : Db) (w : IsWellFormed db)
    (found : first (is_post p.id) db.posts ≡ some p) (shown : p.hidden_at ≡ none) where
  -- The count of a thread after the post is hidden.
  recount :
      (t : ThreadRow)
      → t.reply_count ≡ visible_replies t.id db.posts
      → visible_replies t.id (hidden_rows now p db)
          + (if in_thread t.id p then (if is_opening db.posts p then 0 else 1) else 0)
        ≡ t.reply_count
  recount t n = ground (
    arith,
    visible_replies-hide t.id now p.id db.posts w.post_ids found,
    is_counted_opening t.id db.posts p,
  )

  counted_after :
      (b : Bool)
      → is_opening db.posts p ≡ b
      → All
          (λ (t : ThreadRow). t.reply_count ≡ visible_replies t.id (hidden_rows now p db))
          (if b then db.threads else update (is_thread p.thread_id) unbump db.threads)
  counted_after true o = All-imp _ _ db.threads (λ t h. ground (arith, recount t h)) w.counted
  counted_after false o =
      All-update _ _ (is_thread p.thread_id) unbump db.threads
        (λ t h e. ground (arith, recount t h)) (λ t h e. ground (arith, recount t h)) w.counted

  thread_kept :
      (b : Bool) (tid : ℕ)
      → exists_row (is_thread tid) db.threads ≡ true
      → exists_row (is_thread tid) (hidden_db now p db b).threads ≡ true
  thread_kept true tid h = h
  thread_kept false tid h =
      rw (exists_row-update (is_thread tid) (is_thread p.thread_id) unbump db.threads (λ x. refl)) h

  ids_kept : (b : Bool) → IsAscending thread_row_id (hidden_db now p db b).threads
  ids_kept true = w.thread_ids
  ids_kept false =
      IsAscending-update thread_row_id (is_thread p.thread_id) unbump db.threads (λ x. refl)
        w.thread_ids

  opened_kept :
      (b : Bool)
      → All
          (λ (t : ThreadRow). is_some (opening_id t.id (hidden_rows now p db)) ≡ true)
          (hidden_db now p db b).threads
  opened_kept true =
      All-imp _ _ db.threads (λ t h. rw (opening_id-hide t.id now p.id db.posts) h) w.opened
  opened_kept false =
      All-update _ _ (is_thread p.thread_id) unbump db.threads
        (λ t h e. rw (opening_id-hide t.id now p.id db.posts) h)
        (λ t h e. rw (opening_id-hide t.id now p.id db.posts) h) w.opened

  hidden_db-IsWellFormed :
      (b : Bool) → is_opening db.posts p ≡ b → IsWellFormed (hidden_db now p db b)
  hidden_db-IsWellFormed b o = record {
    post_ids =
        IsAscending-update row_id (is_post p.id) (hide_row now) db.posts (λ x. refl) w.post_ids;
    thread_ids = ids_kept b;
    counted = counted_after b o;
    opened = opened_kept b;
    owned =
        All-update _ _ (is_post p.id) (hide_row now) db.posts (λ q h e. thread_kept b q.thread_id h)
          (λ q h e. thread_kept b q.thread_id h) w.owned;
    parents =
        All-update _ _ (is_post p.id) (hide_row now) db.posts
          (λ q h e. parent_found-hide now p.id q.thread_id db.posts q.reply_to ∙ h)
          (λ q h e. parent_found-hide now p.id q.thread_id db.posts q.reply_to ∙ h) w.parents;
  }

-- The row that HidePost finds, and what it writes.
pub hide_post-found :
    (now id : ℕ) (reason : Text) (db : Db) {u : Unit {0}} {db' : Db}
    → hide_post now id reason db ≡ ok (u, db')
    → (p : PostRow) × (first (is_post id) db.posts ≡ some p)
      × (db'
          ≡ insert_mod_event now ModAction.hide TargetType.post
              (TargetId.row id)
              reason
              (hide_found now p db))
unfolding hide_post
hide_post-found now id reason db h = elim (Option-cases (first (is_post id) db.posts)) [
  | inl e ↦ absurd (ground arith)
  | inr (p, e) ↦ (p, e, ground arith)
]

hide_found_hidden :
    (now : ℕ) (p : PostRow) (db : Db) → is_some p.hidden_at ≡ true → hide_found now p db ≡ db
unfolding hide_found
hide_found_hidden now p db e = ground arith

hide_found_shown :
    (now : ℕ) (p : PostRow) (db : Db)
    → is_some p.hidden_at ≡ false
    → hide_found now p db ≡ hidden_db now p db (is_opening db.posts p)
unfolding hide_found
hide_found_shown now p db e = ground arith

hide_found-IsWellFormed :
    (now : ℕ) (p : PostRow) (db : Db)
    → IsWellFormed db
    → first (is_post p.id) db.posts ≡ some p
    → IsWellFormed (hide_found now p db)
hide_found-IsWellFormed now p db w found = elim (Bool-cases (is_some p.hidden_at)) [
  | inl e ↦ rw (hide_found_hidden now p db e) w
  | inr e ↦
      rw (hide_found_shown now p db e)
        (hidden_db-IsWellFormed now p db w found (ground arith) (is_opening db.posts p) refl)
]

-- HidePost keeps the board's invariant: the thread's counter is lowered exactly when the post was
-- a visible reply, and nothing else of the threads and posts changes the counts.
pub hide_post-IsWellFormed :
    (now id : ℕ) (reason : Text) (db : Db) {u : Unit {0}} {db' : Db}
    → IsWellFormed db
    → hide_post now id reason db ≡ ok (u, db')
    → IsWellFormed db'
hide_post-IsWellFormed now id reason db w h =
    let (p, found, e) = hide_post-found now id reason db h in
    let same : p.id ≡ id =
      (==_iff p.id id).0
        (All_of_first (λ q. Unit {0}) (is_post id) db.posts (All-every _ db.posts (λ q. tt))
          found).1 in
    rw e (
      IsWellFormed-of_tables (hide_found now p db) _ refl refl
        (hide_found-IsWellFormed now p db w (rw same found)))

pub lock_thread-tables :
    (now id : ℕ) (reason : Text) (db : Db) {u : Unit {0}} {db' : Db}
    → lock_thread now id reason db ≡ ok (u, db')
    → (db'.posts ≡ db.posts)
      × (db'.threads ≡ update (is_visible_thread id) (lock_row now) db.threads)
unfolding lock_thread
lock_thread-tables now id reason db h = ground arith

-- LockThread keeps the board's invariant.
pub lock_thread-IsWellFormed :
    (now id : ℕ) (reason : Text) (db : Db) {u : Unit {0}} {db' : Db}
    → IsWellFormed db
    → lock_thread now id reason db ≡ ok (u, db')
    → IsWellFormed db'
lock_thread-IsWellFormed now id reason db {db'} w h =
    let (p, t) = lock_thread-tables now id reason db h in
    record {
      post_ids = rw p w.post_ids;
      thread_ids = rw t (
          IsAscending-update thread_row_id (is_visible_thread id) (lock_row now) db.threads
            (λ x. refl) w.thread_ids);
      counted =
          rw (p, t)
            (All-update _ _ (is_visible_thread id) (lock_row now) db.threads (λ x k e. k)
              (λ x k e. k) w.counted);
      opened =
          rw (p, t)
            (All-update _ _ (is_visible_thread id) (lock_row now) db.threads (λ x k e. k)
              (λ x k e. k) w.opened);
      owned =
          rw (p, t)
            (All-imp _ _ db.posts
              (λ q k.
                exists_row-update (is_thread q.thread_id) (is_visible_thread id) (lock_row now)
                  db.threads (λ x. refl)
                ∙ k)
              w.owned);
      parents = rw p w.parents;
    }
