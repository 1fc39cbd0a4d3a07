-- ===== src/Store/Board/Counting.antt =====
-- How many visible replies a thread has, by the view `replies` of schema.sql, and what inserting
-- a post or hiding one does to that number and to the opening post.
use agents_board.Common.{
  ℕ, ◌+◌, ◌<◌, if◌then◌else◌, count-append, count_of_none, count-update, first, All-imp, ◌≡◌, refl,
  Bool, true, false, not, ◌&&◌, Option, none, some, inl, inr, List, [], ◌∷◌, ◌++◌, arith, ◌==◌,
  Bool-cases, Option-cases, ==_iff, is_some, is_none, All, All-every, exists_row, count, update,
  IsAscending, count-congr, count-select, select-append, min_of-lt, min_of-append,
  min_of-select-update, All-select, append-nil, ap, ◌∙◌,
}
use agents_board.Store.Types.{ThreadRow, PostRow}
use agents_board.Store.Db.{Db}
use agents_board.Store.Joins.{is_thread, is_post, in_thread, opening_id, is_opening, replies}
use agents_board.Store.Posts.{hide_row}

abbrev pub row_id : PostRow → ℕ
row_id p = p.id

abbrev pub thread_row_id : ThreadRow → ℕ
thread_row_id t = t.id

-- Visible replies of a thread: what `threads.reply_count` stands for.
unfoldable pub visible_replies : ℕ → List PostRow → ℕ
visible_replies tid posts =
    count (λ (p : PostRow). in_thread tid p && is_none p.hidden_at) (replies posts)

-- A reply_to names a post of the same thread.
abbrev pub parent_found : List PostRow → ℕ → Option ℕ → Bool
parent_found posts tid none = true
parent_found posts tid (some r) = exists_row (λ q. is_post r q && in_thread tid q) posts

abbrev pub HasParent : List PostRow → PostRow → Type 0
HasParent posts p = parent_found posts p.thread_id p.reply_to ≡ true

pub record IsWellFormed (db : Db) : Type 0 where
  pub post_ids : IsAscending row_id db.posts
  pub thread_ids : IsAscending thread_row_id db.threads
  pub counted : All (λ (t : ThreadRow). t.reply_count ≡ visible_replies t.id db.posts) db.threads
  pub opened : All (λ (t : ThreadRow). is_some (opening_id t.id db.posts) ≡ true) db.threads
  pub owned : All (λ (p : PostRow). exists_row (is_thread p.thread_id) db.threads ≡ true) db.posts
  pub parents : All (HasParent db.posts) db.posts

-- The same count against a fixed opening id.
abbrev pub is_id : Option ℕ → PostRow → Bool
is_id none p = false
is_id (some m) p = p.id == m

abbrev pub is_counted : ℕ → Option ℕ → PostRow → Bool
is_counted tid o p = (in_thread tid p && is_none p.hidden_at) && not (is_id o p)

is_opening-is_id :
    (posts : List PostRow) (p : PostRow)
    → is_opening posts p ≡ is_id (opening_id p.thread_id posts) p
unfolding is_opening
is_opening-is_id posts p = elim (Option-cases (opening_id p.thread_id posts)) [
  | inl o ↦ rw (o, is_opening) refl
  | inr (m, o) ↦ rw (o, is_opening) refl
]

pub is_counted_opening :
    (tid : ℕ) (posts : List PostRow) (p : PostRow)
    → ((in_thread tid p && is_none p.hidden_at) && not (is_opening posts p))
      ≡ is_counted tid (opening_id tid posts) p
is_counted_opening tid posts p = elim (Bool-cases (p.thread_id == tid)) [
  | inl e ↦
      let same : is_opening posts p ≡ is_id (opening_id tid posts) p =
        is_opening-is_id posts p
        ∙ ap (λ k. is_id (opening_id k posts) p) ((==_iff p.thread_id tid).0 e) in
      ap (λ b. (in_thread tid p && is_none p.hidden_at) && not b) same
  | inr e ↦ rw e refl
]

pub visible_replies-eq-count :
    (tid : ℕ) (posts : List PostRow)
    → visible_replies tid posts ≡ count (is_counted tid (opening_id tid posts)) posts
unfolding visible_replies replies
visible_replies-eq-count tid posts =
    rw count-select (count-congr _ _ posts (All-every _ posts (is_counted_opening tid posts)))

-- A new post of another thread leaves the opening post alone.
pub opening_id-append_other :
    (tid : ℕ) (posts : List PostRow) (y : PostRow)
    → in_thread tid y ≡ false
    → opening_id tid (posts ++ y ∷ []) ≡ opening_id tid posts
unfolding opening_id
opening_id-append_other tid posts y h =
    rw (select-append (in_thread tid) posts (y ∷ []), h, append-nil) refl

-- A new post has the largest id, so a thread that has an opening post keeps it.
pub opening_id-append_later :
    (tid : ℕ) (posts : List PostRow) (y : PostRow) {m : ℕ}
    → All (λ p. row_id p < row_id y) posts
    → opening_id tid posts ≡ some m
    → opening_id tid (posts ++ y ∷ []) ≡ some m
unfolding opening_id
opening_id-append_later tid posts y {m} later h = elim (Bool-cases (in_thread tid y)) [
  | inl e ↦
      rw (select-append (in_thread tid) posts (y ∷ []), e, min_of-append, h)
        (ap some
          (omega (arith, min_of-lt row_id _ y.id (All-select _ (in_thread tid) posts later) h)))
  | inr e ↦ opening_id-append_other tid posts y e ∙ h
]

-- The first post of a thread is its opening post.
pub opening_id-append_first :
    (tid : ℕ) (posts : List PostRow) (y : PostRow)
    → in_thread tid y ≡ true
    → opening_id tid posts ≡ none
    → opening_id tid (posts ++ y ∷ []) ≡ some y.id
unfolding opening_id
opening_id-append_first tid posts y e h =
    rw (select-append (in_thread tid) posts (y ∷ []), e, min_of-append, h) refl

pub opening_id-hide :
    (tid now id : ℕ) (posts : List PostRow)
    → opening_id tid (update (is_post id) (hide_row now) posts) ≡ opening_id tid posts
unfolding opening_id
opening_id-hide tid now id posts =
    min_of-select-update row_id (in_thread tid) (is_post id) (hide_row now) posts (λ x. refl)
      (λ x. refl)

pub opening_id-none :
    (tid : ℕ) (posts : List PostRow)
    → All (λ p. in_thread tid p ≡ false) posts
    → opening_id tid posts ≡ none
unfolding opening_id
opening_id-none tid [] h = refl
opening_id-none tid (p ∷ ps) h = rw h.0 (opening_id-none tid ps h.1)

opening_id-lt :
    (tid n : ℕ) (posts : List PostRow) {m : ℕ}
    → All (λ p. row_id p < n) posts
    → opening_id tid posts ≡ some m
    → m < n
unfolding opening_id
opening_id-lt tid n posts later o =
    min_of-lt row_id _ n (All-select _ (in_thread tid) posts later) o

-- Inserting a post: it is counted in its own thread, if that has an opening post already.
pub visible_replies-append :
    (tid : ℕ) (posts : List PostRow) (y : PostRow) {m : ℕ}
    → All (λ p. row_id p < row_id y) posts
    → opening_id tid posts ≡ some m
    → y.hidden_at ≡ none
    → visible_replies tid (posts ++ y ∷ [])
      ≡ visible_replies tid posts + (if in_thread tid y then 1 else 0)
visible_replies-append tid posts y {m} later o shown =
    let below : m < y.id = opening_id-lt tid y.id posts later o in
    rw
      (
        visible_replies-eq-count tid (posts ++ y ∷ []),
        visible_replies-eq-count tid posts,
        opening_id-append_later tid posts y later o,
        o,
        count-append,
        shown,
      )
      (ground arith)

-- A new thread's opening post is not counted.
pub visible_replies-append_first :
    (tid : ℕ) (posts : List PostRow) (y : PostRow)
    → in_thread tid y ≡ true
    → All (λ p. in_thread tid p ≡ false) posts
    → visible_replies tid (posts ++ y ∷ []) ≡ 0
visible_replies-append_first tid posts y here apart =
    rw
      (
        visible_replies-eq-count tid (posts ++ y ∷ []),
        opening_id-append_first tid posts y here (opening_id-none tid posts apart),
        count-append,
        count_of_none (is_counted tid (some y.id)) posts
            (All-imp (λ p. in_thread tid p ≡ false) _ posts (λ p h. rw h refl) apart),
      )
      (ground arith)

-- Hiding a visible post takes it out of the count, if it was in it.
pub visible_replies-hide :
    (tid now id : ℕ) (posts : List PostRow) {p : PostRow}
    → IsAscending row_id posts
    → first (is_post id) posts ≡ some p
    → visible_replies tid (update (is_post id) (hide_row now) posts)
        + (if is_counted tid (opening_id tid posts) p then 1 else 0)
      ≡ visible_replies tid posts
visible_replies-hide tid now id posts {p} a e =
    rw
      (
        visible_replies-eq-count tid (update (is_post id) (hide_row now) posts),
        visible_replies-eq-count tid posts,
        opening_id-hide tid now id posts,
      )
      (count-update row_id (is_counted tid (opening_id tid posts)) (hide_row now) id posts a e
        (ground arith))

-- The invariant reads the posts and threads tables alone.
pub IsWellFormed-of_tables :
    (db db' : Db)
    → db'.posts ≡ db.posts
    → db'.threads ≡ db.threads
    → IsWellFormed db
    → IsWellFormed db'
IsWellFormed-of_tables db db' p t w = record {
  post_ids = rw p w.post_ids;
  thread_ids = rw t w.thread_ids;
  counted = rw (p, t) w.counted;
  opened = rw (p, t) w.opened;
  owned = rw (p, t) w.owned;
  parents = rw p w.parents;
}
