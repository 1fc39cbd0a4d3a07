-- ===== src/Store/Inbox/Items.antt =====
-- The items of a page of the inbox (internal/store/inbox.go): the first unread posts.
use mathlib.Core.Path.{subst}
use agents_board.Common.{
  ℕ, zero, suc, ◌≤◌, ◌<◌, ◌≡◌, refl, sym, ap, ◌∙◌, arith, true, ◌&&◌, some, inl, inr, List, [], ◌∷◌,
  leb, take, map, select, first, join, order_by, insert_by, Option-cases, All, All-imp,
  All-select_self, select-select, select_of_none, exists_row-first, IsAscending, IsAscending-select,
}
use agents_board.Store.Types.{PostRow}
use agents_board.Store.Views.{InboxItem}
use agents_board.Store.Db.{Db}
use agents_board.Store.Agents.{has_id}
use agents_board.Store.Joins.{is_thread, scan_post_with_thread}
use agents_board.Store.Posts.{oldest_first}
use agents_board.Store.Board.Counting.{row_id}
use agents_board.Store.Inbox.{is_unread, is_for_me, inbox_item, unread_rows, last_id}

abbrev pub item_id : InboxItem → ℕ
item_id i = i.post.id

-- The id of the last row, or the cursor.
abbrev pub last_row : ℕ → List PostRow → ℕ
last_row c [] = c
last_row c (p ∷ ps) = last_row p.id ps

insert_by-first :
    (x : PostRow) (ys : List PostRow)
    → All (λ (y : PostRow). row_id x < row_id y) ys
    → insert_by oldest_first x ys ≡ x ∷ ys
insert_by-first x [] h = refl
insert_by-first x (y ∷ ys) h = ground arith

order_by-IsAscending : (xs : List PostRow) → IsAscending row_id xs → order_by oldest_first xs ≡ xs
order_by-IsAscending [] h = refl
order_by-IsAscending (x ∷ xs) h =
    ap (insert_by oldest_first x) (order_by-IsAscending xs h.1) ∙ insert_by-first x xs h.0

pub last_row-ge :
    (c n : ℕ) (xs : List PostRow)
    → IsAscending row_id xs
    → All (λ (x : PostRow). c < row_id x) xs
    → c ≤ last_row c (take n xs)
last_row-ge c zero xs a h = omega arith
last_row-ge c (suc n) [] a h = omega arith
last_row-ge c (suc n) (x ∷ xs) a h = omega (arith, h.0, last_row-ge x.id n xs a.1 a.0)

-- A page is what is not above its last row.
pub take-last_row :
    (c n : ℕ) (xs : List PostRow)
    → IsAscending row_id xs
    → All (λ (x : PostRow). c < row_id x) xs
    → take n xs ≡ select (λ (x : PostRow). leb x.id (last_row c (take n xs))) xs
take-last_row c zero xs a h = sym (select_of_none _ xs (All-imp _ _ xs (λ x above. ground arith) h))
take-last_row c (suc n) [] a h = refl
take-last_row c (suc n) (x ∷ xs) a h =
    ground (arith, last_row-ge x.id n xs a.1 a.0, take-last_row x.id n xs a.1 a.0)

-- A row that the joins keep, as an item with its id.
abbrev IsJoined : ℕ → Db → PostRow → Type 0
IsJoined me db p = (i : InboxItem) × (inbox_item me db p ≡ some i) × (item_id i ≡ p.id)

is_unread-IsJoined :
    (me c : ℕ) (db : Db) (p : PostRow) → is_unread me c db p ≡ true → IsJoined me db p
unfolding is_unread is_for_me inbox_item scan_post_with_thread
is_unread-IsJoined me c db p h = elim (Option-cases (first (is_thread p.thread_id) db.threads)) [
  | inl e ↦ absurd (ground arith)
  | inr (t, e) ↦
      let (a, f) = exists_row-first (has_id p.author_id) db.agents (ground arith) in
      rw (e, f) (_, refl, refl)
]

joined_cons :
    (me : ℕ) (db : Db) (x : PostRow) (xs : List PostRow) (i : InboxItem)
    → inbox_item me db x ≡ some i
    → join (inbox_item me db) (x ∷ xs) ≡ i ∷ join (inbox_item me db) xs
joined_cons me db x xs i e = rw (e, join) refl

joined_ids :
    (me n : ℕ) (db : Db) (xs : List PostRow)
    → All (IsJoined me db) xs
    → map item_id (take n (join (inbox_item me db) xs)) ≡ map row_id (take n xs)
joined_ids me zero db xs h = refl
joined_ids me (suc n) db [] h = refl
joined_ids me (suc n) db (x ∷ xs) h =
    let (i, e, same) = h.0 in
    ap (λ l. map item_id (take (suc n) l)) (joined_cons me db x xs i e)
    ∙ ap (λ l. item_id i ∷ l) (joined_ids me n db xs h.1)
    ∙ ap (λ k. k ∷ map row_id (take n xs)) same

joined_last :
    (me c n : ℕ) (db : Db) (xs : List PostRow)
    → All (IsJoined me db) xs
    → last_id c (take n (join (inbox_item me db) xs)) ≡ last_row c (take n xs)
unfolding last_id
joined_last me c zero db xs h = refl
joined_last me c (suc n) db [] h = refl
joined_last me c (suc n) db (x ∷ xs) h =
    let (i, e, same) = h.0 in
    ap (λ l. last_id c (take (suc n) l)) (joined_cons me db x xs i e)
    ∙ joined_last me i.post.id n db xs h.1
    ∙ ap (λ k. last_row k (take n xs)) same

-- What a page of n items of the rows after a cursor is: its last id is not below the cursor, and its
-- ids are those of the unread posts up to that last id.
abbrev pub IsPage : ℕ → ℕ → ℕ → Db → List PostRow → Type 0
IsPage me c n db rows =
    (c ≤ last_id c (take n (join (inbox_item me db) rows)))
    × (map item_id (take n (join (inbox_item me db) rows))
        ≡ map row_id (
            select
              (λ p.
                is_unread me c db p && leb p.id (last_id c (take n (join (inbox_item me db) rows))))
              db.posts))

unread_above : (me c : ℕ) (db : Db) (p : PostRow) → is_unread me c db p ≡ true → c < row_id p
unfolding is_unread
unread_above me c db p h = ground arith

selected-IsPage :
    (me c n : ℕ) (db : Db)
    → IsAscending row_id db.posts
    → IsPage me c n db (select (is_unread me c db) db.posts)
selected-IsPage me c n db a =
    let rows = select (is_unread me c db) db.posts in
    let unread = All-select_self (is_unread me c db) db.posts in
    let joined = All-imp _ (IsJoined me db) rows (is_unread-IsJoined me c db) unread in
    let above = All-imp _ (λ (x : PostRow). c < row_id x) rows (unread_above me c db) unread in
    let sorted = IsAscending-select row_id (is_unread me c db) db.posts a in
    let last = joined_last me c n db rows joined in
    (
      subst (λ k. c ≤ k) (sym last) (last_row-ge c n rows sorted above),
      joined_ids me n db rows joined
          ∙ ap (map row_id) (
              take-last_row c n rows sorted above
              ∙ ap (λ k. select (λ (x : PostRow). leb x.id k) rows) (sym last)
              ∙ select-select (is_unread me c db) _ db.posts),
    )

pub unread_rows-IsPage :
    (me c n : ℕ) (db : Db) → IsAscending row_id db.posts → IsPage me c n db (unread_rows me c db)
unfolding unread_rows
unread_rows-IsPage me c n db a =
    subst (IsPage me c n db)
      (sym (
        order_by-IsAscending (select (is_unread me c db) db.posts)
          (IsAscending-select row_id (is_unread me c db) db.posts a)))
      (selected-IsPage me c n db a)
