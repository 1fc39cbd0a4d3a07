-- ===== src/Store/Inbox/Cursor.antt =====
-- The cursor of Inbox (internal/store/inbox.go): what is left to read after a page.
use mathlib.Core.Path.{subst}
use agents_board.Common.{
  List, leb, select, map, IsAscending, not, is_none, All-every, ℕ, ◌≤◌, ◌≡◌, refl, Bool, true, ◌&&◌,
  some, inl, inr, arith, ◌==◌, ltb, exists_row, exists_row-update, first, first-update, count,
  count-congr, ok, sym, ap, ◌∙◌, Option-cases, Bool-cases, if◌then◌else◌, take, join,
}
use agents_board.Store.Types.{AgentRow, PostRow}
use agents_board.Store.Views.{InboxItem, InboxPage}
use agents_board.Store.Db.{Db}
use agents_board.Store.Agents.{has_id}
use agents_board.Store.Board.Counting.{row_id}
use agents_board.Store.Inbox.Items.{item_id, unread_rows-IsPage}
use agents_board.Store.Inbox.{
  is_unread, is_for_me, answers_my_post, inbox_item, unread_rows, last_id, clamp_limit, advance,
  inbox, inbox_unread,
}

-- What a page of the inbox consists of.
pub inbox-parts :
    (me limit : ℕ) (mark_read : Bool) (db : Db) {page : InboxPage} {db' : Db}
    → inbox me limit mark_read db ≡ ok (page, db')
    → (r : AgentRow) × (first (has_id me) db.agents ≡ some r)
      × (page.items
          ≡ take (clamp_limit limit) (join (inbox_item me db) (unread_rows me r.inbox_cursor db)))
      × (page.unread_remaining
          ≡ count
              (λ p.
                is_unread me r.inbox_cursor db p && ltb (last_id r.inbox_cursor page.items) p.id)
              db.posts)
      × (db' ≡ (
          if mark_read && ltb r.inbox_cursor (last_id r.inbox_cursor page.items)
          then advance me (last_id r.inbox_cursor page.items) db
          else db))
unfolding inbox
inbox-parts me limit mark_read db h = elim (Option-cases (first (has_id me) db.agents)) [
  | inl e ↦ absurd (ground arith)
  | inr (r, e) ↦ (r, e, ground arith, ground arith, ground arith)
]

is_for_me-advance :
    (me last : ℕ) (db : Db) (p : PostRow) → is_for_me me (advance me last db) p ≡ is_for_me me db p
unfolding is_for_me answers_my_post
is_for_me-advance me last db p = refl

exists_row-advance :
    (me last id : ℕ) (db : Db)
    → exists_row (has_id id) (advance me last db).agents ≡ exists_row (has_id id) db.agents
exists_row-advance me last id db = exists_row-update (has_id id) (has_id me) _ db.agents (λ x. refl)

both_above : (cursor last id : ℕ) → cursor ≤ last → ltb last id ≡ (ltb cursor id && ltb last id)
both_above cursor last id h = ground arith

regroup :
    (a b other shown known mine : Bool)
    → b ≡ (a && b)
    → (a && other && shown && known && mine && b) ≡ (b && other && shown && known && mine)
regroup a b other shown known mine h = ground arith

is_unread-advance :
    (me cursor last : ℕ) (db : Db) (p : PostRow)
    → cursor ≤ last
    → (is_unread me cursor db p && ltb last p.id) ≡ is_unread me last (advance me last db) p
unfolding is_unread
is_unread-advance me cursor last db p h =
    rw (exists_row-advance me last p.author_id db, is_for_me-advance me last db p)
      (regroup (ltb cursor p.id) (ltb last p.id) (not (p.author_id == me)) (is_none p.hidden_at)
        (exists_row (has_id p.author_id) db.agents) (is_for_me me db p)
        (both_above cursor last p.id h))

is_unread-cursor :
    (me cursor last : ℕ) (db : Db) (p : PostRow)
    → last ≤ cursor
    → (is_unread me cursor db p && ltb last p.id) ≡ is_unread me cursor db p
unfolding is_unread
is_unread-cursor me cursor last db p h = ground arith

inbox_unread-eq :
    (me : ℕ) (db : Db) {r : AgentRow}
    → first (has_id me) db.agents ≡ some r
    → inbox_unread me db ≡ count (is_unread me r.inbox_cursor db) db.posts
unfolding inbox_unread
inbox_unread-eq me db e = rw (e, inbox_unread) refl

inbox-left :
    (me limit : ℕ) (db : Db) {page : InboxPage} {db' : Db}
    → inbox me limit true db ≡ ok (page, db')
    → inbox_unread me db' ≡ page.unread_remaining
inbox-left me limit db {page} {db'} h =
    let (r, found, items, remaining, left) = inbox-parts me limit true db h in
    let last = last_id r.inbox_cursor page.items in
    elim (Bool-cases (ltb r.inbox_cursor last)) [
      | inl more ↦
          let same : db' ≡ advance me last db = ground arith in
          let owner : first (has_id me) (advance me last db).agents
              ≡ some (record r { inbox_cursor = last }) =
            first-update (has_id me) _ db.agents (λ x. refl) found in
          ap (inbox_unread me) same
          ∙ inbox_unread-eq me (advance me last db) owner
          ∙ sym (
              count-congr _ _ db.posts (
                All-every _ db.posts
                  (λ p. is_unread-advance me r.inbox_cursor last db p (ground arith))))
          ∙ sym remaining
      | inr same_cursor ↦
          let same : db' ≡ db = ground arith in
          ap (inbox_unread me) same
          ∙ inbox_unread-eq me db found
          ∙ sym (
              count-congr _ _ db.posts (
                All-every _ db.posts
                  (λ p. is_unread-cursor me r.inbox_cursor last db p (ground arith))))
          ∙ sym remaining
    ]

page_cursor :
    (me limit : ℕ) (db : Db) {page : InboxPage} {db' : Db} {r : AgentRow}
    → inbox me limit true db ≡ ok (page, db')
    → first (has_id me) db.agents ≡ some r
    → page.cursor ≡ (
        if ltb r.inbox_cursor (last_id r.inbox_cursor page.items)
        then last_id r.inbox_cursor page.items
        else r.inbox_cursor)
unfolding inbox
page_cursor me limit db h found = ground arith

inbox-cursor :
    (me limit : ℕ) (db : Db) {page : InboxPage} {db' : Db} {r : AgentRow}
    → inbox me limit true db ≡ ok (page, db')
    → first (has_id me) db.agents ≡ some r
    → r.inbox_cursor ≤ last_id r.inbox_cursor page.items
    → page.cursor ≡ last_id r.inbox_cursor page.items
inbox-cursor me limit db h found above = ground (arith, page_cursor me limit db h found)

-- Reading an agent's inbox with mark_read, on a posts table in the order of its ids, delivers exactly
-- the agent's unread posts up to the cursor that it reports, oldest first, and reports as
-- unread_remaining exactly the number that InboxUnread gives on the database it leaves: the cursor
-- passes the items of the page and no other post that was unread.
pub inbox-inbox_unread :
    (me limit : ℕ) (db : Db) {page : InboxPage} {db' : Db}
    → IsAscending row_id db.posts
    → inbox me limit true db ≡ ok (page, db')
    → (r : AgentRow) × (first (has_id me) db.agents ≡ some r)
      × (map item_id page.items
          ≡ map row_id
              (select (λ p. is_unread me r.inbox_cursor db p && leb p.id page.cursor) db.posts))
      × (inbox_unread me db' ≡ page.unread_remaining)
inbox-inbox_unread me limit db {page} {db'} sorted h =
    let (r, found, items, remaining, left) = inbox-parts me limit true db h in
    let (above, same) =
      subst
        (λ (is : List InboxItem).
          (r.inbox_cursor ≤ last_id r.inbox_cursor is)
          × (map item_id is
              ≡ map row_id (
                  select
                    (λ p. is_unread me r.inbox_cursor db p && leb p.id (last_id r.inbox_cursor is))
                    db.posts)))
        (sym items) (unread_rows-IsPage me r.inbox_cursor (clamp_limit limit) db sorted) in
    (
      r,
      found,
      same
          ∙ ap
              (λ k.
                map row_id (select (λ p. is_unread me r.inbox_cursor db p && leb p.id k) db.posts))
              (sym (inbox-cursor me limit db h found above)),
      inbox-left me limit db h,
    )
