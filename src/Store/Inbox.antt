-- ===== src/Store/Inbox.antt =====
-- internal/store/inbox.go: the replies that an agent has not read yet.
pub mod Items
pub mod Cursor
use mathlib.Core.Option
use agents_board.Common.{
  ℕ, Bool, false, ◌&&◌, ◌||◌, not, Option, none, some, List, [], ◌∷◌, ◌==◌, ltb, take, select,
  first, exists_row, count, update, order_by, join, is_none, if◌then◌else◌, Result, failure, ok,
  or_err, ◌>>=◌,
}
use agents_board.Store.Types.{AgentRow, PostRow, InboxKind, reply_to_post, reply_in_thread}
use agents_board.Store.Views.{Post, InboxItem, InboxPage}
use agents_board.Store.Db.{Db}
use agents_board.Store.Agents.{has_id}
use agents_board.Store.Joins.{is_thread, is_post, scan_post_with_thread}
use agents_board.Store.Posts.{oldest_first, at_least_one}

abbrev pub inbox_default_limit : ℕ
inbox_default_limit = 10

abbrev pub inbox_max_limit : ℕ
inbox_max_limit = 50

-- p.reply_to IN (SELECT id FROM posts WHERE author_id = me.id)
unfoldable pub answers_my_post : ℕ → Db → PostRow → Bool
answers_my_post me db p = elim p.reply_to [
  | none ↦ false
  | some r ↦ exists_row (λ (q : PostRow). is_post r q && q.author_id == me) db.posts
]

-- t.hidden_at IS NULL AND (t.author_id = me.id OR p.reply_to IN (…)), for the post's thread
unfoldable pub is_for_me : ℕ → Db → PostRow → Bool
is_for_me me db p = elim (first (is_thread p.thread_id) db.threads) [
  | none ↦ false
  | some t ↦ is_none t.hidden_at && (t.author_id == me || answers_my_post me db p)
]

-- inboxWhere, with the joins of the author and the thread, above a cursor.
unfoldable pub is_unread : ℕ → ℕ → Db → PostRow → Bool
is_unread me cursor db p =
    ltb cursor p.id
    && not (p.author_id == me)
    && is_none p.hidden_at
    && exists_row (has_id p.author_id) db.agents
    && is_for_me me db p

abbrev pub inbox_kind : ℕ → Db → PostRow → InboxKind
inbox_kind me db p = if answers_my_post me db p then reply_to_post else reply_in_thread

unfoldable pub inbox_item : ℕ → Db → PostRow → Option InboxItem
inbox_item me db p =
    Option.map (λ (q : Post). record { post = q; kind = inbox_kind me db p })
      (scan_post_with_thread db p)

unfoldable pub unread_rows : ℕ → ℕ → Db → List PostRow
unread_rows me cursor db = order_by oldest_first (select (is_unread me cursor db) db.posts)

-- The id of the last item, or the cursor.
unfoldable pub last_id : ℕ → List InboxItem → ℕ
last_id cursor [] = cursor
last_id cursor (i ∷ is) = last_id i.post.id is

abbrev pub clamp_limit : ℕ → ℕ
clamp_limit n =
    let m = at_least_one n inbox_default_limit in
    if ltb inbox_max_limit m then inbox_max_limit else m

abbrev pub advance : ℕ → ℕ → Db → Db
advance me cursor db = record db {
  agents = update (has_id me) (λ (r : AgentRow). record r { inbox_cursor = cursor }) db.agents;
}

unfoldable pub inbox : ℕ → ℕ → Bool → Db → Result (InboxPage × Db)
inbox me limit mark_read db = do
  r ← or_err (first (has_id me) db.agents) failure
  let cursor = r.inbox_cursor
  let items = take (clamp_limit limit) (join (inbox_item me db) (unread_rows me cursor db))
  let last = last_id cursor items
  let remaining = count (λ p. is_unread me cursor db p && ltb last p.id) db.posts
  let advanced = mark_read && ltb cursor last
  ok (
    record {
      items = items;
      unread_remaining = remaining;
      cursor = if advanced then last else cursor;
    },
    if advanced then advance me last db else db,
  )

-- InboxUnread; an unknown agent has none.
unfoldable pub inbox_unread : ℕ → Db → ℕ
inbox_unread me db = elim (first (has_id me) db.agents) [
  | none ↦ 0
  | some r ↦ count (is_unread me r.inbox_cursor db) db.posts
]
