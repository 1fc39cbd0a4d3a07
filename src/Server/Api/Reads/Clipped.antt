-- ===== src/Server/Api/Reads/Clipped.antt =====
-- What the reading tools show of a post: internal/server/api.go with postJSON of
-- internal/server/json.go.
use mathlib.Core.Path.{subst}
use agents_board.Common.{
  join, ℕ, ◌+◌, ◌*◌, ◌-◌, ◌≤◌, ◌≡◌, refl, arith, Bool, true, false, not, ◌&&◌, Option, inl, inr,
  List, [], ◌∷◌, map, All, length, take, drop, length-take-le, Text, eq_text, ltb, leb,
  if◌then◌else◌, Bool-cases, Result, ok, err, >>=-eq-ok,
}
use agents_board.Store.Views.{Agent, Thread, Post, PostPage, InboxItem, InboxPage, hidden_post}
use agents_board.Store.Db.{Db}
use agents_board.Store.Joins.{hidden_body, thread_by_id}
use agents_board.Store.Posts.{thread_posts, posts_per_page, at_least_one, all_thread_posts}
use agents_board.Store.Inbox.{inbox, clamp_limit, inbox_max_limit, inbox_item, unread_rows}
use agents_board.Store.Inbox.Cursor.{inbox-parts}
use agents_board.Server.Content.{Textlib, clip_body, clip_body_chars}
use agents_board.Server.Handler.{
  answer, store_write, Answer, answered, answered_after, store_read, read_answer, store_answer,
  refuse_with, internal,
}
use agents_board.Server.Api.{path_id, thread_error, require_session, decoded}
use agents_board.Server.Json.{PostJson, json_body, post_json, posts_json}
use agents_board.Server.Api.Reads.{
  ReadThreadJson, api_read_thread, read_thread_json, query_int, InboxRequest, InboxJson,
  inbox_item_json, inbox_json, limit_of, mark_read_of, api_inbox,
}

-- A shown post: a short body, and the placeholder for a hidden one.
abbrev pub IsClipped : PostJson → Type 0
IsClipped p =
    (length p.body ≤ clip_body_chars) × ((p.is_hidden && not (eq_text p.body hidden_body)) ≡ false)

clip_body-le : (body : Text) → length (clip_body body).0 ≤ clip_body_chars
unfolding clip_body
clip_body-le body = elim (Bool-cases (leb (length body) clip_body_chars)) [
  | inl e ↦ rw e (ground arith)
  | inr e ↦ rw e (length-take-le clip_body_chars body)
]

json_body-IsClipped :
    (is_hidden : Bool) (body : Text)
    → (length (json_body is_hidden true body).0 ≤ clip_body_chars)
      × ((is_hidden && not (eq_text (json_body is_hidden true body).0 hidden_body)) ≡ false)
unfolding json_body eq_text
json_body-IsClipped true body = (omega arith, refl)
json_body-IsClipped false body = (clip_body-le body, refl)

posts_json-IsClipped :
    (lib : Textlib) (base : Text) (ps : List Post) → All IsClipped (posts_json lib base true ps)
posts_json-IsClipped lib base [] = tt
posts_json-IsClipped lib base (p ∷ ps) =
    (json_body-IsClipped (hidden_post p) p.body, posts_json-IsClipped lib base ps)

items-IsClipped :
    (lib : Textlib) (base : Text) (is : List InboxItem)
    → All (λ i. IsClipped i.post) (map (inbox_item_json lib base) is)
items-IsClipped lib base [] = tt
items-IsClipped lib base (i ∷ is) =
    (json_body-IsClipped (hidden_post i.post) i.post.body, items-IsClipped lib base is)

length-map : {A : Type 0} {B : Type 0} (f : A → B) (xs : List A) → length (map f xs) ≡ length xs
length-map f [] = refl
length-map f (x ∷ xs) = ground (arith, length-map f xs)

page-le :
    {A : Type 0} (n : ℕ) (rows : List A)
    → length (if ltb n (length rows) then take n rows else rows) ≤ n
page-le n rows = elim (Bool-cases (ltb n (length rows))) [
  | inl e ↦ rw e (length-take-le n rows)
  | inr e ↦ rw e (ground arith)
]

abbrev page_rows : List Post → List Post
page_rows rest =
    let rows = take (posts_per_page + 1) rest in
    if ltb posts_per_page (length rows) then take posts_per_page rows else rows

thread_posts-le :
    (id page : ℕ) (db : Db) {r : PostPage}
    → thread_posts id page posts_per_page db ≡ ok r
    → length r.posts ≤ posts_per_page
unfolding thread_posts
thread_posts-le id page db {r} h =
    let (t, e, f) = >>=-eq-ok (thread_by_id id db) _ h in
    let same : page_rows
          (drop ((at_least_one page 1 - 1) * posts_per_page) (all_thread_posts db id))
        ≡ r.posts =
      ground arith in
    subst (λ x. length x ≤ posts_per_page) same
      (page-le posts_per_page (
        take (posts_per_page + 1)
          (drop ((at_least_one page 1 - 1) * posts_per_page) (all_thread_posts db id))))

-- The step of a handler that reads the store.
read-ok :
    {A : Type 0} (r : Result A) (db : Db) {a : A} {db' : Db}
    → read_answer (λ e. refuse_with internal) r db ≡ (answered a, db')
    → (r ≡ ok a) × (db' ≡ db)
read-ok (err e) db h = absurd (ground arith)
read-ok (ok a) db h = (ground arith, ground arith)

shown_thread :
    (lib : Textlib) (base : Text) (t : Thread) (ps : PostPage) (db : Db) (j : ReadThreadJson)
    (db' : Db)
    → length ps.posts ≤ posts_per_page
    → answer (read_thread_json lib base t ps) db ≡ (answered j, db')
    → (length j.posts ≤ posts_per_page) × All IsClipped j.posts
shown_thread lib base t ps db j db' few h =
    let same : read_thread_json lib base t ps ≡ j = ground arith in
    subst (λ x. (length x.posts ≤ posts_per_page) × All IsClipped x.posts) same
      (
        rw (length-map (post_json lib base true) ps.posts) few,
        posts_json-IsClipped lib base ps.posts,
      )

-- An answer of read_thread has at most PostsPerPage posts, each with a body of at most ClipBodyChars
-- characters, and of a hidden post it shows the placeholder alone.
pub api_read_thread-IsClipped :
    (lib : Textlib) (base : Text) (path page : Option ℕ) (db : Db) (j : ReadThreadJson) (db' : Db)
    → api_read_thread lib base path page db ≡ (answered j, db')
    → (length j.posts ≤ posts_per_page) × All IsClipped j.posts
unfolding api_read_thread
api_read_thread-IsClipped lib base path page db j db' h =
    answered_after (path_id path) _ db
      (λ id db1 e1 h1.
        answered_after (query_int page) _ db1
          (λ n db2 e2 h2.
            answered_after (store_read (thread_by_id id) thread_error) _ db2
              (λ t db3 e3 h3.
                answered_after
                  (store_read (thread_posts id n posts_per_page) (λ e. refuse_with internal)) _ db3
                  (λ ps db4 e4 h4.
                    shown_thread lib base t ps db4 j db'
                      (thread_posts-le id n db3
                        (read-ok (thread_posts id n posts_per_page db3) db3 e4).0)
                      h4)
                  h3)
              h2)
          h1)
      h

clamp_limit-le : (n : ℕ) → clamp_limit n ≤ inbox_max_limit
clamp_limit-le n = ground arith

inbox-le :
    (me limit : ℕ) (mark_read : Bool) (db : Db) {r : InboxPage} {db' : Db}
    → inbox me limit mark_read db ≡ ok (r, db')
    → length r.items ≤ inbox_max_limit
inbox-le me limit mark_read db h =
    let p = inbox-parts me limit mark_read db h in
    rw p.2 (
      ground (
        arith,
        clamp_limit-le limit,
        length-take-le (clamp_limit limit)
            (join (inbox_item me db) (unread_rows me p.0.inbox_cursor db)),
      ))

store-ok :
    {A : Type 0} (r : Result (A × Db)) (db : Db) {a : A} {db' : Db}
    → store_answer (λ e. refuse_with internal) r db ≡ (answered a, db')
    → r ≡ ok (a, db')
store-ok (err e) db h = absurd (ground arith)
store-ok (ok (a, after)) db h = ground arith

shown_inbox :
    (lib : Textlib) (base : Text) (page : InboxPage) (db : Db) (j : InboxJson) (db' : Db)
    → length page.items ≤ inbox_max_limit
    → answer (inbox_json lib base page) db ≡ (answered j, db')
    → (length j.items ≤ inbox_max_limit) × All (λ i. IsClipped i.post) j.items
shown_inbox lib base page db j db' few h =
    let same : inbox_json lib base page ≡ j = ground arith in
    subst (λ x. (length x.items ≤ inbox_max_limit) × All (λ i. IsClipped i.post) x.items) same
      (
        rw (length-map (inbox_item_json lib base) page.items) few,
        items-IsClipped lib base page.items,
      )

-- An answer of get_inbox has at most InboxMaxLimit posts, whatever limit the request asks, each with
-- a body of at most ClipBodyChars characters, and of a hidden post it shows the placeholder alone.
pub api_inbox-IsClipped :
    (lib : Textlib) (base : Text) (sess : Option Agent) (is_revoked : Bool)
    (request : Answer InboxRequest) (db : Db) (j : InboxJson) (db' : Db)
    → api_inbox lib base sess is_revoked request db ≡ (answered j, db')
    → (length j.items ≤ inbox_max_limit) × All (λ i. IsClipped i.post) j.items
unfolding api_inbox
api_inbox-IsClipped lib base sess is_revoked request db j db' h =
    answered_after (require_session sess is_revoked) _ db
      (λ me db1 e1 h1.
        answered_after (decoded request) _ db1
          (λ f db2 e2 h2.
            answered_after (limit_of f.limit) _ db2
              (λ limit db3 e3 h3.
                answered_after (mark_read_of f.mark_read) _ db3
                  (λ mark db4 e4 h4.
                    answered_after
                      (store_write (inbox me.id limit mark) (λ e. refuse_with internal)) _ db4
                      (λ page db5 e5 h5.
                        shown_inbox lib base page db5 j db'
                          (inbox-le me.id limit mark db4
                            (store-ok (inbox me.id limit mark db4) db4 e5))
                          h5)
                      h4)
                  h3)
              h2)
          h1)
      h
