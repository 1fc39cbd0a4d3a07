-- ===== src/Store/Posts/Paging.antt =====
-- A reader that follows the pages of ThreadPosts (internal/store/posts.go) reads the whole thread.
use mathlib.Core.Option
use agents_board.Common.{
  ℕ, zero, suc, ◌+◌, ◌-◌, ◌*◌, ◌≡◌, ◌<◌, ◌≤◌, refl, sym, ap, ◌∙◌, arith, Option, none, some, inl,
  inr, List, count, ◌++◌, ltb, take, drop, length, Bool-cases, if◌then◌else◌, Result, ok, err,
  length-take, take-append-drop, take-take_suc, drop-drop, take_all, length-drop,
}
use agents_board.Store.Views.{Thread, Post, PostPage}
use agents_board.Store.Db.{Db}
use agents_board.Store.Joins.{thread_by_id}
use agents_board.Store.Posts.{
  all_thread_posts, thread_posts, at_least_one, in_thread, posts_per_page,
}

-- LIMIT n + 1 tells whether there is more than a page.
more_than_page {ℓ} :
    {A : Type ℓ} (n : ℕ) (xs : List A) → ltb n (length (take (n + 1) xs)) ≡ ltb n (length xs)
more_than_page n xs = ground (arith, length-take (n + 1) xs)

-- A reader from page q + 1 on: the posts up to the last page, nothing if it gives up before.
abbrev pub then_rest : Result PostPage → Option (List Post) → Option (List Post)
then_rest (err e) rest = none
then_rest (ok p) rest = if p.has_more then Option.map (λ ps. p.posts ++ ps) rest else some p.posts

unfoldable pub read_pages : ℕ → ℕ → ℕ → ℕ → Db → Option (List Post)
read_pages zero tid q per_page db = none
read_pages (suc n) tid q per_page db =
    let rest = read_pages n tid (q + 1) per_page db in
    then_rest (thread_posts tid (q + 1) per_page db) rest

first_page_rows {ℓ} :
    {A : Type ℓ} (n : ℕ) (xs : List A)
    → (if ltb n (length (take (n + 1) xs)) then take n (take (n + 1) xs) else take (n + 1) xs)
      ≡ take n xs
first_page_rows n xs = elim (Bool-cases (ltb n (length xs))) [
  | inl e ↦ rw (more_than_page n xs, e) (take-take_suc n xs)
  | inr e ↦
      let short : length xs ≤ n = ground arith in
      rw (more_than_page n xs, e)
        (take_all (n + 1) xs (omega (arith, short)) ∙ sym (take_all n xs short))
]

-- The page that the source builds from a thread's posts after the first k.
abbrev page_after : ℕ → ℕ → ℕ → ℕ → List Post → PostPage
page_after page k n total xs =
    let rows = take (n + 1) (drop k xs) in
    record {
      posts = if ltb n (length rows) then take n rows else rows;
      page = page;
      per_page = n;
      has_more = ltb n (length rows);
      total = total;
    }

thread_posts-page_after :
    (tid q per_page : ℕ) (db : Db) {t : Thread}
    → thread_by_id tid db ≡ ok t
    → 1 ≤ per_page
    → thread_posts tid (q + 1) per_page db
      ≡ ok (
          page_after
            (q + 1)
            (q * per_page)
            per_page
            (count (in_thread tid) db.posts)
            (all_thread_posts db tid))
unfolding thread_posts
thread_posts-page_after tid q per_page db found h =
    let first : at_least_one (q + 1) 1 ≡ q + 1 = ground arith in
    let size : at_least_one per_page posts_per_page ≡ per_page = ground arith in
    let before : q + 1 - 1 ≡ q = omega arith in rw (first, size, found, before) refl

read_pages-step :
    (n tid q per_page : ℕ) (db : Db) {t : Thread}
    → thread_by_id tid db ≡ ok t
    → 1 ≤ per_page
    → read_pages (suc n) tid q per_page db ≡ (
        if ltb per_page (length (drop (q * per_page) (all_thread_posts db tid)))
        then Option.map
            (λ ps. take per_page (drop (q * per_page) (all_thread_posts db tid)) ++ ps)
            (read_pages n tid (q + 1) per_page db)
        else some (take per_page (drop (q * per_page) (all_thread_posts db tid))))
unfolding read_pages
read_pages-step n tid q per_page db found h =
    rw
      (
        thread_posts-page_after tid q per_page db found h,
        first_page_rows per_page (drop (q * per_page) (all_thread_posts db tid)),
        more_than_page per_page (drop (q * per_page) (all_thread_posts db tid)),
      )
      refl

next_offset : (q n : ℕ) → (q + 1) * n ≡ q * n + n
next_offset q n = grind arith

read_pages-drop :
    (n tid q per_page : ℕ) (db : Db) {t : Thread}
    → thread_by_id tid db ≡ ok t
    → 1 ≤ per_page
    → length (drop (q * per_page) (all_thread_posts db tid)) < n
    → read_pages n tid q per_page db ≡ some (drop (q * per_page) (all_thread_posts db tid))
read_pages-drop zero tid q per_page db found h k = absurd (omega arith)
read_pages-drop (suc n) tid q per_page db found h k =
    let xs = drop (q * per_page) (all_thread_posts db tid) in
    elim (Bool-cases (ltb per_page (length xs))) [
      | inl f ↦
          let after : drop ((q + 1) * per_page) (all_thread_posts db tid) ≡ drop per_page xs =
            ap (λ m. drop m (all_thread_posts db tid)) (next_offset q per_page)
            ∙ sym (drop-drop (q * per_page) per_page (all_thread_posts db tid)) in
          let fewer : length (drop ((q + 1) * per_page) (all_thread_posts db tid)) < n =
            omega (arith, k, ap length after, length-drop per_page xs (ground arith), h) in
          read_pages-step n tid q per_page db found h
          ∙ rw (f, read_pages-drop n tid (q + 1) per_page db found h fewer, after)
              (ap some (take-append-drop per_page xs))
      | inr f ↦
          read_pages-step n tid q per_page db found h
          ∙ rw f (ap some (take_all per_page xs (ground arith)))
    ]

-- A reader that follows the pages of a visible thread, of any size of at least one post, from the
-- first one while there is more, reads all the posts of the thread once and in their order, and is
-- done after at most one page more than there are posts.
pub read_pages-all_thread_posts :
    (tid per_page : ℕ) (db : Db) (t : Thread)
    → thread_by_id tid db ≡ ok t
    → 1 ≤ per_page
    → read_pages (suc (length (all_thread_posts db tid))) tid 0 per_page db
      ≡ some (all_thread_posts db tid)
read_pages-all_thread_posts tid per_page db t found h =
    let none_skipped : 0 * per_page ≡ 0 = omega arith in
    let start : drop (0 * per_page) (all_thread_posts db tid) ≡ all_thread_posts db tid =
      ap (λ m. drop m (all_thread_posts db tid)) none_skipped in
    read_pages-drop (suc (length (all_thread_posts db tid))) tid 0 per_page db found h
      (omega (arith, ap length start))
    ∙ ap some start
