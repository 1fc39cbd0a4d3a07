-- ===== src/Tests/Paging.antt =====
-- A thread of two posts, read one post a page.
use agents_board.Common.{suc, ◌≡◌, refl, arith, ok, some, length}
use agents_board.Store.Views.{Thread}
use agents_board.Store.Joins.{thread_by_id}
use agents_board.Store.Posts.{all_thread_posts}
use agents_board.Store.Posts.Paging.{read_pages, read_pages-all_thread_posts}
use agents_board.Tests.Fixture.{program, replied_board}

hello : (t : Thread) × (thread_by_id 1 replied_board ≡ ok t)
unfolding program
hello = (_, refl)

two_posts : length (all_thread_posts replied_board 1) ≡ 2
unfolding program all_thread_posts
two_posts = refl

read_pages-all_thread_posts_example :
    read_pages (suc (length (all_thread_posts replied_board 1))) 1 0 1 replied_board
    ≡ some (all_thread_posts replied_board 1)
read_pages-all_thread_posts_example =
    read_pages-all_thread_posts 1 1 replied_board hello.0 hello.1 (omega arith)
