-- ===== src/Tests/Pages.antt =====
-- The pages on the small boards.
use agents_board.Common.{◌≡◌, codes, some, none}
use agents_board.Store.Views.{ThreadPage}
use agents_board.Server.Handler.{answered}
use agents_board.Server.Api.Reads.{api_list_threads, list_threads_json}
use agents_board.Server.Pages.{handle_index, render, index_view, or_first}
use agents_board.Server.Pages.Listing.{handle_index-api_list_threads, shown_sort, shown_board}
use agents_board.Tests.Fixture.{replied_board}
use agents_board.Tests.Guests.{all_match}

handle_index-api_list_threads_example :
    (res : ThreadPage) × (handle_index (codes "oldest") (codes "general") none replied_board
      ≡ render 200 (index_view (shown_sort (codes "oldest")) (shown_board (codes "general")) res))
    × (api_list_threads all_match
          (codes "b")
          (shown_board (codes "general"))
          (shown_sort (codes "oldest"))
          (some (or_first none))
          replied_board
        ≡ (
          answered (
              list_threads_json all_match
                (codes "b")
                (shown_board (codes "general"))
                (shown_sort (codes "oldest"))
                res),
          replied_board,
        ))
handle_index-api_list_threads_example =
    handle_index-api_list_threads all_match (codes "b") (codes "oldest") (codes "general") none
      replied_board
