-- ===== src/Server/Pages/Listing.antt =====
-- The index page and the list_threads tool show the same threads (internal/server/pages.go, api.go).
use agents_board.Common.{
  ℕ, ◌≡◌, refl, ap, arith, Bool, true, false, not, ◌&&◌, Option, some, inl, inr, [], ◌∷◌, Text,
  codes, is_empty, eq_text, Option-cases, Result-cases, if◌then◌else◌, ok,
}
use agents_board.Store.Types.{ThreadRow, sort_unanswered, valid_board, valid_sort}
use agents_board.Store.Views.{ThreadPage, ThreadListParams}
use agents_board.Store.Db.{Db}
use agents_board.Store.Threads.{list_threads, thread_order, threads_per_page}
use agents_board.Server.Content.{Textlib}
use agents_board.Server.Handler.{answered}
use agents_board.Server.Api.Reads.{api_list_threads, list_threads_json}
use agents_board.Server.Pages.{handle_index, render, index_view, index_of, or_first}

thread_order-valid :
    (s : Text)
    → valid_sort s ≡ true
    → (o : ThreadRow → ThreadRow → Bool) × (thread_order s ≡ some o)
unfolding valid_sort thread_order
thread_order-valid s h = elim (Option-cases (thread_order s)) [
  | inl e ↦ absurd (ground arith)
  | inr x ↦ x
]

abbrev asked : Text → Text → ℕ → ThreadListParams
asked sort board page = record {
  board = board;
  sort = sort;
  page = page;
  per_page = threads_per_page;
}

valid_sort-empty : (s : Text) → valid_sort s ≡ true → is_empty s ≡ false
unfolding valid_sort is_empty eq_text
valid_sort-empty [] h = absurd (ground arith)
valid_sort-empty (c ∷ s) h = refl

-- A board parameter that the tool does not refuse.
abbrev IsBoard : Text → Type 0
IsBoard b = (not (is_empty b) && not (valid_board b)) ≡ false

list_threads-valid :
    (sort board : Text) (page : ℕ) (db : Db)
    → valid_sort sort ≡ true
    → IsBoard board
    → (res : ThreadPage) × (list_threads (asked sort board page) db ≡ ok res)
unfolding list_threads
list_threads-valid sort board page db h k =
    let (o, e) = thread_order-valid sort h in
    let full = valid_sort-empty sort h in
    elim (Result-cases (list_threads (asked sort board page) db)) [
      | inl (x, f) ↦ absurd (ground arith)
      | inr x ↦ x
    ]

-- The sort order and the board that the index page falls back to.
abbrev pub shown_sort : Text → Text
shown_sort s = if not (valid_sort s) then sort_unanswered else s

abbrev pub shown_board : Text → Text
shown_board b = if not (valid_board b) then codes "" else b

fallback_sort :
    (c : Bool) (s : Text)
    → valid_sort s ≡ c
    → valid_sort (if not c then sort_unanswered else s) ≡ true
unfolding valid_sort eq_text
fallback_sort true s e = e
fallback_sort false s e = refl

shown_sort-valid : (s : Text) → valid_sort (shown_sort s) ≡ true
shown_sort-valid s = fallback_sort (valid_sort s) s refl

fallback-IsBoard :
    (c : Bool) (b : Text) → valid_board b ≡ c → IsBoard (if not c then codes "" else b)
unfolding is_empty
fallback-IsBoard true b e = ground arith
fallback-IsBoard false b e = refl

shown_board-IsBoard : (b : Text) → IsBoard (shown_board b)
shown_board-IsBoard b = fallback-IsBoard (valid_board b) b refl

listed :
    (lib : Textlib) (base sort board : Text) (page : Option ℕ) (db : Db) (res : ThreadPage)
    → valid_sort sort ≡ true
    → IsBoard board
    → list_threads (asked sort board (or_first page)) db ≡ ok res
    → api_list_threads lib base board sort (some (or_first page)) db
      ≡ (answered (list_threads_json lib base board sort res), db)
unfolding api_list_threads
listed lib base sort board page db res h k e = rw (k, valid_sort-empty sort h, h, e) refl

-- The index page is shown whatever its parameters are, never refused: with the fallbacks for a sort
-- order, a board and a page that are not valid, it shows the listing that the list_threads tool
-- answers for these.
pub handle_index-api_list_threads :
    (lib : Textlib) (base sort board : Text) (page : Option ℕ) (db : Db)
    → (res : ThreadPage) × (handle_index sort board page db
        ≡ render 200 (index_view (shown_sort sort) (shown_board board) res))
      × (api_list_threads lib base (shown_board board) (shown_sort sort) (some (or_first page)) db
          ≡ (answered (list_threads_json lib base (shown_board board) (shown_sort sort) res), db))
unfolding handle_index
handle_index-api_list_threads lib base sort board page db =
    let h = shown_sort-valid sort in
    let k = shown_board-IsBoard board in
    let (res, e) =
      list_threads-valid (shown_sort sort) (shown_board board) (or_first page) db h k in
    (
      res,
      ap (index_of (shown_sort sort) (shown_board board)) e,
      listed lib base (shown_sort sort) (shown_board board) page db res h k e,
    )
