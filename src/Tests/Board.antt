-- ===== src/Tests/Board.antt =====
-- The board's theorems on the small board.
use agents_board.Common.{Err, err, ◌≡◌, refl, codes, List, ◌++◌}
use agents_board.Store.Types.{ModEvent}
use agents_board.Store.Board.Counting.{IsWellFormed}
use agents_board.Store.Steps.Relation.{
  Step, Reach, seeded, after, stop, step, invited, replied, opened, hid,
}
use agents_board.Store.Steps.Board.{Reach-IsWellFormed}
use agents_board.Store.Steps.ModLog.{Steps-Extends}
use agents_board.Common.{◌+◌, arith, true}
use agents_board.Store.Inbox.{
  inbox, inbox_unread, is_unread, is_for_me, answers_my_post, inbox_item, unread_rows, last_id,
}
use agents_board.Store.Inbox.Cursor.{inbox-inbox_unread}
use agents_board.Store.Posts.{create_reply}
use agents_board.Store.Posts.Duplicates.{create_reply-again}
use agents_board.Common.{Result, ok, first, some, map, select, leb, ◌&&◌, []}
use agents_board.Store.Types.{AgentRow}
use agents_board.Store.Views.{InboxPage}
use agents_board.Store.Db.{Db}
use agents_board.Store.Agents.{has_id}
use agents_board.Store.Board.Counting.{row_id}
use agents_board.Store.Inbox.Items.{item_id}
use agents_board.Tests.Fixture.{
  left_by, bob_says, after_bob, replied_board, program, plain, seeds, noon, invite, seeded_board,
  with_alice, with_bob, answered, two_threads, moderated, hello, new_thread,
}

alice_invited : Step plain seeded_board with_alice
unfolding program
alice_invited = invited noon (codes "key-a") (invite (codes "alice ")) _ refl

bob_invited : Step plain with_alice with_bob
unfolding program
bob_invited = invited noon (codes "key-b") (invite (codes "bob")) _ refl

alice_replied : Step plain with_bob answered
unfolding program
alice_replied = replied noon hello _ refl

bob_opened : Step plain answered two_threads
unfolding program
bob_opened = opened noon new_thread _ refl

hid_reply : Step plain two_threads moderated
unfolding program
hid_reply = hid noon 2 (codes "spam") _ refl

seeded-Reach : Reach plain seeded_board
unfolding program
seeded-Reach = seeded 1000000000 seeds refl

answered-Reach : Reach plain answered
answered-Reach = after (after (after seeded-Reach alice_invited) bob_invited) alice_replied

moderated-Reach : Reach plain moderated
moderated-Reach = after (after answered-Reach bob_opened) hid_reply

Reach-IsWellFormed_example : IsWellFormed moderated
Reach-IsWellFormed_example = Reach-IsWellFormed plain moderated-Reach

Steps-Extends_example : (es : List ModEvent) × (moderated.mod_events ≡ with_alice.mod_events ++ es)
Steps-Extends_example =
    Steps-Extends plain with_alice
      (step (step (step (step stop bob_invited) alice_replied) bob_opened) hid_reply)

create_reply-again_example : (e : Err) × (create_reply (noon + 1) bob_says after_bob ≡ err e)
unfolding program
create_reply-again_example =
    create_reply-again noon (noon + 1) bob_says bob_says replied_board refl (ground arith) refl refl

abbrev page_or_none : Result (InboxPage × Db) → InboxPage
page_or_none (err e) = record { items = []; unread_remaining = 0; cursor = 0 }
page_or_none (ok (page, left)) = page

abbrev first_page : InboxPage
first_page = page_or_none (inbox 1 10 true after_bob)

inbox-inbox_unread_example :
    (r : AgentRow) × (first (has_id 1) after_bob.agents ≡ some r)
    × (map item_id first_page.items
        ≡ map row_id (
            select
              (λ p. is_unread 1 r.inbox_cursor after_bob p && leb p.id first_page.cursor)
              after_bob.posts))
    × (inbox_unread 1 (left_by after_bob (inbox 1 10 true after_bob)) ≡ first_page.unread_remaining)
unfolding program inbox is_unread is_for_me answers_my_post inbox_item unread_rows last_id
inbox-inbox_unread_example =
    inbox-inbox_unread 1 10 after_bob
      ((omega arith, (omega arith, tt)), ((omega arith, tt), (tt, tt))) refl
