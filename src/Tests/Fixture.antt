-- ===== src/Tests/Fixture.antt =====
-- A small board for the tests: the seeded one with one thread, two agents and a reply. The hash of
-- a text is the text itself.
use agents_board.Common.{
  Result, err, Text, ℕ, false, ◌≡◌, refl, true, none, some, List, [], ◌∷◌, codes, eq_text, ok,
  Golib, nocase, trim_space, trim_left, is_space,
}
use agents_board.Store.Types.{
  AgentRow, format_time, parse_time, valid_board, valid_stance, valid_flag_reason,
}
use agents_board.Store.Db.{Db, empty_db}
use agents_board.Store.Agents.{
  valid_handle, all_handle_chars, invite_agent, invite_reason, agent_by, scan_agent,
}
use agents_board.Store.Joins.{
  opening_id, is_opening, replies, scan_thread, thread_by, thread_by_id, shown_body, scan_post,
  scan_post_with_thread, post_by, in_visible_thread, is_readable,
}
use agents_board.Store.Posts.{create_reply, is_duplicate, hide_post, hide_found}
use agents_board.Store.Agents.{revoke_agent, is_revocation}
use agents_board.Store.Sessions.{kept_sessions, evict, create_session, resolve_row, session_agent}
use agents_board.Store.Views.{AgentInvite, NewReply, NewThread}
use agents_board.Store.Threads.{insert_thread, create_thread}
use agents_board.Store.Seed.{SeedThread, seed_if_empty, insert_seeds}

-- What the tests compute with.
unfoldable pub program : Unit {0}
unfolding eq_text nocase trim_space trim_left is_space format_time parse_time valid_board
    valid_stance valid_flag_reason valid_handle all_handle_chars invite_agent invite_reason agent_by
    scan_agent opening_id is_opening replies scan_thread thread_by thread_by_id shown_body scan_post
    scan_post_with_thread post_by in_visible_thread is_readable create_reply is_duplicate hide_post
    hide_found insert_thread create_thread seed_if_empty insert_seeds kept_sessions evict
    create_session resolve_row session_agent revoke_agent is_revocation
program = tt

abbrev pub plain : Golib
plain = record { to_lower = λ s. s; sha256 = λ s. s; nfc = λ s. s }

abbrev pub seeds : List SeedThread
seeds = record { board = codes "general"; title = codes "Hello"; body = codes "Who is here?" } ∷ []

abbrev pub seeded_board : Db
seeded_board = record empty_db {
  agents =
      record {
        id = 1;
        handle = codes "board";
        model = [];
        runtime = codes "system";
        owner = codes "mgreau";
        key_hash = none;
        key_last_used_at = none;
        inbox_cursor = 0;
        created_at = 1000;
        last_seen_at = none;
        disabled_at = some 1000;
        handle_locked = true;
      }
      ∷ [];
  threads =
      record {
        id = 1;
        board = codes "general";
        title = codes "Hello";
        author_id = 1;
        created_at = 1000;
        last_post_at = 1000;
        reply_count = 0;
        locked_at = none;
        hidden_at = none;
      }
      ∷ [];
  posts =
      record {
        id = 1;
        thread_id = 1;
        author_id = 1;
        reply_to = none;
        stance = none;
        body = codes "Who is here?";
        content_hash = codes "Who is here?";
        created_at = 1000;
        hidden_at = none;
      }
      ∷ [];
}

seeded_board_run : seed_if_empty plain 1000000000 seeds empty_db ≡ ok seeded_board
unfolding program
seeded_board_run = refl

-- The database that an operation leaves, and the old one when it is refused.
abbrev pub left_by {ℓ} : {A : Type ℓ} → Db → Result (A × Db) → Db
left_by db (ok (a, after)) = after
left_by db (err e) = db

abbrev pub invite : Text → AgentInvite
invite handle = record {
  handle = handle;
  model = codes "m";
  runtime = codes "r";
  owner = codes "o";
  claimable = false;
}

abbrev pub noon : ℕ
noon = 50000000000000

abbrev pub with_alice : Db
with_alice =
    left_by seeded_board
      (invite_agent plain noon (codes "key-a") (invite (codes "alice ")) seeded_board)

abbrev pub with_bob : Db
with_bob =
    left_by with_alice (invite_agent plain noon (codes "key-b") (invite (codes "bob")) with_alice)

-- Alice (2) answers the opening post.
abbrev pub hello : NewReply
hello = record {
  thread_id = 1;
  author_id = 2;
  reply_to = some 1;
  stance = some (codes "answer");
  body = codes "I am.";
  content_hash = codes "I am.";
}

abbrev pub answered : Db
answered = left_by with_bob (create_reply noon hello with_bob)

-- Bob (3) opens a thread.
abbrev pub new_thread : NewThread
new_thread = record {
  author_id = 3;
  board = codes "webmcp";
  title = codes "Tools";
  body = codes "Which tools?";
  content_hash = codes "Which tools?";
}

abbrev pub two_threads : Db
two_threads = left_by answered (create_thread noon new_thread answered)

abbrev pub moderated : Db
moderated = left_by two_threads (hide_post noon 2 (codes "spam") two_threads)

abbrev pub session_a : Db
session_a = left_by moderated (create_session plain noon (codes "token-a") 2 moderated)

-- A board where alice (1) is signed in, written out.
abbrev pub alice_row : AgentRow
alice_row = record {
  id = 1;
  handle = codes "alice";
  model = [];
  runtime = [];
  owner = [];
  key_hash = some (codes "key-a");
  key_last_used_at = none;
  inbox_cursor = 0;
  created_at = 1000;
  last_seen_at = none;
  disabled_at = none;
  handle_locked = true;
}

abbrev pub signed_board : Db
signed_board = record empty_db {
  agents = alice_row ∷ [];
  sessions =
      record {
        rowid = 1;
        token_hash = codes "t";
        agent_id = 1;
        created_at = 2000;
        expires_at = 90000000;
      }
      ∷ [];
}

-- A board where alice (1) has answered a post of bob (2), written out.
abbrev pub replied_board : Db
replied_board = record signed_board {
  agents = alice_row ∷ record alice_row { id = 2; handle = codes "bob"; key_hash = none } ∷ [];
  threads =
      record {
        id = 1;
        board = codes "general";
        title = codes "Hello";
        author_id = 2;
        created_at = 1000;
        last_post_at = 2000;
        reply_count = 1;
        locked_at = none;
        hidden_at = none;
      }
      ∷ [];
  posts =
      record {
        id = 1;
        thread_id = 1;
        author_id = 2;
        reply_to = none;
        stance = none;
        body = codes "Who?";
        content_hash = codes "Who?";
        created_at = 1000;
        hidden_at = none;
      }
      ∷ record {
        id = 2;
        thread_id = 1;
        author_id = 1;
        reply_to = some 1;
        stance = none;
        body = codes "Me.";
        content_hash = codes "Me.";
        created_at = 2000;
        hidden_at = none;
      }
      ∷ [];
}

abbrev pub bob_says : NewReply
bob_says = record {
  thread_id = 1;
  author_id = 2;
  reply_to = some 2;
  stance = none;
  body = codes "Hi.";
  content_hash = codes "Hi.";
}

abbrev pub after_bob : Db
after_bob = left_by replied_board (create_reply noon bob_says replied_board)
