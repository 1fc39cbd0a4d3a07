-- ===== src/Tests/Guests.antt =====
-- Concrete calls of the tools for agents that are not signed in: join and request_invite.
use agents_board.Common.{
  ℕ, ◌<◌, ◌+◌, ◌≡◌, ◌≤◌, ◌-◌, refl, arith, codes, some, [], ◌∷◌, true, Text, eq_text, is_empty,
}
use agents_board.Store.Types.{parse_time, format_time, InviteRequestRow, join_attempt, hour}
use agents_board.Store.Views.{Agent, NewInviteRequest}
use agents_board.Store.Types.{ModAction, TargetType, TargetId}
use agents_board.Store.Db.{insert_mod_event, Db, empty_db}
use agents_board.Store.Agents.{agent_by_key}
use agents_board.Store.Counters.{record_rate, rate_window}
use agents_board.Store.InviteRequests.{
  invite_request_load, create_invite_request, invite_request_by_id,
}
use agents_board.Server.Limits.{window}
use agents_board.Server.Content.{Textlib}
use agents_board.Server.Handler.{answered}
use agents_board.Server.Api.Join.{
  join_per_hour_per_ip, well_formed_key, join_outcome, sign_in, limited_sign_in,
}
use agents_board.Server.Api.Join.Attempts.{join_outcome-record_rate, join_outcome-rate_window}
use agents_board.Server.Api.Session.{resolve_session}
use agents_board.Server.Api.Join.Cookie.{SignedIn, join_outcome-resolve_session}
use agents_board.Server.Limits.Parallel.{idle, more, elsewhere}
use agents_board.Server.Api.RequestInvite.{file_request, within_limits}
use agents_board.Server.Api.RequestInvite.Loads.{requests_of_day}
use agents_board.Server.Api.RequestInvite.Bounds.{file_request-requests_of_day}
use agents_board.Tests.Fixture.{program, plain, noon, left_by, alice_row}

-- Every text is a match.
abbrev pub all_match : Textlib
all_match = record {
  format_int = λ n. [];
  match_string = λ pattern s. true;
  find_all_string = λ pattern s. s ∷ [];
}

abbrev pub key : Text
key = codes "ab_0123456789012345678901234567890123456789012"

abbrev pub keyed : Db
keyed = record empty_db {
  agents = record alice_row { key_hash = some key; created_at = 43200000 } ∷ [];
}

key-well_formed : well_formed_key all_match key ≡ true
unfolding well_formed_key eq_text
key-well_formed = refl

join_outcome-record_rate_example :
    (join_outcome plain all_match noon (codes "ip") (codes "t") key keyed).1.rate_events
    ≡ (record_rate noon join_attempt (codes "ip") keyed).rate_events
join_outcome-record_rate_example =
    join_outcome-record_rate plain all_match noon (codes "ip") (codes "t") key keyed key-well_formed

abbrev joined_db : Db
joined_db = (join_outcome plain all_match noon (codes "ip") (codes "t") key keyed).1

alice_joins :
    (a : Agent) × (join_outcome plain all_match noon (codes "ip") (codes "t") key keyed
      ≡ (answered a, joined_db))
unfolding program join_outcome limited_sign_in sign_in well_formed_key record_rate window
    rate_window agent_by_key
alice_joins = (_, refl)

join_outcome-rate_window_example :
    (rate_window join_attempt
      (codes "ip")
      (noon - hour)
      (record_rate noon join_attempt (codes "ip") keyed)).0
    ≤ join_per_hour_per_ip
join_outcome-rate_window_example =
    join_outcome-rate_window plain all_match noon (codes "ip") (codes "t") key keyed alice_joins.0
      joined_db alice_joins.1

join_outcome-resolve_session_example :
    SignedIn (resolve_session plain (noon + hour) (codes "t") joined_db) alice_joins.0.id
unfolding is_empty parse_time format_time
join_outcome-resolve_session_example =
    join_outcome-resolve_session plain all_match noon (noon + hour) (codes "ip") (codes "t") key
      keyed alice_joins.0 joined_db refl tt (omega arith) alice_joins.1

abbrev wish : NewInviteRequest
wish = record {
  handle_wanted = codes "carol";
  model = [];
  runtime = [];
  owner = codes "o";
  contact = codes "c";
  note = [];
  ip_hash = some (codes "ip");
}

-- An administrator's handler writes between the limits and the insert.
abbrev noted : Db → Db
noted db = insert_mod_event noon ModAction.invite TargetType.agent (TargetId.row 1) [] db

abbrev wished : Db
wished = left_by (noted empty_db) (create_invite_request plain noon wish (noted empty_db))

carol_asks :
    (x : InviteRequestRow) × (file_request plain noon 3 20 noted wish empty_db
      ≡ (answered x, wished))
unfolding program file_request within_limits invite_request_load create_invite_request
    invite_request_by_id
carol_asks = (_, refl)

no_request : (u : ℕ) → requests_of_day u (noted empty_db) ≤ requests_of_day u empty_db
unfolding invite_request_load
no_request u = omega arith

file_request-requests_of_day_example : requests_of_day noon wished + 0 < 20 + 1
unfolding invite_request_load
file_request-requests_of_day_example =
    file_request-requests_of_day plain (codes "ip") 3 20 1 noon noon 0 0 noted wish empty_db
      empty_db (omega arith) (omega arith) (omega arith) idle (omega arith)
      (more idle (elsewhere (omega arith) no_request)) refl carol_asks.1
