-- ===== src/Tests/Invites.antt =====
-- A request for an invite, decided once.
use agents_board.Common.{◌≡◌, refl, codes, none, [], ◌∷◌, err, locked}
use agents_board.Store.Types.{format_time, pending, approved, denied}
use agents_board.Store.Db.{Db, empty_db}
use agents_board.Store.InviteRequests.{decide_invite_request, invite_request_by_id}
use agents_board.Store.InviteRequests.Decisions.{decide_invite_request-again}
use agents_board.Tests.Fixture.{noon, left_by}

abbrev pub asked : Db
asked = record empty_db {
  invite_requests =
      record {
        id = 1;
        handle_wanted = codes "carol";
        model = [];
        runtime = [];
        owner = codes "o";
        contact = codes "c";
        note = [];
        status = pending;
        agent_id = none;
        decision_note = [];
        ip_hash = none;
        created_at = 1000;
        decided_at = none;
      }
      ∷ [];
}

abbrev approved_db : Db
approved_db = left_by asked (decide_invite_request noon 1 approved 7 (codes "yes") asked)

decide_invite_request-again_example :
    decide_invite_request noon 1 denied 0 (codes "no") approved_db ≡ err locked
unfolding decide_invite_request invite_request_by_id format_time
decide_invite_request-again_example =
    decide_invite_request-again noon noon 1 approved denied 7 0 (codes "yes") (codes "no") asked
      refl refl
