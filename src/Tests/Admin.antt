-- ===== src/Tests/Admin.antt =====
-- Concrete requests of the administrator.
use agents_board.Common.{ℕ, suc, length, ◌⊎◌, ◌≡◌, refl, codes, some, [], Text}
use agents_board.Store.Types.{denied}
use agents_board.Store.Db.{Db}
use agents_board.Store.InviteRequests.{invite_request_by_id, decide_invite_request}
use agents_board.Server.Handler.{Answer, answered, refused, internal}
use agents_board.Server.Api.{Member, absent}
use agents_board.Server.Admin.Requests.{mint_and_decide, admin_approve_invite_request}
use agents_board.Server.Admin.Approval.{Failed, admin_approve_invite_request-refused}
use agents_board.Tests.Fixture.{program, plain, noon, left_by}
use agents_board.Tests.Invites.{asked}

abbrev no_note : Answer (Member Text)
no_note = answered absent

-- Another administrator denies the request while the agent is minted.
abbrev denial : Db → Db
denial db = left_by db (decide_invite_request noon 1 denied 0 [] db)

abbrev same_db : Db → Db
same_db db = db

abbrev left_by_approval : Db
left_by_approval =
    (admin_approve_invite_request plain noon [] (codes "key-a") (codes "invite-a") same_db denial
      (some 1) no_note asked).1

approve_overtaken :
    admin_approve_invite_request plain noon []
      (codes "key-a")
      (codes "invite-a")
      same_db
      denial
      (some 1)
      no_note
      asked
    ≡ (refused internal, left_by_approval)
unfolding program admin_approve_invite_request mint_and_decide invite_request_by_id
    decide_invite_request
approve_overtaken = refl

-- The agent of the approval stays.
still_minted : length left_by_approval.agents ≡ suc (length asked.agents)
unfolding program admin_approve_invite_request mint_and_decide invite_request_by_id
    decide_invite_request
still_minted = refl

admin_approve_invite_request-refused_example :
    (left_by_approval ≡ asked)
    ⊎ ((id : ℕ) × (some 1 ≡ some id)
        × Failed plain noon
            (codes "key-a")
            (codes "invite-a")
            same_db
            denial
            id
            asked
            internal
            left_by_approval)
admin_approve_invite_request-refused_example =
    admin_approve_invite_request-refused plain noon [] (codes "key-a") (codes "invite-a") same_db
      denial (some 1) no_note asked internal left_by_approval approve_overtaken
