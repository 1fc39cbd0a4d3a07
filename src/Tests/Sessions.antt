-- ===== src/Tests/Sessions.antt =====
-- The sessions' theorems on the small board.
use agents_board.Common.{
  ◌+◌, ℕ, ◌≡◌, ◌≢◌, ◌≤◌, refl, codes, ok, arith, count, first, some, trim_space,
}
use agents_board.Store.Types.{AgentRow, ModAction}
use agents_board.Store.Db.{Db}
use agents_board.Store.Agents.{has_handle, revoke_agent}
use agents_board.Store.Sessions.{create_session, of_agent, evict, max_sessions_per_agent}
use agents_board.Store.Sessions.Eviction.{count-evict-le}
use agents_board.Store.Sessions.SignIn.{
  Resolves, create_session-session_agent, revoke_agent-create_session,
}
use agents_board.Tests.Fixture.{signed_board, program, plain, noon, moderated, session_a, left_by}

count-evict-le_example : count (of_agent 2) (evict 2 session_a.sessions) ≤ max_sessions_per_agent
unfolding program
count-evict-le_example = count-evict-le 2 session_a.sessions (tt, tt)

create_session-session_agent_example :
    Resolves plain noon (noon + 1000000) (codes "token-a") 2 session_a
unfolding program
create_session-session_agent_example =
    create_session-session_agent plain noon (noon + 1000000) (codes "token-a") 2 moderated refl tt
      (omega arith)

abbrev revoked_a : Db
revoked_a =
    left_by signed_board
      (revoke_agent noon (codes "alice") ModAction.revoke (codes "") signed_board)

alice_revoked :
    revoke_agent noon (codes "alice") ModAction.revoke (codes "") signed_board ≡ ok (tt, revoked_a)
unfolding program
alice_revoked = refl

revoke_agent-create_session_example :
    (r : AgentRow) × (first (has_handle (trim_space (codes "alice"))) signed_board.agents ≡ some r)
    × (count (of_agent r.id) revoked_a.sessions ≡ 0)
    × ((t : ℕ) (after : Db)
        → create_session plain noon (codes "token-b") r.id revoked_a ≢ ok (t, after))
revoke_agent-create_session_example =
    revoke_agent-create_session plain noon noon (codes "alice") ModAction.revoke (codes "")
      (codes "token-b") signed_board alice_revoked
