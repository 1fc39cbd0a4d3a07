-- ===== src/Server/Admin/Approval.antt =====
-- How the approval of an invite request fails (adminApproveInviteRequest of
-- internal/server/admin.go), with what other requests write between its transactions.
use agents_board.Common.{
  ℕ, ◌⊎◌, ◌≡◌, refl, arith, Bool, true, false, not, Option, none, some, List, [], ◌∷◌, Text, Golib,
  inl, inr, first, exists_row, exists_row-first, update, Bool-cases, Result-cases, or_err, Result,
  ok, err, Err, not_found, invalid_key, revoked, locked, duplicate, no_object, generation_mismatch,
  failure, validation, codes,
}
use agents_board.Store.Types.{InviteRequestRow, pending, approved}
use agents_board.Store.Views.{Agent, AgentInvite}
use agents_board.Store.Db.{Db}
use agents_board.Store.Agents.{invite_agent}
use agents_board.Store.InviteRequests.{
  invite_request_by_id, decide_invite_request, decide_row, same_status, is_pending, is_request,
}
use agents_board.Store.InviteRequests.Decisions.{still_there}
use agents_board.Server.Handler.{
  KeepsDb, refused_either, stop_if, store_read, read_answer, write_error, Answer, answered, refused,
  Refusal, Handler, internal,
}
use agents_board.Server.Api.{Member, decoded, path_id}
use agents_board.Server.Api.Parts.{stop_if-answered}
use agents_board.Server.Admin.{action_error}
use agents_board.Server.Admin.Requests.{
  text_or_blank, decide_minted, mint_and_decide, admin_approve_invite_request, invite_for,
}

-- The pending row is found by the tests of DecideInviteRequest.
pending_row :
    (id : ℕ) (rs : List InviteRequestRow) {req : InviteRequestRow}
    → first (is_request id) rs ≡ some req
    → same_status req.status pending ≡ true
    → exists_row (is_pending id) rs ≡ true
pending_row id [] h s = cc
pending_row id (r ∷ rs) {req} h s = elim (Bool-cases (is_request id r)) [
  | inl e ↦ ground arith
  | inr e ↦ ground (arith, pending_row id rs {req = req})
]

decide-commits :
    (now id agent : ℕ) (note : Text) (db : Db)
    → exists_row (is_pending id) db.invite_requests ≡ true
    → (r : InviteRequestRow) × (db' : Db) × (decide_invite_request now id approved agent note db
        ≡ ok (r, db'))
unfolding decide_invite_request invite_request_by_id
decide-commits now id agent note db h =
    let (r, f) =
      exists_row-first (is_request id) _
        (still_there now id approved agent note db.invite_requests h) in
    (
      r,
      record db {
        invite_requests =
            update (is_pending id) (decide_row now approved agent note) db.invite_requests;
      },
      rw (h, f) refl,
    )

invite_agent-requests :
    (g : Golib) (now : ℕ) (hash : Text) (new : AgentInvite) (db : Db) {a : Agent} {db' : Db}
    → invite_agent g now hash new db ≡ ok (a, db')
    → db'.invite_requests ≡ db.invite_requests
unfolding invite_agent
invite_agent-requests g now hash new db h = ground arith

-- What is left of an approval that fails after its agent was minted: the agent with what others
-- wrote, a request that others have decided, and a 500.
pub record IsOvertaken (g : Golib) (now : ℕ) (hash placeholder : Text)
    (after_check after_mint : Db → Db) (id : ℕ) (db : Db) (r : Refusal) (db' : Db) : Type 0 where
  pub req : InviteRequestRow
  pub agent : Agent
  pub minted : Db
  pub was : exists_row (is_pending id) db.invite_requests ≡ true
  pub mint :
      invite_agent g now hash (invite_for placeholder req) (after_check db) ≡ ok (agent, minted)
  pub gone : exists_row (is_pending id) (after_mint minted).invite_requests ≡ false
  pub status : r ≡ internal
  pub left : db' ≡ after_mint minted

-- The decision fails only on a request that is not pending.
decide_minted-refused :
    (now : ℕ) (base : Text) (id : ℕ) (note : Text) (agent : Agent) (db : Db) {r : Refusal}
    {db' : Db}
    → decide_minted now base id note agent db ≡ (refused r, db')
    → (exists_row (is_pending id) db.invite_requests ≡ false) × (r ≡ internal) × (db' ≡ db)
decide_minted-refused now base id note agent db h =
    elim (Result-cases (decide_invite_request now id approved agent.id note db)) [
      | inl (x, f) ↦ (
        elim (Bool-cases (exists_row (is_pending id) db.invite_requests)) [
          | inl e ↦
              let (row, made, k) = decide-commits now id agent.id note db e in absurd (ground arith)
          | inr e ↦ e
        ],
        ground arith,
        ground arith,
      )
      | inr ((row, made), f) ↦ absurd (ground arith)
    ]

-- How an approval can fail after its status check.
abbrev pub Failed : Golib → ℕ → Text → Text → (Db → Db) → (Db → Db) → ℕ → Db → Refusal → Db → Type 0
Failed g now hash placeholder after_check after_mint id db r db' =
    (db' ≡ after_check db) ⊎ IsOvertaken g now hash placeholder after_check after_mint id db r db'

mint-Failed :
    (g : Golib) (now : ℕ) (base hash placeholder : Text) (after_check after_mint : Db → Db) (id : ℕ)
    (note : Text) (req : InviteRequestRow) (db : Db) {r : Refusal} {db' : Db}
    → exists_row (is_pending id) db.invite_requests ≡ true
    → mint_and_decide g now base hash placeholder after_mint id note req (after_check db)
      ≡ (refused r, db')
    → Failed g now hash placeholder after_check after_mint id db r db'
unfolding mint_and_decide
mint-Failed g now base hash placeholder after_check after_mint id note req db {r} {db'} was h =
    elim (Result-cases (invite_agent g now hash (invite_for placeholder req) (after_check db))) [
      | inl (e, f) ↦ inl (ground arith)
      | inr ((agent, minted), f) ↦
          let (gone, status, left) =
            decide_minted-refused now base id note agent (after_mint minted) (rw f at h) in
          inr (record {
            req = req;
            agent = agent;
            minted = minted;
            was = was;
            mint = f;
            gone = gone;
            status = status;
            left = left;
          })
    ]

path_id-some :
    (path : Option ℕ) (id : ℕ) (db : Db) → path_id path db ≡ (answered id, db) → path ≡ some id
path_id-some none id db h = absurd (ground arith)
path_id-some (some n) id db h = ground arith

path_id-KeepsDb : (path : Option ℕ) → KeepsDb (path_id path)
path_id-KeepsDb none db = refl
path_id-KeepsDb (some id) db = refl

stop_if-KeepsDb : (test : Bool) (r : Refusal) → KeepsDb (stop_if test r)
stop_if-KeepsDb true r db = refl
stop_if-KeepsDb false r db = refl

action_error-KeepsDb : (e : Err) → KeepsDb (action_error {A = InviteRequestRow} e)
action_error-KeepsDb not_found db = refl
action_error-KeepsDb invalid_key db = refl
action_error-KeepsDb revoked db = refl
action_error-KeepsDb locked db = refl
action_error-KeepsDb duplicate db = refl
action_error-KeepsDb no_object db = refl
action_error-KeepsDb generation_mismatch db = refl
action_error-KeepsDb failure db = refl
action_error-KeepsDb (validation f) db = refl

read_answer-KeepsDb :
    {A : Type 0} (on_error : Err → Handler A) (x : Result A)
    → ((e : Err) → KeepsDb (on_error e))
    → KeepsDb (read_answer on_error x)
read_answer-KeepsDb on_error (err e) keeps db = keeps e db
read_answer-KeepsDb on_error (ok a) keeps db = refl

row_read :
    (o : Option InviteRequestRow) (db : Db) {req : InviteRequestRow}
    → read_answer action_error (or_err o not_found) db ≡ (answered req, db)
    → o ≡ some req
row_read none db e = absurd (ground arith)
row_read (some row) db e = ground arith

-- What the read of the request and the test of its status let through.
found_pending :
    (id : ℕ) (db : Db) {req : InviteRequestRow}
    → store_read (invite_request_by_id id) action_error db ≡ (answered req, db)
    → (not (same_status req.status pending)) ≡ false
    → exists_row (is_pending id) db.invite_requests ≡ true
unfolding invite_request_by_id
found_pending id db {req} e s =
    pending_row id db.invite_requests {req = req}
      (row_read (first (is_request id) db.invite_requests) db e) (ground arith)

-- An approval that adminApproveInviteRequest answers with an error, whatever the path, the body, the
-- board and the writes of other requests between its three transactions, has changed nothing itself,
-- unless it was overtaken: the request was pending when it was checked, the agent is minted, another
-- request has decided it in between, and the answer is the 500.
pub admin_approve_invite_request-refused :
    (g : Golib) (now : ℕ) (base hash placeholder : Text) (after_check after_mint : Db → Db)
    (path : Option ℕ) (body : Answer (Member Text)) (db : Db) (r : Refusal) (db' : Db)
    → admin_approve_invite_request g now base hash placeholder after_check after_mint path body db
      ≡ (refused r, db')
    → (db' ≡ db)
      ⊎ ((id : ℕ) × (path ≡ some id)
          × Failed g now hash placeholder after_check after_mint id db r db')
unfolding admin_approve_invite_request
admin_approve_invite_request-refused g now base hash placeholder after_check after_mint path body db
      r db' h =
    refused_either (path_id path) _ db (path_id-KeepsDb path) inl
      (λ id e1 h1.
        refused_either (decoded body) _ db (λ d. refl) inl
          (λ f e2 h2.
            refused_either (store_read (invite_request_by_id id) action_error) _ db
              (λ d.
                read_answer-KeepsDb action_error (invite_request_by_id id d) action_error-KeepsDb d)
              inl
              (λ req e3 h3.
                refused_either
                  (stop_if (not (same_status req.status pending))
                    (write_error 409 (codes "duplicate")))
                  _ db (stop_if-KeepsDb (not (same_status req.status pending)) _) inl
                  (λ u e4 h4. inr (
                    id,
                    path_id-some path id db e1,
                    mint-Failed g now base hash placeholder after_check after_mint id
                        (text_or_blank f) req db
                        (found_pending id db e3
                          (stop_if-answered (not (same_status req.status pending)) _ db e4).0)
                        h4,
                  ))
                  h3)
              h2)
          h1)
      h
