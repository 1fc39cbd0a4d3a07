-- ===== src/Store/InviteRequests/Decisions.antt =====
-- DecideInviteRequest (internal/store/invite_requests.go) decides a request once.
use agents_board.Common.{
  ℕ, ◌≡◌, refl, ap, ◌∙◌, arith, true, false, inl, inr, List, [], ◌∷◌, exists_row, update,
  Bool-cases, Text, err, ok, locked,
}
use agents_board.Store.Types.{InviteRequestRow, InviteRequestStatus, pending}
use agents_board.Store.Db.{Db}
use agents_board.Store.InviteRequests.{
  same_status, is_pending, is_request, decide_row, decide_invite_request,
}

-- After the decision no row of that id is pending.
no_pending :
    (now id : ℕ) (status : InviteRequestStatus) (agent : ℕ) (note : Text)
    (rs : List InviteRequestRow)
    → same_status status pending ≡ false
    → exists_row (is_pending id) (update (is_pending id) (decide_row now status agent note) rs)
      ≡ false
no_pending now id status agent note [] h = refl
no_pending now id status agent note (r ∷ rs) h = elim (Bool-cases (is_pending id r)) [
  | inl e ↦ ground (arith, no_pending now id status agent note rs h)
  | inr e ↦ ground (arith, no_pending now id status agent note rs h)
]

-- The decided row is still in the table.
pub still_there :
    (now id : ℕ) (status : InviteRequestStatus) (agent : ℕ) (note : Text)
    (rs : List InviteRequestRow)
    → exists_row (is_pending id) rs ≡ true
    → exists_row (is_request id) (update (is_pending id) (decide_row now status agent note) rs)
      ≡ true
still_there now id status agent note [] h = cc
still_there now id status agent note (r ∷ rs) h = elim (Bool-cases (is_pending id r)) [
  | inl e ↦ ground arith
  | inr e ↦ ground (arith, still_there now id status agent note rs (ground arith))
]

decide-parts :
    (now id : ℕ) (status : InviteRequestStatus) (agent : ℕ) (note : Text) (db : Db)
    {r : InviteRequestRow} {db' : Db}
    → decide_invite_request now id status agent note db ≡ ok (r, db')
    → (same_status status pending ≡ false)
      × (exists_row (is_pending id) db.invite_requests ≡ true)
      × (db'.invite_requests
          ≡ update (is_pending id) (decide_row now status agent note) db.invite_requests)
unfolding decide_invite_request
decide-parts now id status agent note db h = (ground arith, ground arith, ground arith)

refused_as_locked :
    (now id : ℕ) (status : InviteRequestStatus) (agent : ℕ) (note : Text) (db : Db)
    → same_status status pending ≡ false
    → exists_row (is_pending id) db.invite_requests ≡ false
    → exists_row (is_request id) db.invite_requests ≡ true
    → decide_invite_request now id status agent note db ≡ err locked
unfolding decide_invite_request
refused_as_locked now id status agent note db a b c = ground arith

-- A request that was approved or denied stays so: on the database that DecideInviteRequest left, a
-- second decision of the same request, whatever it is, is refused with ErrLocked.
pub decide_invite_request-again :
    (now later id : ℕ) (status second : InviteRequestStatus) (agent other : ℕ) (note comment : Text)
    (db : Db) {r : InviteRequestRow} {db' : Db}
    → decide_invite_request now id status agent note db ≡ ok (r, db')
    → same_status second pending ≡ false
    → decide_invite_request later id second other comment db' ≡ err locked
decide_invite_request-again now later id status second agent other note comment db {r} {db'} h
      valid =
    let (decided, found, rows) = decide-parts now id status agent note db h in
    refused_as_locked later id second other comment db' valid
      (ap (exists_row (is_pending id)) rows
        ∙ no_pending now id status agent note db.invite_requests decided)
      (ap (exists_row (is_request id)) rows
        ∙ still_there now id status agent note db.invite_requests found)
