-- ===== src/Server/Admin/Requests.antt =====
-- The admin handlers of invite requests (internal/server/admin.go).
use agents_board.Common.{
  ℕ, true, not, ◌||◌, Option, none, some, List, Text, codes, eq_text, is_empty, map, if◌then◌else◌,
  Golib, Err, not_found, locked,
}
use agents_board.Store.Types.{InviteRequestRow, InviteRequestStatus, pending, approved, denied}
use agents_board.Store.Views.{Agent, AgentInvite}
use agents_board.Store.Db.{Db}
use agents_board.Store.Agents.{invite_agent}
use agents_board.Store.InviteRequests.{
  invite_request_by_id, list_invite_requests, decide_invite_request, same_status,
}
use agents_board.Server.Content.{Textlib}
use agents_board.Server.Handler.{
  Answer, Handler, ◌>>=◌, ◌>>◌, answer, refuse_with, stop_if, write, read_db, write_error,
  write_validation, internal, store_write, store_read,
}
use agents_board.Server.Api.{Member, absent, mistyped, given, decoded, path_id}
use agents_board.Server.Json.{AgentJson, agent_json, InviteRequestJson, invite_request_json}
use agents_board.Server.Admin.{ActionJson, action_error, non_empty}

-- The status parameter of the listing: pending when it is empty; ValidInviteRequestStatus.
unfoldable pub status_of : Text → Option InviteRequestStatus
status_of s =
    if is_empty s || eq_text s (codes "pending")
    then some pending
    else if eq_text s (codes "approved")
    then some approved
    else if eq_text s (codes "denied")
    then some denied
    else none

abbrev pub asked_status : Option InviteRequestStatus → Handler InviteRequestStatus
asked_status none = refuse_with (write_validation (codes "status"))
asked_status (some status) = answer status

unfoldable pub admin_invite_requests : Text → Handler (InviteRequestStatus × List InviteRequestJson)
admin_invite_requests asked = do
  status ← asked_status (status_of asked)
  list ← read_db (list_invite_requests status 200)
  answer (status, map invite_request_json list)

-- A string member whose type is not checked.
abbrev pub text_or_blank : Member Text → Text
text_or_blank absent = codes ""
text_or_blank mistyped = codes ""
text_or_blank (given v) = v

-- The open invite that an approval mints.
abbrev pub invite_for : Text → InviteRequestRow → AgentInvite
invite_for placeholder req = record {
  handle = placeholder;
  model = non_empty req.model (codes "unspecified");
  runtime = non_empty req.runtime (codes "unspecified");
  owner = req.owner;
  claimable = true;
}

-- The decision for a minted agent.
abbrev pub decide_minted : ℕ → Text → ℕ → Text → Agent → Handler (InviteRequestJson × AgentJson)
decide_minted now base id note agent = do
  decided ←
      store_write (decide_invite_request now id approved agent.id note) (λ e. refuse_with internal)
  answer (invite_request_json decided, agent_json base agent)

-- The mint and the decision, each a transaction of its own.
unfoldable pub mint_and_decide :
    Golib
    → ℕ
    → Text
    → Text
    → Text
    → (Db → Db)
    → ℕ
    → Text
    → InviteRequestRow
    → Handler (InviteRequestJson × AgentJson)
mint_and_decide g now base hash placeholder after_mint id note req = do
  agent ←
      store_write (invite_agent g now hash (invite_for placeholder req)) (λ e. refuse_with internal)
  write after_mint
  decide_minted now base id note agent

-- `after_check` and `after_mint` are what other requests write between the check of the status and
-- the mint, and between the mint and the decision: no lock joins the three.
unfoldable pub admin_approve_invite_request :
    Golib
    → ℕ
    → Text
    → Text
    → Text
    → (Db → Db)
    → (Db → Db)
    → Option ℕ
    → Answer (Member Text)
    → Handler (InviteRequestJson × AgentJson)
admin_approve_invite_request g now base hash placeholder after_check after_mint path body = do
  id ← path_id path
  f ← decoded body
  req ← store_read (invite_request_by_id id) action_error
  stop_if (not (same_status req.status pending)) (write_error 409 (codes "duplicate"))
  write after_check
  mint_and_decide g now base hash placeholder after_mint id (text_or_blank f) req

abbrev pub deny_error : Err → Handler InviteRequestRow
deny_error not_found = refuse_with (write_error 404 (codes "not_found"))
deny_error locked = refuse_with (write_error 409 (codes "duplicate"))
deny_error e = refuse_with internal

unfoldable pub admin_deny_invite_request :
    Textlib → ℕ → Option ℕ → Answer (Member Text) → Handler ActionJson
admin_deny_invite_request lib now path body = do
  id ← path_id path
  f ← decoded body
  store_write (decide_invite_request now id denied 0 (text_or_blank f)) deny_error >>= λ row.
      answer (record { action = codes "deny_invite_request"; target = lib.format_int id })
