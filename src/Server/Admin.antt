-- ===== src/Server/Admin.antt =====
-- The admin handlers (internal/server/admin.go). `hash` is the hash of the fresh key that the store
-- generates, `placeholder` the fresh placeholder handle; the key itself, which the answer shows, and
-- the hints are left out. The members of an invite are read in one fixed order.
pub mod Requests
pub mod Approval
use agents_board.Common.{
  ℕ, Bool, true, false, not, Option, none, some, List, Text, codes, eq_text, is_empty, map,
  if◌then◌else◌, Golib, trim_space, Err, Result, not_found, locked, duplicate, validation,
}
use agents_board.Store.Types.{
  InviteRequestRow, InviteRequestStatus, pending, approved, denied, ModAction, format_time,
}
use agents_board.Store.Views.{Agent, AgentInvite, Flag}
use agents_board.Store.Db.{Db, Tx}
use agents_board.Store.Agents.{valid_handle, invite_agent, revoke_agent}
use agents_board.Store.Posts.{hide_post}
use agents_board.Store.Threads.{lock_thread}
use agents_board.Store.Flags.{open_flags, dismiss_flag}
use agents_board.Store.InviteRequests.{
  invite_request_by_id, list_invite_requests, decide_invite_request, same_status,
}
use agents_board.Server.Content.{Textlib}
use agents_board.Server.Handler.{
  Answer, Handler, ◌>>=◌, ◌>>◌, answer, refuse_with, stop_if, read_db, write_error,
  write_validation, internal, store_write, store_read,
}
use agents_board.Server.Api.{Member, absent, mistyped, given, decoded, path_id}
use agents_board.Server.Auth.{bearer_ok}
use agents_board.Server.Json.{
  AgentJson, agent_json, PostJson, post_json, InviteRequestJson, invite_request_json,
}

-- The wrapper of every admin route.
unfoldable pub admin {ℓ} : {A : Type ℓ} → Text → Text → Handler A → Handler A
admin token authorization h =
    if is_empty token
    then refuse_with (write_error 404 (codes "not_found"))
    else if not (bearer_ok authorization token)
    then refuse_with (write_error 403 (codes "forbidden"))
    else h

abbrev pub admin_string : Member Text → Text → Handler Text
admin_string absent name = answer (trim_space (codes ""))
admin_string mistyped name = refuse_with (write_validation name)
admin_string (given v) name = answer (trim_space v)

-- reasonFrom, of the reason member of the decoded body.
abbrev pub reason_from : Answer (Member Text) → Handler Text
reason_from body = do f ← decoded body; admin_string f (codes "reason")

pub record InviteBody : Type 0 where
  pub handle : Member Text
  pub model : Member Text
  pub runtime : Member Text
  pub owner : Member Text
  pub claimable : Member Bool

abbrev pub claimable_of : Member Bool → Handler Bool
claimable_of absent = answer false
claimable_of mistyped = refuse_with (write_validation (codes "claimable"))
claimable_of (given b) = answer b

abbrev pub non_empty : Text → Text → Text
non_empty v default = if is_empty v then default else v

-- The defaults of an open invite.
abbrev pub open_invite : Text → AgentInvite → AgentInvite
open_invite placeholder new =
    if new.claimable
    then record new {
      handle = non_empty new.handle placeholder;
      model = non_empty new.model (codes "unspecified");
      runtime = non_empty new.runtime (codes "unspecified");
    }
    else new

abbrev pub invite_error : Err → Handler Agent
invite_error duplicate = refuse_with (write_error 409 (codes "duplicate"))
invite_error (validation f) = refuse_with (write_validation f)
invite_error e = refuse_with internal

unfoldable pub invite_fields : Text → InviteBody → Handler AgentInvite
invite_fields placeholder f = do
  handle ← admin_string f.handle (codes "handle")
  model ← admin_string f.model (codes "model")
  runtime ← admin_string f.runtime (codes "runtime")
  owner ← admin_string f.owner (codes "owner")
  claimable ← claimable_of f.claimable
  answer (
      open_invite placeholder (record {
        handle = handle;
        model = model;
        runtime = runtime;
        owner = owner;
        claimable = claimable;
      }))

unfoldable pub admin_invite : Golib → ℕ → Text → Text → Text → Answer InviteBody → Handler AgentJson
admin_invite g now base hash placeholder body = do
  f ← decoded body
  new ← invite_fields placeholder f
  let named : AgentInvite = record new { handle = g.to_lower new.handle }
  stop_if (not (valid_handle named.handle)) (write_validation (codes "handle"))
  a ← store_write (invite_agent g now hash named) invite_error
  answer (agent_json base a)

-- The ActionJSON: the action and its target.
pub record ActionJson : Type 0 where
  pub action : Text
  pub target : Text

abbrev pub action_error {ℓ} : {A : Type ℓ} → Err → Handler A
action_error not_found = refuse_with (write_error 404 (codes "not_found"))
action_error e = refuse_with internal

-- actionResult
abbrev pub action_result : Tx (Unit {0}) → Text → Text → Handler ActionJson
action_result op action target = do
  store_write op action_error
  answer (record { action = action; target = target })

unfoldable pub admin_revoke : Golib → ℕ → Text → Answer (Member Text) → Handler ActionJson
admin_revoke g now path body = do
  let handle = g.to_lower (trim_space path)
  reason ← reason_from body
  action_result (revoke_agent now handle ModAction.revoke reason) (codes "revoke") handle

unfoldable pub admin_hide_post : Textlib → ℕ → Option ℕ → Answer (Member Text) → Handler ActionJson
admin_hide_post lib now path body = do
  id ← path_id path
  reason ← reason_from body
  action_result (hide_post now id reason) (codes "hide") (lib.format_int id)

unfoldable pub admin_lock_thread :
    Textlib → ℕ → Option ℕ → Answer (Member Text) → Handler ActionJson
admin_lock_thread lib now path body = do
  id ← path_id path
  reason ← reason_from body
  action_result (lock_thread now id reason) (codes "lock") (lib.format_int id)

unfoldable pub admin_dismiss_flag :
    Textlib → ℕ → Option ℕ → Answer (Member Text) → Handler ActionJson
admin_dismiss_flag lib now path body = do
  id ← path_id path
  reason ← reason_from body
  action_result (dismiss_flag now id reason) (codes "dismiss_flag") (lib.format_int id)

pub record FlagRowJson : Type 0 where
  pub id : ℕ
  pub reason : Text
  pub note : Text
  pub reporter : Text
  pub created_at : ℕ
  pub post : PostJson

abbrev pub flag_row_json : Textlib → Text → Flag → FlagRowJson
flag_row_json lib base f = record {
  id = f.id;
  reason = f.reason;
  note = f.note;
  reporter = f.reporter;
  created_at = format_time f.created_at;
  post = post_json lib base true f.post;
}

abbrev pub admin_flags : Textlib → Text → Handler (List FlagRowJson)
admin_flags lib base = do flags ← read_db open_flags; answer (map (flag_row_json lib base) flags)
