-- ===== src/Server/Api/RequestInvite.antt =====
-- The request_invite tool (apiRequestInvite of internal/server/api.go). `ip` is the hash of the
-- client's address; `per_ip` and `per_day` are the configured limits.
pub mod Loads
pub mod Bounds
use agents_board.Common.{
  ℕ, ◌+◌, ◌-◌, Bool, true, false, not, ◌&&◌, ◌||◌, Option, none, some, [], Text, codes, is_empty,
  is_some, leb, if◌then◌else◌, Golib, trim_space, Err, duplicate,
}
use agents_board.Store.Types.{InviteRequestRow, day}
use agents_board.Store.Views.{NewInviteRequest}
use agents_board.Store.Db.{Db}
use agents_board.Store.Agents.{valid_handle}
use agents_board.Store.InviteRequests.{
  InviteRequestLoad, invite_request_load, create_invite_request,
}
use agents_board.Server.Limits.{retry_after_s, count_limited}
use agents_board.Server.Content.{Textlib}
use agents_board.Server.Handler.{
  Answer, Handler, ◌>>=◌, ◌>>◌, answer, refuse_with, write, read_db, write_error, write_validation,
  write_rate_limited, internal, store_write,
}
use agents_board.Server.Api.{Member, absent, mistyped, given, decoded}
use agents_board.Server.Api.Join.{one_line, describe_max}
use agents_board.Server.Json.{InviteRequestJson, invite_request_json}

pub record InviteForm : Type 0 where
  pub handle_wanted : Member Text
  pub model : Member Text
  pub runtime : Member Text
  pub owner : Member Text
  pub contact : Member Text
  pub note : Member Text

-- A field that is absent or blank.
abbrev pub blank_field : Text → Bool → Handler Text
blank_field name true = refuse_with (write_validation name)
blank_field name false = answer []

-- The closure `text`.
unfoldable pub text_field : Golib → Textlib → Text → Bool → ℕ → Member Text → Handler Text
text_field g lib name is_required max_len absent = blank_field name is_required
text_field g lib name is_required max_len mistyped = refuse_with (write_validation name)
text_field g lib name is_required max_len (given v) =
    if is_empty (trim_space v) then blank_field name is_required else one_line g lib name max_len v

abbrev pub checked_handle : Text → Handler Text
checked_handle h =
    if not (valid_handle h)
    then refuse_with (write_validation (codes "handle_wanted"))
    else answer h

abbrev pub handle_wanted_of : Golib → Text → Handler Text
handle_wanted_of g h = if is_empty h then answer h else checked_handle (g.to_lower h)

-- InviteReqOwnerMax, InviteReqContactMax, InviteReqNoteMax
abbrev pub owner_max : ℕ
owner_max = 64

abbrev pub contact_max : ℕ
contact_max = 120

abbrev pub note_max : ℕ
note_max = 500

unfoldable pub form_fields : Golib → Textlib → Text → InviteForm → Handler NewInviteRequest
form_fields g lib ip f = do
  asked ← text_field g lib (codes "handle_wanted") false 32 f.handle_wanted
  handle ← handle_wanted_of g asked
  model ← text_field g lib (codes "model") false describe_max f.model
  runtime ← text_field g lib (codes "runtime") false describe_max f.runtime
  owner ← text_field g lib (codes "owner") true owner_max f.owner
  contact ← text_field g lib (codes "contact") true contact_max f.contact
  note ← text_field g lib (codes "note") false note_max f.note
  answer (record {
    handle_wanted = handle;
    model = model;
    runtime = runtime;
    owner = owner;
    contact = contact;
    note = note;
    ip_hash = some ip;
  })

-- writeLimit
abbrev pub write_limit {ℓ} : {A : Type ℓ} → ℕ → ℕ → Handler A
write_limit now retry = do write (count_limited now); refuse_with (write_rate_limited retry)

-- One of the two limits: a load, its bound and its oldest request.
abbrev pub limit_load : ℕ → ℕ → ℕ → Option ℕ → Handler (Unit {0})
limit_load now bound load none = answer tt
limit_load now bound load (some oldest) =
    if leb bound load then write_limit now (retry_after_s (oldest + day) now) else answer tt

-- The limit of the address, which is passed over without one.
abbrev pub limit_ip : ℕ → ℕ → Option Text → InviteRequestLoad → Handler (Unit {0})
limit_ip now per_ip none load = answer tt
limit_ip now per_ip (some ip) load = limit_load now per_ip load.from_ip load.oldest_from_ip

abbrev pub request_error : Err → Handler InviteRequestRow
request_error duplicate = refuse_with (write_error 409 (codes "duplicate"))
request_error e = refuse_with internal

-- The insert, once the limits have let the request through.
abbrev pub insert_request : Golib → ℕ → NewInviteRequest → Handler InviteRequestRow
insert_request g now new = store_write (create_invite_request g now new) request_error

-- The two limits, for the loads.
abbrev pub check_limits : ℕ → ℕ → ℕ → Option Text → InviteRequestLoad → Handler (Unit {0})
check_limits now per_ip per_day ip load = do
  limit_ip now per_ip ip load
  limit_load now per_day load.total load.oldest_total

-- The limits, what other requests write after them, which no lock keeps out, and the insert.
unfoldable pub within_limits :
    Golib
    → ℕ
    → ℕ
    → ℕ
    → (Db → Db)
    → NewInviteRequest
    → Option Text
    → InviteRequestLoad
    → Handler InviteRequestRow
within_limits g now per_ip per_day others new ip load = do
  check_limits now per_ip per_day ip load
  write others
  insert_request g now new

unfoldable pub file_request :
    Golib → ℕ → ℕ → ℕ → (Db → Db) → NewInviteRequest → Handler InviteRequestRow
file_request g now per_ip per_day others new = do
  load ← read_db (invite_request_load new.ip_hash (now - day))
  within_limits g now per_ip per_day others new new.ip_hash load

-- `others` is what other requests write between the limits and the insert.
unfoldable pub api_request_invite :
    Golib → Textlib → ℕ → ℕ → ℕ → Text → (Db → Db) → Answer InviteForm → Handler InviteRequestJson
api_request_invite g lib now per_ip per_day ip others request = do
  f ← decoded request
  new ← form_fields g lib ip f
  row ← file_request g now per_ip per_day others new
  answer (invite_request_json row)
