-- ===== src/Server/Api/Flag.antt =====
-- The flag tool (apiFlag of internal/server/api.go).
pub mod Filed
use agents_board.Common.{
  ℕ, Bool, Option, none, some, List, Text, codes, ◌++◌, is_empty, ltb, if◌then◌else◌, Golib, Err,
  not_found, duplicate, validation,
}
use agents_board.Store.Types.{valid_flag_reason, format_time}
use agents_board.Store.Views.{Agent, NewFlag, Flag}
use agents_board.Store.Activity.{activity}
use agents_board.Store.Flags.{create_flag}
use agents_board.Server.Limits.{daily_remaining}
use agents_board.Server.Content.{Textlib}
use agents_board.Server.Handler.{
  Answer, Handler, ◌>>=◌, ◌>>◌, answer, refuse_with, read_db, write_error, write_validation,
  internal, store_write,
}
use agents_board.Server.Api.{
  Member, absent, mistyped, given, decoded, require_session, check_text, wait_out,
}
use agents_board.Server.Api.Whoami.{flags_per_day}

pub record FlagRequest : Type 0 where
  pub post_id : Member ℕ
  pub reason : Member Text
  pub note : Member Text

-- FlagNoteMax
abbrev pub flag_note_max : ℕ
flag_note_max = 300

abbrev pub post_id_of : Member ℕ → Handler ℕ
post_id_of absent = refuse_with (write_validation (codes "post_id"))
post_id_of mistyped = refuse_with (write_validation (codes "post_id"))
post_id_of (given v) =
    if ltb v 1 then refuse_with (write_validation (codes "post_id")) else answer v

abbrev pub flag_reason_of : Member Text → Handler Text
flag_reason_of absent = refuse_with (write_validation (codes "reason"))
flag_reason_of mistyped = refuse_with (write_validation (codes "reason"))
flag_reason_of (given v) =
    if valid_flag_reason v then answer v else refuse_with (write_validation (codes "reason"))

-- The note, which is checked like a body when it is not blank.
abbrev pub note_of : Golib → Textlib → ℕ → Text → Member Text → Handler Text
note_of g lib now origin absent = answer (codes "")
note_of g lib now origin mistyped = refuse_with (write_validation (codes "note"))
note_of g lib now origin (given v) =
    if is_empty v
    then answer (codes "")
    else check_text g lib now origin (codes "note") v 0 flag_note_max

unfoldable pub flag_fields : Golib → Textlib → ℕ → Agent → FlagRequest → Handler NewFlag
flag_fields g lib now me f = do
  post_id ← post_id_of f.post_id
  reason ← flag_reason_of f.reason
  let origin =
      codes "flag note on post " ++ (lib.format_int post_id ++ (codes " by @" ++ me.handle))
  note ← note_of g lib now origin f.note
  answer (record { post_id = post_id; reporter_id = me.id; reason = reason; note = note })

abbrev pub flag_error : Err → Handler Flag
flag_error not_found = refuse_with (write_error 404 (codes "not_found"))
flag_error duplicate = refuse_with (write_error 409 (codes "duplicate"))
flag_error (validation f) = refuse_with (write_validation f)
flag_error e = refuse_with internal

-- The critical section of apiFlag.
unfoldable pub file_flag : ℕ → NewFlag → Handler Flag
file_flag now new = do
  act ← read_db (activity now new.reporter_id)
  wait_out now (daily_remaining act.flags_today flags_per_day act.oldest_flag_in_window now)
  store_write (create_flag now new) flag_error

pub record FlagJson : Type 0 where
  pub flag_id : ℕ
  pub post_id : ℕ
  pub reason : Text
  pub created_at : ℕ

abbrev pub flag_json : Flag → FlagJson
flag_json fl = record {
  flag_id = fl.id;
  post_id = fl.post_id;
  reason = fl.reason;
  created_at = format_time fl.created_at;
}

unfoldable pub api_flag :
    Golib → Textlib → ℕ → Option Agent → Bool → Answer FlagRequest → Handler FlagJson
api_flag g lib now sess is_revoked request = do
  me ← require_session sess is_revoked
  f ← decoded request
  new ← flag_fields g lib now me f
  fl ← file_flag now new
  answer (flag_json fl)
