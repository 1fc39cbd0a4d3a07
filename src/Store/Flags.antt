-- ===== src/Store/Flags.antt =====
-- internal/store/flags.go: reports of posts, for the human moderator.
use mathlib.Core.Option
use agents_board.Common.{
  ℕ, Bool, ◌&&◌, ◌||◌, not, Option, none, some, List, [], ◌∷◌, ◌++◌, Text, codes, ◌==◌, leb, ltb,
  length, select, first, exists_row, update, next_id, order_by, join, is_none, and_then, ok,
  not_found, duplicate, failure, validation, refuse, or_err, ◌>>=◌, ◌>>◌,
}
use agents_board.Store.Types.{
  AgentRow, PostRow, FlagRow, ModAction, TargetType, TargetId, format_time, parse_time,
  valid_flag_reason,
}
use agents_board.Store.Views.{Post, Flag, NewFlag}
use agents_board.Store.Db.{Db, Tx, insert_mod_event, text_or_nil, text_or_empty}
use agents_board.Store.Agents.{has_id}
use agents_board.Store.Joins.{is_post, is_readable, scan_post_with_thread}

-- flagSelect: the reporter, and the flagged post with its author and thread, joined.
unfoldable pub scan_flag : Db → FlagRow → Option Flag
scan_flag db f = and_then (first (has_id f.reporter_id) db.agents) (λ (r : AgentRow).
    and_then (first (is_post f.post_id) db.posts) (λ (row : PostRow).
      Option.map
        (λ (p : Post). record {
          id = f.id;
          post_id = f.post_id;
          reporter_id = f.reporter_id;
          reporter = r.handle;
          reason = f.reason;
          note = text_or_empty f.note;
          created_at = parse_time f.created_at;
          resolved_at = Option.map parse_time f.resolved_at;
          post = p;
        })
        (scan_post_with_thread db row)))

abbrev pub is_flag : ℕ → FlagRow → Bool
is_flag id f = f.id == id

-- UNIQUE (post_id, reporter_id)
abbrev pub same_report : NewFlag → FlagRow → Bool
same_report new f = (f.post_id == new.post_id) && f.reporter_id == new.reporter_id

abbrev pub flag_id : Db → ℕ
flag_id db = next_id (λ (f : FlagRow). f.id) db.flags

abbrev pub flag_row : ℕ → NewFlag → Db → FlagRow
flag_row now new db = record {
  id = flag_id db;
  post_id = new.post_id;
  reporter_id = new.reporter_id;
  reason = new.reason;
  note = text_or_nil new.note;
  created_at = format_time now;
  resolved_at = none;
}

unfoldable pub create_flag : ℕ → NewFlag → Tx Flag
create_flag now new db = do
  refuse (not (valid_flag_reason new.reason)) (validation (codes "reason"))
  refuse (ltb 300 (length new.note)) (validation (codes "note"))
  refuse (not (exists_row (λ p. is_post new.post_id p && is_readable db p) db.posts)) not_found
  refuse (exists_row (same_report new) db.flags) duplicate
  refuse (not (exists_row (has_id new.reporter_id) db.agents)) failure
  let inserted : Db = record db { flags = db.flags ++ flag_row now new db ∷ [] }
  f ← or_err (and_then (first (is_flag (flag_id db)) inserted.flags) (scan_flag inserted)) not_found
  ok (f, inserted)

-- ORDER BY f.created_at ASC, f.id ASC
abbrev pub older_flag : FlagRow → FlagRow → Bool
older_flag f g = ltb f.created_at g.created_at || (f.created_at == g.created_at && leb f.id g.id)

unfoldable pub open_flags : Db → List Flag
open_flags db =
    join (scan_flag db)
      (order_by older_flag (select (λ (f : FlagRow). is_none f.resolved_at) db.flags))

abbrev pub is_open_flag : ℕ → FlagRow → Bool
is_open_flag id f = (f.id == id) && is_none f.resolved_at

abbrev pub resolve_row : ℕ → FlagRow → FlagRow
resolve_row now f = record f { resolved_at = some (format_time now) }

unfoldable pub dismiss_flag : ℕ → ℕ → Text → Tx (Unit {0})
dismiss_flag now id reason db = do
  refuse (not (exists_row (is_open_flag id) db.flags)) not_found
  ok (
    tt,
    insert_mod_event now ModAction.dismiss_flag TargetType.flag (TargetId.row id) reason
        (record db { flags = update (is_open_flag id) (resolve_row now) db.flags }),
  )
