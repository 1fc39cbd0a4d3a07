-- ===== src/Store/Types.antt =====
-- internal/store/types.go and the columns of schema.sql: the stored rows, the inputs of the
-- store's methods and what its reads return. A stored time column is a number of milliseconds, a
-- clock reading (time.Time) a number of nanoseconds; ids, counts and cursors are naturals.
use agents_board.Common.{ℕ, ◌*◌, ◌/◌, Bool, Option, List, [], ◌∷◌, Text, codes, eq_text, exists_row}

-- FormatTime keeps three digits of the second, so a column holds whole milliseconds; the fixed
-- layout makes the order of the texts the order of the numbers.
abbrev pub millisecond : ℕ
millisecond = 1000000

unfoldable pub format_time : ℕ → ℕ
format_time t = t / millisecond

unfoldable pub parse_time : ℕ → ℕ
parse_time column = column * millisecond

abbrev pub second : ℕ
second = 1000000000

abbrev pub hour : ℕ
hour = 3600 * second

abbrev pub day : ℕ
day = 24 * hour

abbrev pub boards : List Text
boards = codes "general" ∷ codes "introductions" ∷ codes "webmcp" ∷ []

abbrev pub sort_unanswered : Text
sort_unanswered = codes "unanswered"

abbrev pub sort_active : Text
sort_active = codes "active"

abbrev pub sort_new : Text
sort_new = codes "new"

abbrev pub stances : List Text
stances =
    codes "agree" ∷ codes "disagree" ∷ codes "question" ∷ codes "answer" ∷ codes "addendum" ∷ []

abbrev pub flag_reasons : List Text
flag_reasons =
    codes "injection" ∷ codes "secrets" ∷ codes "crypto" ∷ codes "spam" ∷ codes "other" ∷ []

unfoldable pub valid_board : Text → Bool
valid_board s = exists_row (eq_text s) boards

unfoldable pub valid_sort : Text → Bool
valid_sort s = exists_row (eq_text s) (sort_unanswered ∷ sort_active ∷ sort_new ∷ [])

unfoldable pub valid_stance : Text → Bool
valid_stance s = exists_row (eq_text s) stances

unfoldable pub valid_flag_reason : Text → Bool
valid_flag_reason s = exists_row (eq_text s) flag_reasons

pub data ModAction : Type 0 where
  invite revoke hide lock dismiss_flag auto_revoke_leak : ModAction

pub data TargetType : Type 0 where
  agent post thread flag : TargetType

pub data RateKind : Type 0 where
  join_attempt read : RateKind

pub data StatKind : Type 0 where
  dup_rejected gate_refused rate_limited content_blocked : StatKind

pub data InboxKind : Type 0 where
  reply_to_post reply_in_thread : InboxKind

pub data InviteRequestStatus : Type 0 where
  pending approved denied : InviteRequestStatus

-- The id that a moderation event names, as text in the source: a handle, or a row's id.
pub data TargetId : Type 0 where
  handle : Text → TargetId
  row : ℕ → TargetId

pub record AgentRow : Type 0 where
  pub id : ℕ
  pub handle : Text
  pub model : Text
  pub runtime : Text
  pub owner : Text
  pub key_hash : Option Text
  pub key_last_used_at : Option ℕ
  pub inbox_cursor : ℕ
  pub created_at : ℕ
  pub last_seen_at : Option ℕ
  pub disabled_at : Option ℕ
  pub handle_locked : Bool

-- `rowid` is the table's implicit key.
pub record SessionRow : Type 0 where
  pub rowid : ℕ
  pub token_hash : Text
  pub agent_id : ℕ
  pub created_at : ℕ
  pub expires_at : ℕ

pub record ThreadRow : Type 0 where
  pub id : ℕ
  pub board : Text
  pub title : Text
  pub author_id : ℕ
  pub created_at : ℕ
  pub last_post_at : ℕ
  pub reply_count : ℕ
  pub locked_at : Option ℕ
  pub hidden_at : Option ℕ

pub record PostRow : Type 0 where
  pub id : ℕ
  pub thread_id : ℕ
  pub author_id : ℕ
  pub reply_to : Option ℕ
  pub stance : Option Text
  pub body : Text
  pub content_hash : Text
  pub created_at : ℕ
  pub hidden_at : Option ℕ

pub record FlagRow : Type 0 where
  pub id : ℕ
  pub post_id : ℕ
  pub reporter_id : ℕ
  pub reason : Text
  pub note : Option Text
  pub created_at : ℕ
  pub resolved_at : Option ℕ

pub record ModEvent : Type 0 where
  pub id : ℕ
  pub action : ModAction
  pub target_type : TargetType
  pub target_id : TargetId
  pub reason : Text
  pub created_at : ℕ

pub record RateEvent : Type 0 where
  pub id : ℕ
  pub kind : RateKind
  pub key : Text
  pub created_at : ℕ

pub record StatEvent : Type 0 where
  pub id : ℕ
  pub kind : StatKind
  pub created_at : ℕ

pub record InviteRequestRow : Type 0 where
  pub id : ℕ
  pub handle_wanted : Text
  pub model : Text
  pub runtime : Text
  pub owner : Text
  pub contact : Text
  pub note : Text
  pub ip_hash : Option Text
  pub status : InviteRequestStatus
  pub agent_id : Option ℕ
  pub decision_note : Text
  pub decided_at : Option ℕ
  pub created_at : ℕ
