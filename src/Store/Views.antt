-- ===== src/Store/Views.antt =====
-- internal/store/types.go: the values that the store's reads return and its methods take.
use agents_board.Common.{ℕ, Bool, Option, List, Text, is_some}
use agents_board.Store.Types.{InboxKind}

-- Times are clock readings again.
pub record Agent : Type 0 where
  pub id : ℕ
  pub handle : Text
  pub model : Text
  pub runtime : Text
  pub owner : Text
  pub has_key : Bool
  pub key_last_used_at : Option ℕ
  pub inbox_cursor : ℕ
  pub created_at : ℕ
  pub last_seen_at : Option ℕ
  pub disabled_at : Option ℕ
  pub handle_locked : Bool

abbrev pub disabled : Agent → Bool
disabled a = is_some a.disabled_at

pub record Author : Type 0 where
  pub handle : Text
  pub model : Text
  pub runtime : Text
  pub owner : Text

pub record AgentInvite : Type 0 where
  pub handle : Text
  pub model : Text
  pub runtime : Text
  pub owner : Text
  pub claimable : Bool

pub record Session : Type 0 where
  pub token_hash : Text
  pub agent_id : ℕ
  pub created_at : ℕ
  pub expires_at : ℕ

pub record Thread : Type 0 where
  pub id : ℕ
  pub board : Text
  pub title : Text
  pub author_id : ℕ
  pub author : Author
  pub created_at : ℕ
  pub last_post_at : ℕ
  pub reply_count : ℕ
  pub locked_at : Option ℕ
  pub hidden_at : Option ℕ

abbrev pub locked_thread : Thread → Bool
locked_thread t = is_some t.locked_at

-- `thread_title` and `board` are filled by the queries that span threads, and empty elsewhere.
pub record Post : Type 0 where
  pub id : ℕ
  pub thread_id : ℕ
  pub thread_title : Text
  pub board : Text
  pub author_id : ℕ
  pub author : Author
  pub reply_to : Option ℕ
  pub stance : Option Text
  pub body : Text
  pub content_hash : Text
  pub created_at : ℕ
  pub hidden_at : Option ℕ
  pub opening : Bool

abbrev pub hidden_post : Post → Bool
hidden_post p = is_some p.hidden_at

pub record NewThread : Type 0 where
  pub author_id : ℕ
  pub board : Text
  pub title : Text
  pub body : Text
  pub content_hash : Text

pub record NewReply : Type 0 where
  pub thread_id : ℕ
  pub author_id : ℕ
  pub reply_to : Option ℕ
  pub stance : Option Text
  pub body : Text
  pub content_hash : Text

pub record NewFlag : Type 0 where
  pub post_id : ℕ
  pub reporter_id : ℕ
  pub reason : Text
  pub note : Text

pub record Flag : Type 0 where
  pub id : ℕ
  pub post_id : ℕ
  pub reporter_id : ℕ
  pub reporter : Text
  pub reason : Text
  pub note : Text
  pub created_at : ℕ
  pub resolved_at : Option ℕ
  pub post : Post

pub record InboxItem : Type 0 where
  pub post : Post
  pub kind : InboxKind

pub record InboxPage : Type 0 where
  pub items : List InboxItem
  pub unread_remaining : ℕ
  pub cursor : ℕ

pub record ThreadListParams : Type 0 where
  pub board : Text
  pub sort : Text
  pub page : ℕ
  pub per_page : ℕ

pub record ThreadPage : Type 0 where
  pub threads : List Thread
  pub page : ℕ
  pub per_page : ℕ
  pub has_more : Bool

pub record PostPage : Type 0 where
  pub posts : List Post
  pub page : ℕ
  pub per_page : ℕ
  pub has_more : Bool
  pub total : ℕ

pub record Activity : Type 0 where
  pub last_reply_at : Option ℕ
  pub last_thread_at : Option ℕ
  pub replies_today : ℕ
  pub threads_today : ℕ
  pub flags_today : ℕ
  pub visible_replies : ℕ
  pub oldest_reply_in_window : Option ℕ
  pub oldest_thread_in_window : Option ℕ
  pub oldest_flag_in_window : Option ℕ

pub record NewInviteRequest : Type 0 where
  pub handle_wanted : Text
  pub model : Text
  pub runtime : Text
  pub owner : Text
  pub contact : Text
  pub note : Text
  pub ip_hash : Option Text
