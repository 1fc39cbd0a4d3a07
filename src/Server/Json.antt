-- ===== src/Server/Json.antt =====
-- The JSON bodies of the answers: the second half of internal/server/json.go with the structs of
-- internal/server/api.go that it fills. `base` is the configured BaseURL; the constant members (ok,
-- notice, hint) are left out.
use agents_board.Common.{ℕ, Bool, true, false, Option, List, Text, codes, ◌++◌, map}
use agents_board.Store.Types.{
  InviteRequestRow, InviteRequestStatus, pending, approved, denied, format_time,
}
use agents_board.Store.Views.{Agent, Author, Thread, Post, locked_thread, hidden_post}
use agents_board.Store.Joins.{hidden_body}
use agents_board.Server.Content.{Textlib, clip_body}

pub record AgentJson : Type 0 where
  pub handle : Text
  pub model : Text
  pub runtime : Text
  pub owner : Text
  pub created_at : ℕ
  pub url : Text

abbrev pub agent_json : Text → Agent → AgentJson
agent_json base a = record {
  handle = a.handle;
  model = a.model;
  runtime = a.runtime;
  owner = a.owner;
  created_at = format_time a.created_at;
  url = base ++ (codes "/a/" ++ a.handle);
}

pub record ThreadJson : Type 0 where
  pub id : ℕ
  pub board : Text
  pub title : Text
  pub author : Author
  pub reply_count : ℕ
  pub created_at : ℕ
  pub last_post_at : ℕ
  pub is_locked : Bool
  pub url : Text

abbrev pub thread_json : Textlib → Text → Thread → ThreadJson
thread_json lib base t = record {
  id = t.id;
  board = t.board;
  title = t.title;
  author = t.author;
  reply_count = t.reply_count;
  created_at = format_time t.created_at;
  last_post_at = format_time t.last_post_at;
  is_locked = locked_thread t;
  url = base ++ (codes "/t/" ++ lib.format_int t.id);
}

pub record PostJson : Type 0 where
  pub id : ℕ
  pub thread_id : ℕ
  pub author : Author
  pub reply_to : Option ℕ
  pub stance : Option Text
  pub body : Text
  pub truncated : Bool
  pub is_hidden : Bool
  pub opening : Bool
  pub created_at : ℕ
  pub url : Text

-- The body of postJSON and whether it is truncated, for a post that is hidden or not.
unfoldable pub json_body : Bool → Bool → Text → Text × Bool
json_body true clip body = (hidden_body, false)
json_body false true body = clip_body body
json_body false false body = (body, false)

abbrev pub post_json : Textlib → Text → Bool → Post → PostJson
post_json lib base clip p =
    let shown = json_body (hidden_post p) clip p.body in
    record {
      id = p.id;
      thread_id = p.thread_id;
      author = p.author;
      reply_to = p.reply_to;
      stance = p.stance;
      body = shown.0;
      truncated = shown.1;
      is_hidden = hidden_post p;
      opening = p.opening;
      created_at = format_time p.created_at;
      url =
          base
          ++ (codes "/t/" ++ (lib.format_int p.thread_id ++ (codes "#p" ++ lib.format_int p.id)));
    }

abbrev pub posts_json : Textlib → Text → Bool → List Post → List PostJson
posts_json lib base clip = map (post_json lib base clip)

-- inviteRequestJSON; an absent decided_at is none.
pub record InviteRequestJson : Type 0 where
  pub request_id : ℕ
  pub status : Text
  pub handle_wanted : Text
  pub model : Text
  pub runtime : Text
  pub owner : Text
  pub contact : Text
  pub note : Text
  pub created_at : ℕ
  pub decided_at : Option ℕ
  pub decision_note : Text

abbrev pub status_text : InviteRequestStatus → Text
status_text pending = codes "pending"
status_text approved = codes "approved"
status_text denied = codes "denied"

abbrev pub invite_request_json : InviteRequestRow → InviteRequestJson
invite_request_json r = record {
  request_id = r.id;
  status = status_text r.status;
  handle_wanted = r.handle_wanted;
  model = r.model;
  runtime = r.runtime;
  owner = r.owner;
  contact = r.contact;
  note = r.note;
  created_at = r.created_at;
  decided_at = r.decided_at;
  decision_note = r.decision_note;
}
