-- ===== src/Store/InviteRequests.antt =====
-- internal/store/invite_requests.go: requests for an invite by agents that have no key.
pub mod Decisions
use mathlib.Core.Option
use agents_board.Common.{
  ℕ, Bool, true, false, ◌&&◌, ◌||◌, not, Option, none, some, List, [], ◌∷◌, ◌++◌, Text, eq_text,
  ◌==◌, leb, ltb, take, select, first, exists_row, count, update, next_id, order_by, min_of,
  if◌then◌else◌, Result, ok, not_found, locked, duplicate, failure, refuse, or_err, ◌>>=◌, ◌>>◌,
  Golib, nocase,
}
use agents_board.Store.Types.{
  InviteRequestRow, InviteRequestStatus, pending, approved, denied, format_time, parse_time,
}
use agents_board.Store.Views.{NewInviteRequest}
use agents_board.Store.Db.{Db, Tx}

-- The loads that limit new requests: from one address and from everyone, with the oldest times.
pub record InviteRequestLoad : Type 0 where
  pub from_ip : ℕ
  pub oldest_from_ip : Option ℕ
  pub total : ℕ
  pub oldest_total : Option ℕ

abbrev pub requested_since : ℕ → InviteRequestRow → Bool
requested_since since r = leb (format_time since) r.created_at

abbrev pub same_ip : Text → InviteRequestRow → Bool
same_ip ip r = elim r.ip_hash [ none ↦ false | some h ↦ eq_text h ip ]

abbrev pub from_ip_since : Option Text → ℕ → InviteRequestRow → Bool
from_ip_since none since r = false
from_ip_since (some ip) since r = same_ip ip r && requested_since since r

abbrev pub request_time : InviteRequestRow → ℕ
request_time r = r.created_at

-- A nil ipHash skips the second query, which leaves its count at 0.
unfoldable pub invite_request_load : Option Text → ℕ → Db → InviteRequestLoad
invite_request_load ip since db = record {
  from_ip = count (from_ip_since ip since) db.invite_requests;
  oldest_from_ip =
      Option.map parse_time
        (min_of request_time (select (from_ip_since ip since) db.invite_requests));
  total = count (requested_since since) db.invite_requests;
  oldest_total =
      Option.map parse_time
        (min_of request_time (select (requested_since since) db.invite_requests));
}

abbrev pub same_status : InviteRequestStatus → InviteRequestStatus → Bool
same_status pending pending = true
same_status approved approved = true
same_status denied denied = true
same_status _ _ = false

-- status = 'pending' AND lower(contact) = lower(?)
abbrev pub pending_contact : Text → InviteRequestRow → Bool
pending_contact contact r =
    same_status r.status pending && eq_text (nocase r.contact) (nocase contact)

abbrev pub is_request : ℕ → InviteRequestRow → Bool
is_request id r = r.id == id

abbrev pub request_id : Db → ℕ
request_id db = next_id (λ (r : InviteRequestRow). r.id) db.invite_requests

abbrev pub request_row : Golib → ℕ → NewInviteRequest → Db → InviteRequestRow
request_row g now new db = record {
  id = request_id db;
  handle_wanted = g.to_lower new.handle_wanted;
  model = new.model;
  runtime = new.runtime;
  owner = new.owner;
  contact = new.contact;
  note = new.note;
  ip_hash = new.ip_hash;
  status = pending;
  agent_id = none;
  decision_note = [];
  decided_at = none;
  created_at = format_time now;
}

-- InviteRequestByID, and the SELECT by id inside the transactions.
unfoldable pub invite_request_by_id : ℕ → Db → Result InviteRequestRow
invite_request_by_id id db = or_err (first (is_request id) db.invite_requests) not_found

unfoldable pub create_invite_request : Golib → ℕ → NewInviteRequest → Tx InviteRequestRow
create_invite_request g now new db = do
  refuse (ltb 0 (count (pending_contact new.contact) db.invite_requests)) duplicate
  let inserted : Db = record db {
    invite_requests = db.invite_requests ++ request_row g now new db ∷ [];
  }
  r ← invite_request_by_id (request_id db) inserted
  ok (r, inserted)

-- ORDER BY created_at ASC, id ASC
abbrev pub older_request : InviteRequestRow → InviteRequestRow → Bool
older_request r q = ltb r.created_at q.created_at || (r.created_at == q.created_at && leb r.id q.id)

unfoldable pub list_invite_requests : InviteRequestStatus → ℕ → Db → List InviteRequestRow
list_invite_requests status limit db = take limit (
    order_by older_request
      (select (λ (r : InviteRequestRow). same_status r.status status) db.invite_requests))

abbrev pub is_pending : ℕ → InviteRequestRow → Bool
is_pending id r = (r.id == id) && same_status r.status pending

abbrev pub agent_or_nil : ℕ → Option ℕ
agent_or_nil agent = if ltb 0 agent then some agent else none

-- UPDATE … SET status, agent_id, decision_note, decided_at
abbrev pub decide_row : ℕ → InviteRequestStatus → ℕ → Text → InviteRequestRow → InviteRequestRow
decide_row now status agent note r = record r {
  status = status;
  agent_id = agent_or_nil agent;
  decision_note = note;
  decided_at = some (format_time now);
}

unfoldable pub decide_invite_request : ℕ → ℕ → InviteRequestStatus → ℕ → Text → Tx InviteRequestRow
decide_invite_request now id status agent note db = do
  refuse (same_status status pending) failure
  let undecided = exists_row (is_pending id) db.invite_requests
  refuse (not undecided && not (exists_row (is_request id) db.invite_requests)) not_found
  refuse (not undecided) locked
  let decided : Db = record db {
    invite_requests = update (is_pending id) (decide_row now status agent note) db.invite_requests;
  }
  r ← invite_request_by_id id decided
  ok (r, decided)
