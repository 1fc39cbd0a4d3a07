-- ===== src/Server/Api/RequestInvite/Bounds.antt =====
-- The limits of request_invite, for calls that run beside each other (internal/server/api.go).
use mathlib.Core.Path.{subst}
use agents_board.Common.{suc, ◌+◌, ℕ, ◌-◌, ◌≤◌, ◌<◌, ◌≡◌, ap, ◌∙◌, arith, some, Text, Golib, ok}
use agents_board.Store.Types.{InviteRequestRow, day}
use agents_board.Store.Views.{NewInviteRequest}
use agents_board.Store.Db.{Db}
use agents_board.Store.InviteRequests.{invite_request_load, create_invite_request}
use agents_board.Server.Limits.Parallel.{Goes, request-Goes, Run-below}
use agents_board.Server.Handler.{answered, answered_after}
use agents_board.Server.Api.RequestInvite.{
  limit_load, check_limits, insert_request, within_limits, file_request,
}
use agents_board.Server.Api.RequestInvite.Loads.{
  requests_from, requests_of_day, InvitePasses, AnyPasses, InviteEnters, limit-cases,
  request_write-ok, passed-loads, requests_of_day-older, requests_of_day-created,
}

checked-same :
    (now per_ip per_day : ℕ) (ip : Text) (db : Db) {u : Unit {0}} {db' : Db}
    → check_limits now per_ip per_day (some ip) (invite_request_load (some ip) (now - day) db) db
      ≡ (answered u, db')
    → db' ≡ db
checked-same now per_ip per_day ip db h =
    let load = invite_request_load (some ip) (now - day) db in
    answered_after (limit_load now per_ip load.from_ip load.oldest_from_ip)
      (λ u. limit_load now per_day load.total load.oldest_total) db
      (λ u d e k.
        (limit-cases now per_day load.total load.oldest_total d k).0
        ∙ (limit-cases now per_ip load.from_ip load.oldest_from_ip db e).0)
      h

within_limits-parts :
    (g : Golib) (now per_ip per_day : ℕ) (ip : Text) (others : Db → Db) (new : NewInviteRequest)
    (db : Db) {x : InviteRequestRow} {db' : Db}
    → within_limits g now per_ip per_day others new
        (some ip)
        (invite_request_load (some ip) (now - day) db)
        db
      ≡ (answered x, db')
    → InvitePasses per_ip per_day ip now db
      × (create_invite_request g now new (others db) ≡ ok (x, db'))
unfolding within_limits
within_limits-parts g now per_ip per_day ip others new db {x} {db'} h =
    let load = invite_request_load (some ip) (now - day) db in
    answered_after (check_limits now per_ip per_day (some ip) load) _ db
      (λ u d e k.
        let same = checked-same now per_ip per_day ip db e in
        (
          e ∙ ap (λ y. (answered tt, y)) same,
          request_write-ok (create_invite_request g now new (others db)) (others db)
              (subst (λ y. insert_request g now new (others y) ≡ (answered x, db')) same k),
        ))
      h

file_request-parts :
    (g : Golib) (now per_ip per_day : ℕ) (ip : Text) (others : Db → Db) (new : NewInviteRequest)
    (db : Db) {x : InviteRequestRow} {db' : Db}
    → new.ip_hash ≡ some ip
    → file_request g now per_ip per_day others new db ≡ (answered x, db')
    → InvitePasses per_ip per_day ip now db
      × (create_invite_request g now new (others db) ≡ ok (x, db'))
unfolding file_request
file_request-parts g now per_ip per_day ip others new db {x} {db'} own h =
    within_limits-parts g now per_ip per_day ip others new db (
      subst
        (λ o.
          within_limits g now per_ip per_day others new o (invite_request_load o (now - day) db) db
          ≡ (answered x, db'))
        own h)

-- The calls of request_invite from one address and all other requests, with at most `width` of these
-- calls between the limits and the insert at once.
abbrev pub CallsGo : Golib → Text → ℕ → ℕ → ℕ → ℕ → Db → ℕ → ℕ → Db → ℕ → Type 0
CallsGo g ip per_ip per_day width =
    Goes (requests_from ip) (InvitePasses per_ip per_day ip) (InviteEnters g) width

-- The same for the calls from all addresses.
abbrev pub AllCallsGo : Golib → ℕ → ℕ → ℕ → ℕ → Db → ℕ → ℕ → Db → ℕ → Type 0
AllCallsGo g per_ip per_day width =
    Goes requests_of_day (AnyPasses per_ip per_day) (InviteEnters g) width

AllCallsGo-below :
    (g : Golib) (per_ip per_day width : ℕ) {now inside later left : ℕ} {db after : Db}
    → 1 ≤ per_ip
    → 1 ≤ per_day
    → AllCallsGo g per_ip per_day width now db inside later after left
    → requests_of_day now db + inside < per_day + width
    → requests_of_day later after + left < per_day + width
AllCallsGo-below g per_ip per_day width a b =
    Run-below requests_of_day (AnyPasses per_ip per_day) (InviteEnters g) width per_day
      requests_of_day-older (λ t d free. (passed-loads t per_ip per_day free.0 d a b free.1).1)
      (requests_of_day-created g)

-- A call of request_invite that is answered leaves in the last 24 hours, together with the calls that
-- are still to insert theirs, fewer than InviteRequestsPerDay + width requests, whatever requests ran
-- before it and run between its limits and its insert, when at most `width` calls, from all
-- addresses, are between the two at once: at most InviteRequestsPerDay when the calls come one at a
-- time. (The limits are configured as positive numbers, the table is within them at first, the clock
-- does not go back, and the call comes from some address.)
pub file_request-requests_of_day :
    (g : Golib) (ip : Text) (per_ip per_day width first now inside left : ℕ) (others : Db → Db)
    (new : NewInviteRequest) (start db : Db) {x : InviteRequestRow} {db' : Db}
    → 1 ≤ per_ip
    → 1 ≤ per_day
    → requests_of_day first start ≤ per_day
    → AllCallsGo g per_ip per_day width first start 0 now db inside
    → inside < width
    → AllCallsGo g per_ip per_day width now db (suc inside) now (others db) (suc left)
    → new.ip_hash ≡ some ip
    → file_request g now per_ip per_day others new db ≡ (answered x, db')
    → requests_of_day now db' + left < per_day + width
file_request-requests_of_day g ip per_ip per_day width first now inside left others new start db {x}
      a b few before room between own h =
    let (passed, created) = file_request-parts g now per_ip per_day ip others new db own h in
    AllCallsGo-below g per_ip per_day width a b
      (request-Goes requests_of_day (AnyPasses per_ip per_day) (InviteEnters g) width room
        (ip, passed) between (new, x, created))
      (AllCallsGo-below g per_ip per_day width a b before (omega arith))
