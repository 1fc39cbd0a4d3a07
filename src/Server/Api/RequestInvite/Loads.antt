-- ===== src/Server/Api/RequestInvite/Loads.antt =====
-- What the two limits of request_invite count (internal/server/api.go).
use mathlib.Core.Option
use agents_board.Common.{
  suc, true, count-le, count-append_one, ℕ, ◌-◌, ◌≤◌, ◌<◌, ◌≡◌, ◌⊎◌, refl, arith, Bool, Option,
  none, some, inl, inr, List, [], ◌∷◌, ◌++◌, Text, Golib, count, count-eq-length-select, length,
  select, min_of, leb, Bool-cases, Result, ok, err, not_found, invalid_key, revoked, locked,
  duplicate, no_object, generation_mismatch, failure, validation,
}
use agents_board.Store.Types.{InviteRequestRow, parse_time, format_time, day}
use agents_board.Store.Views.{NewInviteRequest}
use agents_board.Store.Db.{Db}
use agents_board.Store.InviteRequests.{
  invite_request_load, create_invite_request, request_row, request_time, requested_since,
  from_ip_since,
}
use agents_board.Server.Handler.{answered, answered_after, store_answer}
use agents_board.Server.Api.RequestInvite.{limit_load, check_limits, request_error}

no_oldest : (xs : List InviteRequestRow) → min_of request_time xs ≡ none → length xs ≡ 0
no_oldest [] h = refl
no_oldest (r ∷ rs) h = absurd (ground arith)

pub limit-cases :
    (now bound load : ℕ) (o : Option ℕ) (db : Db) {u : Unit {0}} {db' : Db}
    → limit_load now bound load o db ≡ (answered u, db')
    → (db' ≡ db) × ((o ≡ none) ⊎ (load < bound))
limit-cases now bound load none db e = (ground arith, inl refl)
limit-cases now bound load (some t) db e = elim (Bool-cases (leb bound load)) [
  | inl f ↦ absurd (ground arith)
  | inr f ↦ (ground arith, inr (ground arith))
]

no_parsed : (o : Option ℕ) → Option.map parse_time o ≡ none → o ≡ none
no_parsed none h = refl
no_parsed (some t) h = absurd (ground arith)

-- The load that a limit lets through, for a test of rows.
below :
    (p : InviteRequestRow → Bool) (now bound : ℕ) (rows : List InviteRequestRow) (db : Db)
    {u : Unit {0}} {db' : Db}
    → 1 ≤ bound
    → limit_load now bound
        (count p rows)
        (Option.map parse_time (min_of request_time (select p rows)))
        db
      ≡ (answered u, db')
    → (db' ≡ db) × (count p rows < bound)
below p now bound rows db h e =
    let c =
      limit-cases now bound (count p rows)
        (Option.map parse_time (min_of request_time (select p rows))) db e in
    (
      c.0,
      elim c.1 [
        | inl n ↦ ground (
          arith,
          count-eq-length-select p rows,
          no_oldest (select p rows) (no_parsed (min_of request_time (select p rows)) n),
        )
        | inr few ↦ few
      ],
    )

create-rows :
    (g : Golib) (now : ℕ) (new : NewInviteRequest) (db : Db) {x : InviteRequestRow} {db' : Db}
    → create_invite_request g now new db ≡ ok (x, db')
    → db'.invite_requests ≡ db.invite_requests ++ request_row g now new db ∷ []
unfolding create_invite_request
create-rows g now new db h = ground arith

pub request_write-ok :
    (r : Result (InviteRequestRow × Db)) (db : Db) {x : InviteRequestRow} {db' : Db}
    → store_answer request_error r db ≡ (answered x, db')
    → r ≡ ok (x, db')
request_write-ok (ok (x, after)) db h = ground arith
request_write-ok (err not_found) db h = absurd (ground arith)
request_write-ok (err invalid_key) db h = absurd (ground arith)
request_write-ok (err revoked) db h = absurd (ground arith)
request_write-ok (err locked) db h = absurd (ground arith)
request_write-ok (err duplicate) db h = absurd (ground arith)
request_write-ok (err no_object) db h = absurd (ground arith)
request_write-ok (err generation_mismatch) db h = absurd (ground arith)
request_write-ok (err failure) db h = absurd (ground arith)
request_write-ok (err (validation f)) db h = absurd (ground arith)

-- What the two limits count: the requests of one address and those of all in 24 hours.
abbrev pub requests_from : Text → ℕ → Db → ℕ
requests_from ip now db = (invite_request_load (some ip) (now - day) db).from_ip

abbrev pub requests_of_day : ℕ → Db → ℕ
requests_of_day now db = (invite_request_load none (now - day) db).total

-- The check of request_invite for an address, and the write that the limits count.
abbrev pub InvitePasses : ℕ → ℕ → Text → ℕ → Db → Type 0
InvitePasses per_ip per_day ip now db =
    check_limits now per_ip per_day (some ip) (invite_request_load (some ip) (now - day) db) db
    ≡ (answered tt, db)

abbrev pub AnyPasses : ℕ → ℕ → ℕ → Db → Type 0
AnyPasses per_ip per_day now db = (ip : Text) × InvitePasses per_ip per_day ip now db

abbrev pub InviteEnters : Golib → ℕ → Db → Db → Type 0
InviteEnters g now db after =
    (new : NewInviteRequest) × (x : InviteRequestRow) × (create_invite_request g now new db
      ≡ ok (x, after))

pub passed-loads :
    (now per_ip per_day : ℕ) (ip : Text) (db : Db)
    → 1 ≤ per_ip
    → 1 ≤ per_day
    → InvitePasses per_ip per_day ip now db
    → (requests_from ip now db < per_ip) × (requests_of_day now db < per_day)
unfolding invite_request_load
passed-loads now per_ip per_day ip db a b h =
    let since = now - day in
    let load = invite_request_load (some ip) since db in
    answered_after (limit_load now per_ip load.from_ip load.oldest_from_ip)
      (λ u. limit_load now per_day load.total load.oldest_total) db
      (λ u d e k. (
        (below (from_ip_since (some ip) since) now per_ip db.invite_requests db a e).1,
        (below (requested_since since) now per_day db.invite_requests d b k).1,
      ))
      h

requested-older :
    (since later : ℕ) (r : InviteRequestRow)
    → since ≤ later
    → requested_since later r ≡ true
    → requested_since since r ≡ true
unfolding format_time
requested-older since later r h inside = ground arith

pub requests_of_day-older :
    (now later : ℕ) (db : Db) → now ≤ later → requests_of_day later db ≤ requests_of_day now db
unfolding invite_request_load
requests_of_day-older now later db h =
    count-le (requested_since (later - day)) (requested_since (now - day)) db.invite_requests
      (λ r. requested-older (now - day) (later - day) r (omega arith))

pub requests_from-older :
    (ip : Text) (now later : ℕ) (db : Db)
    → now ≤ later
    → requests_from ip later db ≤ requests_from ip now db
unfolding invite_request_load
requests_from-older ip now later db h =
    count-le (from_ip_since (some ip) (later - day)) (from_ip_since (some ip) (now - day))
      db.invite_requests
      (λ r inside. ground (arith, requested-older (now - day) (later - day) r (omega arith)))

pub requests_of_day-created :
    (g : Golib) (now : ℕ) (db after : Db)
    → InviteEnters g now db after
    → requests_of_day now after ≤ suc (requests_of_day now db)
unfolding invite_request_load
requests_of_day-created g now db after (new, x, h) =
    rw (create-rows g now new db h)
      (count-append_one (requested_since (now - day)) db.invite_requests _)

pub requests_from-created :
    (g : Golib) (ip : Text) (now : ℕ) (db after : Db)
    → InviteEnters g now db after
    → requests_from ip now after ≤ suc (requests_from ip now db)
unfolding invite_request_load
requests_from-created g ip now db after (new, x, h) =
    rw (create-rows g now new db h)
      (count-append_one (from_ip_since (some ip) (now - day)) db.invite_requests _)
