-- ===== src/Server/Api/Join/Attempts.antt =====
-- The attempts of join are counted, also the failed ones, and limited (internal/server/api.go).
use agents_board.Common.{
  ℕ, ◌+◌, ◌-◌, ◌≤◌, ◌≡◌, refl, arith, true, not, Option, none, some, List, Text, Golib, ok, Err,
  not_found, invalid_key, revoked, locked, duplicate, no_object, generation_mismatch, failure,
  validation, codes,
}
use agents_board.Store.Types.{RateEvent, join_attempt, hour}
use agents_board.Store.Views.{Agent}
use agents_board.Store.Db.{Db}
use agents_board.Store.Agents.{agent_by_key}
use agents_board.Store.Sessions.{create_session}
use agents_board.Store.Counters.{record_rate, rate_window}
use agents_board.Server.Limits.{window}
use agents_board.Server.Limits.Windows.{window-lt}
use agents_board.Server.Content.{Textlib}
use agents_board.Server.Handler.{
  write_error, answered, answered_after, Keeps, >>=-Keeps, store_read-Keeps, store_write-Keeps,
  store_read, store_write, stop_if, answer,
}
use agents_board.Server.Api.Parts.{stop_if-answered}
use agents_board.Server.Api.Join.{
  join_per_hour_per_ip, well_formed_key, limited_until, key_error, session_error, join_outcome,
  sign_in, limited_sign_in,
}

abbrev rates : Db → List RateEvent
rates db = db.rate_events

limited_until-Keeps : (o : Option ℕ) → Keeps rates (limited_until o)
limited_until-Keeps none db = refl
limited_until-Keeps (some t) db = refl

key_error-Keeps : (e : Err) → Keeps rates (key_error e)
key_error-Keeps not_found db = refl
key_error-Keeps invalid_key db = refl
key_error-Keeps revoked db = refl
key_error-Keeps locked db = refl
key_error-Keeps duplicate db = refl
key_error-Keeps no_object db = refl
key_error-Keeps generation_mismatch db = refl
key_error-Keeps failure db = refl
key_error-Keeps (validation f) db = refl

session_error-Keeps : (e : Err) → Keeps rates (session_error e)
session_error-Keeps not_found db = refl
session_error-Keeps invalid_key db = refl
session_error-Keeps revoked db = refl
session_error-Keeps locked db = refl
session_error-Keeps duplicate db = refl
session_error-Keeps no_object db = refl
session_error-Keeps generation_mismatch db = refl
session_error-Keeps failure db = refl
session_error-Keeps (validation f) db = refl

create_session-rates :
    (g : Golib) (now : ℕ) (token : Text) (agent : ℕ) (db : Db) (x : ℕ) (after : Db)
    → create_session g now token agent db ≡ ok (x, after)
    → rates after ≡ rates db
unfolding create_session
create_session-rates g now token agent db x after h = ground arith

sign_in-Keeps : (g : Golib) (now : ℕ) (token key : Text) → Keeps rates (sign_in g now token key)
unfolding sign_in
sign_in-Keeps g now token key =
    >>=-Keeps rates (store_read (agent_by_key g now key) key_error) _
      (store_read-Keeps rates (agent_by_key g now key) key_error key_error-Keeps)
      (λ a.
        >>=-Keeps rates (store_write (create_session g now token a.id) session_error)
          (λ x. answer a)
          (store_write-Keeps rates (create_session g now token a.id) session_error
            session_error-Keeps (create_session-rates g now token a.id))
          (λ x d. refl))

limited_sign_in-Keeps :
    (g : Golib) (now : ℕ) (ip token key : Text) → Keeps rates (limited_sign_in g now ip token key)
unfolding limited_sign_in
limited_sign_in-Keeps g now ip token key db =
    let limit = window join_attempt (some ip) (join_per_hour_per_ip + 1) hour now db in
    >>=-Keeps rates (limited_until limit) (λ u. sign_in g now token key) (limited_until-Keeps limit)
      (λ u. sign_in-Keeps g now token key) db

-- Every join with a well-formed key leaves one more attempt of its address in the table, whether it
-- succeeds, meets the limit, or names no agent.
pub join_outcome-record_rate :
    (g : Golib) (lib : Textlib) (now : ℕ) (ip token key : Text) (db : Db)
    → well_formed_key lib key ≡ true
    → (join_outcome g lib now ip token key db).1.rate_events
      ≡ (record_rate now join_attempt ip db).rate_events
unfolding join_outcome
join_outcome-record_rate g lib now ip token key db h =
    rw h (limited_sign_in-Keeps g now ip token key (record_rate now join_attempt ip db))

limit_passed :
    (o : Option ℕ) (db : Db) {u : Unit {0}} {db' : Db}
    → limited_until o db ≡ (answered u, db')
    → o ≡ none
limit_passed none db h = refl
limit_passed (some t) db h = absurd (ground arith)

few_attempts :
    (now : ℕ) (ip : Text) (db d : Db)
    → d ≡ db
    → window join_attempt
        (some ip)
        (join_per_hour_per_ip + 1)
        hour
        now
        (record_rate now join_attempt ip d)
      ≡ none
    → (rate_window join_attempt ip (now - hour) (record_rate now join_attempt ip db)).0
      ≤ join_per_hour_per_ip
few_attempts now ip db d same free = rw⁻¹ same (
    ground (
      arith,
      window-lt join_attempt ip (join_per_hour_per_ip + 1) hour now
          (record_rate now join_attempt ip d) (omega arith) free,
    ))

-- A join that signs in is among the first JoinPerHourPerIP attempts of its address in the hour that
-- ends with it, itself and the failed ones included.
pub join_outcome-rate_window :
    (g : Golib) (lib : Textlib) (now : ℕ) (ip token key : Text) (db : Db) (a : Agent) (db' : Db)
    → join_outcome g lib now ip token key db ≡ (answered a, db')
    → (rate_window join_attempt ip (now - hour) (record_rate now join_attempt ip db)).0
      ≤ join_per_hour_per_ip
unfolding join_outcome limited_sign_in
join_outcome-rate_window g lib now ip token key db a db' h =
    answered_after (stop_if (not (well_formed_key lib key)) (write_error 422 (codes "validation")))
      _ db
      (λ u d e h1.
        let same = (stop_if-answered (not (well_formed_key lib key)) _ db e).1 in
        let counted = record_rate now join_attempt ip d in
        let limit = window join_attempt (some ip) (join_per_hour_per_ip + 1) hour now counted in
        answered_after (limited_until limit) (λ v. sign_in g now token key) counted
          (λ v d2 e2 h2. few_attempts now ip db d same (limit_passed limit counted e2)) h1)
      h
