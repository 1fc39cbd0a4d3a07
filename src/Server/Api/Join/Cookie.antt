-- ===== src/Server/Api/Join/Cookie.antt =====
-- The session of a join is the session of the requests after it: join of internal/server/api.go with
-- resolveSession of auth.go.
use mathlib.Core.Path.{subst}
use agents_board.Common.{
  Bool, ℕ, ◌+◌, ◌<◌, ◌≤◌, ◌≡◌, ◌≢◌, refl, sym, arith, false, not, Option, none, some, inl, inr, All,
  Text, is_empty, Golib, Result-cases, ok, Err, not_found, invalid_key, revoked, locked, duplicate,
  no_object, generation_mismatch, failure, validation, codes,
}
use agents_board.Store.Types.{SessionRow, format_time, parse_time, join_attempt, hour}
use agents_board.Store.Views.{Agent, Session}
use agents_board.Store.Db.{Db}
use agents_board.Store.Agents.{agent_by_key}
use agents_board.Store.Sessions.{session_ttl, create_session, session_agent, touch_session}
use agents_board.Store.Sessions.SignIn.{create_session-session_agent}
use agents_board.Store.Counters.{record_rate}
use agents_board.Server.Limits.{window}
use agents_board.Server.Content.{Textlib}
use agents_board.Server.Handler.{
  answered, answered_after, write_error, store_read, store_write, stop_if, answer,
}
use agents_board.Server.Api.Parts.{stop_if-answered, read_answer-ok, store_answer-ok}
use agents_board.Server.Api.Session.{Resolved, resolved_at, resolve_session}
use agents_board.Server.Api.Join.{
  join_per_hour_per_ip, well_formed_key, limited_until, key_error, session_error, join_outcome,
  sign_in, limited_sign_in,
}

key_error-refused : (e : Err) (db : Db) {a : Agent} {db' : Db} → key_error e db ≢ (answered a, db')
key_error-refused not_found db h = absurd (ground arith)
key_error-refused invalid_key db h = absurd (ground arith)
key_error-refused revoked db h = absurd (ground arith)
key_error-refused locked db h = absurd (ground arith)
key_error-refused duplicate db h = absurd (ground arith)
key_error-refused no_object db h = absurd (ground arith)
key_error-refused generation_mismatch db h = absurd (ground arith)
key_error-refused failure db h = absurd (ground arith)
key_error-refused (validation f) db h = absurd (ground arith)

session_error-refused :
    (e : Err) (db : Db) {t : ℕ} {db' : Db} → session_error e db ≢ (answered t, db')
session_error-refused not_found db h = absurd (ground arith)
session_error-refused invalid_key db h = absurd (ground arith)
session_error-refused revoked db h = absurd (ground arith)
session_error-refused locked db h = absurd (ground arith)
session_error-refused duplicate db h = absurd (ground arith)
session_error-refused no_object db h = absurd (ground arith)
session_error-refused generation_mismatch db h = absurd (ground arith)
session_error-refused failure db h = absurd (ground arith)
session_error-refused (validation f) db h = absurd (ground arith)

-- The session that a successful sign-in makes.
abbrev Made : Golib → ℕ → Text → Agent → Db → Db → Type 0
Made g now token a db db' = (t : ℕ) × (create_session g now token a.id db ≡ ok (t, db'))

limited_until-same :
    (o : Option ℕ) (db : Db) {u : Unit {0}} {db' : Db}
    → limited_until o db ≡ (answered u, db')
    → db' ≡ db
limited_until-same none db h = ground arith
limited_until-same (some t) db h = absurd (ground arith)

answer-Made :
    (g : Golib) (now : ℕ) (token : Text) (c : Agent) (d d1 d2 : Db) {a : Agent} {t : ℕ} {db' : Db}
    → d1 ≡ d
    → create_session g now token c.id d1 ≡ ok (t, d2)
    → answer c d2 ≡ (answered a, db')
    → Made g now token a d db'
answer-Made g now token c d d1 d2 {a} {t} {db'} same made h = (t, ground arith)

sign_in-Made :
    (g : Golib) (now : ℕ) (token key : Text) (d : Db) {a : Agent} {db' : Db}
    → sign_in g now token key d ≡ (answered a, db')
    → Made g now token a d db'
unfolding sign_in
sign_in-Made g now token key d h =
    answered_after (store_read (agent_by_key g now key) key_error) _ d
      (λ c d1 e h1.
        answered_after (store_write (create_session g now token c.id) session_error) (λ x. answer c)
          d1
          (λ t d2 e2 h2.
            answer-Made g now token c d d1 d2
              (read_answer-ok key_error (agent_by_key g now key d) d (λ x. key_error-refused x d)
                e).1
              (store_answer-ok session_error (create_session g now token c.id d1) d1
                (λ x. session_error-refused x d1) e2)
              h2)
          h1)
      h

limited_sign_in-Made :
    (g : Golib) (now : ℕ) (ip token key : Text) (d : Db) {a : Agent} {db' : Db}
    → limited_sign_in g now ip token key d ≡ (answered a, db')
    → Made g now token a d db'
unfolding limited_sign_in
limited_sign_in-Made g now ip token key d {a} {db'} h =
    let limit = window join_attempt (some ip) (join_per_hour_per_ip + 1) hour now d in
    answered_after (limited_until limit) (λ u. sign_in g now token key) d
      (λ u d1 e h1.
        subst (λ x. Made g now token a x db') (limited_until-same limit d e)
          (sign_in-Made g now token key d1 h1))
      h

join_outcome-Made :
    (g : Golib) (lib : Textlib) (now : ℕ) (ip token key : Text) (db : Db) {a : Agent} {db' : Db}
    → join_outcome g lib now ip token key db ≡ (answered a, db')
    → Made g now token a (record_rate now join_attempt ip db) db'
unfolding join_outcome
join_outcome-Made g lib now ip token key db {a} {db'} h =
    answered_after (stop_if (not (well_formed_key lib key)) (write_error 422 (codes "validation")))
      _ db
      (λ u d e h1.
        subst (λ x. Made g now token a (record_rate now join_attempt ip x) db')
          (stop_if-answered (not (well_formed_key lib key)) _ db e).1
          (limited_sign_in-Made g now ip token key (record_rate now join_attempt ip d) h1))
      h

-- A session with its agent, and no revocation.
abbrev pub SignedIn : (Option Resolved × Bool) × Db → ℕ → Type 0
SignedIn ((none, is_revoked), db) id = ⊥
SignedIn ((some s, is_revoked), db) id = (is_revoked ≡ false) × (s.agent.id ≡ id)

resolved_at-SignedIn :
    (g : Golib) (now : ℕ) (token : Text) (s : Session) (a : Agent) (db : Db)
    → SignedIn (resolved_at g now token (ok (s, a), db)) a.id
resolved_at-SignedIn g now token s a db = elim (Result-cases (touch_session g now token db)) [
  | inl (e, f) ↦ rw f (refl, refl)
  | inr (((extended, expiry), after), f) ↦ rw f (refl, refl)
]

resolve_session-SignedIn :
    (g : Golib) (now : ℕ) (token : Text) (s : Session) (a : Agent) (db : Db)
    → is_empty token ≡ false
    → session_agent g now token db ≡ (ok (s, a), db)
    → SignedIn (resolve_session g now token db) a.id
unfolding resolve_session
resolve_session-SignedIn g now token s a db given found =
    rw (given, found) (resolved_at-SignedIn g now token s a db)

kept_clock :
    (now : ℕ) (ip : Text) (db : Db) → (record_rate now join_attempt ip db).sessions ≡ db.sessions
unfolding record_rate
kept_clock now ip db = refl

-- A join that signs in hands out a token that works: on the database that the join leaves, a request
-- with that token as its cookie, at any time before the session expires, is resolved to the agent of
-- the key, and not as a revoked one. (The token is not empty, and the clock has not gone back: no
-- stored session is newer than this one.)
pub join_outcome-resolve_session :
    (g : Golib) (lib : Textlib) (now later : ℕ) (ip token key : Text) (db : Db) (a : Agent)
    (db' : Db)
    → is_empty token ≡ false
    → All (λ (s : SessionRow). s.created_at ≤ format_time now) db.sessions
    → later < parse_time (format_time (now + session_ttl))
    → join_outcome g lib now ip token key db ≡ (answered a, db')
    → SignedIn (resolve_session g later token db') a.id
join_outcome-resolve_session g lib now later ip token key db a db' given clock live h =
    let (t, made) = join_outcome-Made g lib now ip token key db h in
    let (s, owner, found, x1, x2, x3, x4, mine, x5) =
      create_session-session_agent g now later token a.id (record_rate now join_attempt ip db) made
        (subst (All (λ (s : SessionRow). s.created_at ≤ format_time now))
          (sym (kept_clock now ip db)) clock)
        live in
    subst (SignedIn (resolve_session g later token db')) mine
      (resolve_session-SignedIn g later token s owner db' given found)
