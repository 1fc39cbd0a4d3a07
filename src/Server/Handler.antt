-- ===== src/Server/Handler.antt =====
-- A request handler as a function of the database: internal/server/respond.go and the early
-- returns of api.go. A handler answers with its JSON body or with an error envelope, and leaves a
-- database either way. Hints are left out.
use mathlib.Core.Path.{◌≡◌, refl, sym, ap, ◌∙◌}
use agents_board.Common.{
  ◌⊎◌, inl, inr, Result-cases, arith, ℕ, Bool, true, false, [], Text, codes, ltb, if◌then◌else◌,
  Err, Result, ok, err,
}
use agents_board.Store.Db.{Db}

-- The status and the ErrorBody that it is sent with.
pub record Refusal : Type 0 where
  pub status : ℕ
  pub error : Text
  pub field : Text
  pub reason : Text
  pub retry_after_s : ℕ

pub data Answer {ℓ} (A : Type ℓ) : Type ℓ where
  refused : Refusal → Answer A
  answered : A → Answer A

abbrev pub Handler {ℓ} : Type ℓ → Type ℓ
Handler A = Db → Answer A × Db

infixl 5 ◌>>=◌ ◌>>◌
abbrev pub after_answer {ℓ κ} :
    {A : Type ℓ} {B : Type κ} → Answer A × Db → (A → Handler B) → Answer B × Db
after_answer (refused r, db) next = (refused r, db)
after_answer (answered a, db) next = next a db

abbrev pub ◌>>=◌ {ℓ κ} : {A : Type ℓ} {B : Type κ} → Handler A → (A → Handler B) → Handler B
(m >>= next) db = after_answer (m db) next

abbrev pub ◌>>◌ {ℓ} : {B : Type ℓ} → Handler (Unit {0}) → Handler B → Handler B
m >> next = m >>= λ done. next

abbrev pub answer {ℓ} : {A : Type ℓ} → A → Handler A
answer a db = (answered a, db)

abbrev pub refuse_with {ℓ} : {A : Type ℓ} → Refusal → Handler A
refuse_with r db = (refused r, db)

-- `if test { write the refusal; return }`
abbrev pub stop_if : Bool → Refusal → Handler (Unit {0})
stop_if true r = refuse_with r
stop_if false r = answer tt

-- A change of the database that cannot fail.
abbrev pub write : (Db → Db) → Handler (Unit {0})
write f db = (answered tt, f db)

-- A read that cannot fail.
abbrev pub read_db {ℓ} : {A : Type ℓ} → (Db → A) → Handler A
read_db f db = (answered (f db), db)

abbrev pub write_error : ℕ → Text → Refusal
write_error status code = record {
  status = status;
  error = code;
  field = [];
  reason = [];
  retry_after_s = 0;
}

abbrev pub write_validation : Text → Refusal
write_validation f = record (write_error 422 (codes "validation")) { field = f }

abbrev pub write_blocked : Text → Refusal
write_blocked why = record (write_error 422 (codes "content_blocked")) { reason = why }

abbrev pub write_rate_limited : ℕ → Refusal
write_rate_limited retry = record (write_error 429 (codes "rate_limited")) {
  retry_after_s = if ltb retry 1 then 1 else retry;
}

abbrev pub internal : Refusal
internal = write_error 500 (codes "internal")

-- A store method that writes: a refused one is rolled back, and answered by the handler's switch.
abbrev pub store_answer {ℓ} : {A : Type ℓ} → (Err → Handler A) → Result (A × Db) → Handler A
store_answer on_error (err e) db = on_error e db
store_answer on_error (ok (a, after)) db = (answered a, after)

abbrev pub store_write {ℓ} : {A : Type ℓ} → (Db → Result (A × Db)) → (Err → Handler A) → Handler A
store_write op on_error db = store_answer on_error (op db) db

abbrev pub read_answer {ℓ} : {A : Type ℓ} → (Err → Handler A) → Result A → Handler A
read_answer on_error (err e) = on_error e
read_answer on_error (ok a) = answer a

abbrev pub store_read {ℓ} : {A : Type ℓ} → (Db → Result A) → (Err → Handler A) → Handler A
store_read op on_error db = read_answer on_error (op db) db

after_answer-split {ℓ κ} :
    {A : Type ℓ} {B : Type κ} (x : Answer A × Db) (next : A → Handler B) {b : B} {db' : Db}
    → after_answer x next ≡ (answered b, db')
    → (a : A) × (mid : Db) × (x ≡ (answered a, mid)) × (next a mid ≡ (answered b, db'))
after_answer-split (refused r, db) next h = absurd (ground arith)
after_answer-split (answered a, db) next h = (a, db, refl, h)

-- A request that is answered has passed each of its steps.
pub >>=-eq-answered {ℓ κ} :
    {A : Type ℓ} {B : Type κ} (m : Handler A) (next : A → Handler B) (db : Db) {b : B} {db' : Db}
    → (m >>= next) db ≡ (answered b, db')
    → (a : A) × (mid : Db) × (m db ≡ (answered a, mid)) × (next a mid ≡ (answered b, db'))
>>=-eq-answered m next db h = after_answer-split (m db) next h

after_answer-refused {ℓ κ} :
    {A : Type ℓ} {B : Type κ} (x : Answer A × Db) (next : A → Handler B) {r : Refusal} {db' : Db}
    → after_answer x next ≡ (refused r, db')
    → (x ≡ (refused r, db'))
      ⊎ ((a : A) × (mid : Db) × (x ≡ (answered a, mid)) × (next a mid ≡ (refused r, db')))
after_answer-refused (refused s, db) next h = inl (ground arith)
after_answer-refused (answered a, db) next h = inr (a, db, refl, h)

-- A request that is refused is refused by its first step or after it.
pub >>=-eq-refused {ℓ κ} :
    {A : Type ℓ} {B : Type κ} (m : Handler A) (next : A → Handler B) (db : Db) {r : Refusal}
    {db' : Db}
    → (m >>= next) db ≡ (refused r, db')
    → (m db ≡ (refused r, db'))
      ⊎ ((a : A) × (mid : Db) × (m db ≡ (answered a, mid)) × (next a mid ≡ (refused r, db')))
>>=-eq-refused m next db h = after_answer-refused (m db) next h

-- A step that leaves the database as it is.
abbrev pub KeepsDb {ℓ} : {A : Type ℓ} → Handler A → Type 0
KeepsDb m = (db : Db) → (m db).1 ≡ db

-- What follows from each way to refuse, for a step that leaves the database and the rest after it.
pub refused_either {ℓ κ μ} :
    {A : Type ℓ} {B : Type κ} {C : Type μ} (m : Handler A) (next : A → Handler B) (db : Db)
    {r : Refusal} {db' : Db}
    → KeepsDb m
    → (db' ≡ db → C)
    → ((a : A) → m db ≡ (answered a, db) → next a db ≡ (refused r, db') → C)
    → (m >>= next) db ≡ (refused r, db')
    → C
refused_either m next db keeps first rest h = elim (>>=-eq-refused m next db h) [
  | inl e ↦ first (sym (ap (λ x. x.1) e) ∙ keeps db)
  | inr (a, mid, e, f) ↦
      let same = sym (ap (λ x. x.1) e) ∙ keeps db in
      rest a (e ∙ ap (λ d. (answered a, d)) same) (sym (ap (next a) same) ∙ f)
]

-- What follows from each way to answer, for a step and the rest after it.
pub answered_after {ℓ κ μ} :
    {A : Type ℓ} {B : Type κ} {C : Type μ} (m : Handler A) (next : A → Handler B) (db : Db) {b : B}
    {db' : Db}
    → ((a : A) (mid : Db) → m db ≡ (answered a, mid) → next a mid ≡ (answered b, db') → C)
    → (m >>= next) db ≡ (answered b, db')
    → C
answered_after m next db conclude h =
    let (a, mid, e, f) = >>=-eq-answered m next db h in conclude a mid e f

-- A step that leaves a part of the database as it is.
abbrev pub Keeps {ℓ} : {A : Type ℓ} {X : Type 0} → (Db → X) → Handler A → Type 0
Keeps part m = (db : Db) → part (m db).1 ≡ part db

after_answer-Keeps {ℓ κ} :
    {A : Type ℓ} {B : Type κ} {X : Type 0} (part : Db → X) (x : Answer A × Db)
    (next : A → Handler B)
    → ((a : A) → Keeps part (next a))
    → part (after_answer x next).1 ≡ part x.1
after_answer-Keeps part (refused r, db) next k = refl
after_answer-Keeps part (answered a, db) next k = k a db

pub >>=-Keeps {ℓ κ} :
    {A : Type ℓ} {B : Type κ} {X : Type 0} (part : Db → X) (m : Handler A) (next : A → Handler B)
    → Keeps part m
    → ((a : A) → Keeps part (next a))
    → Keeps part (m >>= next)
>>=-Keeps part m next first rest db = after_answer-Keeps part (m db) next rest ∙ first db

pub store_read-Keeps {ℓ} :
    {A : Type ℓ} {X : Type 0} (part : Db → X) (op : Db → Result A) (on_error : Err → Handler A)
    → ((e : Err) → Keeps part (on_error e))
    → Keeps part (store_read op on_error)
store_read-Keeps part op on_error k db = elim (Result-cases (op db)) [
  | inl (e, f) ↦ rw f (k e db)
  | inr (a, f) ↦ rw f refl
]

pub store_write-Keeps {ℓ} :
    {A : Type ℓ} {X : Type 0} (part : Db → X) (op : Db → Result (A × Db))
    (on_error : Err → Handler A)
    → ((e : Err) → Keeps part (on_error e))
    → ((db : Db) (a : A) (after : Db) → op db ≡ ok (a, after) → part after ≡ part db)
    → Keeps part (store_write op on_error)
store_write-Keeps part op on_error k kept db = elim (Result-cases (op db)) [
  | inl (e, f) ↦ rw f (k e db)
  | inr ((a, after), f) ↦ rw f (kept db a after f)
]
