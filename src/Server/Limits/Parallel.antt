-- ===== src/Server/Limits/Parallel.antt =====
-- A limit of internal/server that is checked by one statement and counted by a later one, without a
-- lock: the requests between the two, beside those of every other handler.
use agents_board.Common.{ℕ, suc, ◌+◌, ◌≤◌, ◌<◌, arith}

-- `load u s` is what the limit counts at the time u, `Passes` its check and `Enters` the write that it
-- counts. At most `width` requests are between the two at once.
module _ {S : Type 0} (load : ℕ → S → ℕ) (Passes : ℕ → S → Type 0) (Enters : ℕ → S → S → Type 0)
    (width : ℕ) where
  -- The clock, the database and the number of requests between their check and their write.
  pub record Board : Type 0 where
    pub now : ℕ
    pub db : S
    pub inside : ℕ

  abbrev pub board : ℕ → S → ℕ → Board
  board now db inside = record { now = now; db = db; inside = inside }

  -- The steps: a request passes its check, makes its write, or fails at it; or another statement
  -- changes the database without adding to what the limit counts.
  pub data Move : Board → Board → Type 0 where
    check :
        {now later : ℕ} {db : S} {inside : ℕ}
        → now ≤ later
        → inside < width
        → Passes later db
        → Move (board now db inside) (board later db (suc inside))
    enter :
        {now later : ℕ} {db after : S} {inside : ℕ}
        → now ≤ later
        → Enters later db after
        → Move (board now db (suc inside)) (board later after inside)
    give_up :
        {now : ℕ} {db : S} {inside : ℕ} → Move (board now db (suc inside)) (board now db inside)
    elsewhere :
        {now later : ℕ} {db after : S} {inside : ℕ}
        → now ≤ later
        → ((u : ℕ) → load u after ≤ load u db)
        → Move (board now db inside) (board later after inside)

  pub data Run (first : Board) : Board → Type 0 where
    idle : Run first first
    more : {b c : Board} → Run first b → Move b c → Run first c

  -- From a clock, a database and a number of requests inside to others.
  abbrev pub Goes : ℕ → S → ℕ → ℕ → S → ℕ → Type 0
  Goes now db inside later after left = Run (board now db inside) (board later after left)

  Run-trans : {a b c : Board} → Run a b → Run b c → Run a c
  Run-trans r idle = r
  Run-trans r (more q m) = more (Run-trans r q) m

  -- A request from its check to its write, with what runs beside it.
  pub request-Goes :
      {now inside left : ℕ} {db middle after : S}
      → inside < width
      → Passes now db
      → Goes now db (suc inside) now middle (suc left)
      → Enters now middle after
      → Goes now db inside now after left
  request-Goes {now} room passed between write =
      let same : now ≤ now = omega arith in
      more (Run-trans (more idle (check same room passed)) between) (enter same write)

  module _ (limit : ℕ)
      (older : (now later : ℕ) (db : S) → now ≤ later → load later db ≤ load now db)
      (passed : (now : ℕ) (db : S) → Passes now db → load now db < limit)
      (entered : (now : ℕ) (db after : S)
        → Enters now db after
        → load now after ≤ suc (load now db)) where
    Move-below :
        {b c : Board}
        → Move b c
        → load b.now b.db + b.inside < limit + width
        → load c.now c.db + c.inside < limit + width
    Move-below (check {now} {later} {db} {inside} t room free) h =
        omega (arith, passed later db free)
    Move-below (enter {now} {later} {db} {after} {inside} t write) h =
        omega (arith, entered later db after write, older now later db t)
    Move-below give_up h = omega arith
    Move-below (elsewhere {now} {later} {db} {after} {inside} t fewer) h =
        omega (arith, fewer later, older now later db t)

    -- What the limit counts and the requests that are still to write.
    pub Run-below :
        {b c : Board}
        → Run b c
        → load b.now b.db + b.inside < limit + width
        → load c.now c.db + c.inside < limit + width
    Run-below idle h = h
    Run-below (more r m) h = Move-below m (Run-below r h)
