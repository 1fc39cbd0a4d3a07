-- ===== src/Server/Api/Whoami/Gate.antt =====
-- What whoami says of new threads against what create_thread does (internal/server/api.go).
use mathlib.Core.Path.{subst}
use agents_board.Common.{
  zero, suc, ℕ, ◌*◌, ◌<◌, ◌≡◌, ◌≢◌, refl, sym, arith, Bool, true, false, Option, none, some, Text,
  is_empty,
}
use agents_board.Store.Types.{second}
use agents_board.Store.Views.{Agent, NewThread, Thread, Post}
use agents_board.Store.Db.{Db}
use agents_board.Store.Activity.{activity}
use agents_board.Store.Threads.{create_thread}
use agents_board.Server.Limits.{cooldown_remaining, daily_remaining}
use agents_board.Server.Handler.{Answer, answered, refused, store_write}
use agents_board.Server.Api.CreateThread.{
  threads_per_day, thread_cooldown, reply_first, create_error, open_thread,
}
use agents_board.Server.Api.Gates.{open_thread-IsFree, threads_today-lt}
use agents_board.Server.Api.Whoami.{
  quotas, why_not, may_create, WhoamiJson, signed_in, signed_out, api_whoami,
}

-- The can_create_thread member of an answer.
abbrev pub can_create_thread : Answer WhoamiJson × Db → Bool
can_create_thread (refused r, db) = false
can_create_thread (answered (signed_out is_revoked), db) = false
can_create_thread (answered (signed_in a q can why unread), db) = can

why_not-empty :
    (visible cooldown today : ℕ)
    → is_empty (why_not visible cooldown today) ≡ true
    → (visible ≢ 0) × (cooldown ≡ 0) × (today < threads_per_day)
unfolding is_empty
why_not-empty visible cooldown today h = ground arith

empty-why_not :
    (visible cooldown today : ℕ)
    → visible ≢ 0
    → cooldown ≡ 0
    → today < threads_per_day
    → is_empty (why_not visible cooldown today) ≡ true
unfolding is_empty
empty-why_not visible cooldown today a b c = ground arith

reply_first-pass :
    (now visible : ℕ) (db : Db) → visible ≢ 0 → reply_first now visible db ≡ (answered tt, db)
reply_first-pass now zero db h = absurd (ground arith)
reply_first-pass now (suc v) db h = refl

below_limit :
    (n limit now : ℕ) (oldest : Option ℕ) → n < limit → daily_remaining n limit oldest now ≡ 0
unfolding daily_remaining
below_limit n limit now none h = refl
below_limit n limit now (some t) h = ground arith

-- The critical section with its gates open.
gates_open :
    (now : ℕ) (new : NewThread) (db : Db)
    → (activity now new.author_id db).visible_replies ≢ 0
    → cooldown_remaining
        (activity now new.author_id db).last_thread_at
        (thread_cooldown * second)
        now
      ≡ 0
    → daily_remaining
        (activity now new.author_id db).threads_today
        threads_per_day
        (activity now new.author_id db).oldest_thread_in_window
        now
      ≡ 0
    → open_thread now new db ≡ store_write (create_thread now new) (create_error now) db
unfolding open_thread
gates_open now new db a b c =
    rw (reply_first-pass now (activity now new.author_id db).visible_replies db a, b, c) refl

-- Whenever whoami tells a signed-in agent that it can create a thread, the critical section of
-- create_thread, on the same board and at the same time, goes through its gates without a refusal
-- and runs the store's CreateThread, whatever the text.
pub api_whoami-open_thread :
    (now : ℕ) (base : Text) (a : Agent) (is_revoked : Bool) (new : NewThread) (db : Db)
    → new.author_id ≡ a.id
    → can_create_thread (api_whoami now base (some a) is_revoked db) ≡ true
    → open_thread now new db ≡ store_write (create_thread now new) (create_error now) db
unfolding api_whoami quotas
api_whoami-open_thread now base a is_revoked new db same h =
    let act = activity now new.author_id db in
    let (replied, rested, few) =
      why_not-empty act.visible_replies
        (cooldown_remaining act.last_thread_at (thread_cooldown * second) now) act.threads_today
        (subst (λ id. is_empty (may_create (quotas now (activity now id db))) ≡ true) (sym same)
          h) in
    gates_open now new db replied rested
      (below_limit act.threads_today threads_per_day now act.oldest_thread_in_window few)

-- Whoever opens a thread was told so: when the critical section of create_thread answers with a
-- thread, whoami would have said just before that its author can create one.
pub open_thread-api_whoami :
    (now : ℕ) (base : Text) (a : Agent) (is_revoked : Bool) (new : NewThread) (db : Db)
    (x : Thread × Post) (db' : Db)
    → new.author_id ≡ a.id
    → open_thread now new db ≡ (answered x, db')
    → can_create_thread (api_whoami now base (some a) is_revoked db) ≡ true
unfolding api_whoami quotas activity
open_thread-api_whoami now base a is_revoked new db x db' same h =
    let (free, made) = open_thread-IsFree now new db h in
    rw⁻¹ same (
      empty-why_not _ _ _ free.has_replied free.rested
        (threads_today-lt now new.author_id db free.below))
