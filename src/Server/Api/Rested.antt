-- ===== src/Server/Api/Rested.antt =====
-- What the waits of apiReply (internal/server/api.go) say of the replies in the table.
use agents_board.Common.{
  ℕ, ◌+◌, ◌*◌, ◌≤◌, ◌<◌, ◌≡◌, refl, arith, none, some, inl, inr, [], ◌∷◌, List, All, All-imp,
  Option-cases, select, count, max_of, min_of, length, count-eq-length-select,
}
use agents_board.Store.Types.{PostRow, parse_time, second}
use agents_board.Store.Db.{Db}
use agents_board.Store.Joins.{replies}
use agents_board.Store.Activity.{activity, reply_by, recent_reply_by, post_time}
use agents_board.Server.Limits.{cooldown_remaining, daily_remaining}
use agents_board.Server.Api.Reply.{reply_cooldown, replies_per_day}
use agents_board.Server.Limits.Waiting.{cooldown_remaining-wait}
use agents_board.Server.Api.Gates.{daily_remaining-lt}

-- What stands before the insert of apiReply.
pub record IsRested (now author : ℕ) (db : Db) : Type 0 where
  pub rested :
      All
        (λ (p : PostRow). parse_time p.created_at + reply_cooldown * second ≤ now)
        (select (reply_by author) (replies db.posts))
  pub below : count (recent_reply_by now author) (replies db.posts) < replies_per_day

no_latest : (P : PostRow → Type 0) (xs : List PostRow) → max_of post_time xs ≡ none → All P xs
no_latest P [] h = tt
no_latest P (p ∷ ps) h = absurd (ground arith)

max_of-le :
    (xs : List PostRow) {m : ℕ}
    → max_of post_time xs ≡ some m
    → All (λ (p : PostRow). p.created_at ≤ m) xs
max_of-le [] h = tt
max_of-le (p ∷ ps) {m} h = elim (Option-cases (max_of post_time ps)) [
  | inl e ↦ (ground arith, no_latest _ ps e)
  | inr (k, e) ↦ (ground arith, All-imp _ _ ps (λ q below. ground arith) (max_of-le ps e))
]

cooldown-over :
    (last cooldown now : ℕ)
    → cooldown_remaining (some last) cooldown now ≡ 0
    → last + cooldown ≤ now
cooldown-over last cooldown now h = elim (cooldown_remaining-wait last cooldown now).1 [
  | inl lasting ↦ absurd (ground arith)
  | inr over ↦ over.0
]

pub last_reply-rested :
    (now author : ℕ) (db : Db)
    → cooldown_remaining (activity now author db).last_reply_at (reply_cooldown * second) now ≡ 0
    → All
        (λ (p : PostRow). parse_time p.created_at + reply_cooldown * second ≤ now)
        (select (reply_by author) (replies db.posts))
unfolding activity parse_time
last_reply-rested now author db h =
    let mine = select (reply_by author) (replies db.posts) in
    elim (Option-cases (max_of post_time mine)) [
      | inl e ↦ no_latest _ mine e
      | inr (m, e) ↦
          let over : parse_time m + reply_cooldown * second ≤ now =
            cooldown-over (parse_time m) (reply_cooldown * second) now (rw e at h) in
          All-imp _ _ mine (λ p below. ground arith) (max_of-le mine e)
    ]

no_oldest : (xs : List PostRow) → min_of post_time xs ≡ none → length xs ≡ 0
no_oldest [] h = refl
no_oldest (p ∷ ps) h = absurd (ground arith)

pub replies_today-lt :
    (now author : ℕ) (db : Db)
    → daily_remaining
        (activity now author db).replies_today
        replies_per_day
        (activity now author db).oldest_reply_in_window
        now
      ≡ 0
    → count (recent_reply_by now author) (replies db.posts) < replies_per_day
unfolding activity
replies_today-lt now author db h =
    let rows = select (recent_reply_by now author) (replies db.posts) in
    elim (daily_remaining-lt (count (recent_reply_by now author) (replies db.posts)) replies_per_day
      now _ h) [
        | inl few ↦ few
        | inr e ↦ elim (Option-cases (min_of post_time rows)) [
          | inl n ↦ ground (
            arith,
            count-eq-length-select (recent_reply_by now author) (replies db.posts),
            no_oldest rows n,
          )
          | inr (t, n) ↦ absurd (ground arith)
        ]
      ]
