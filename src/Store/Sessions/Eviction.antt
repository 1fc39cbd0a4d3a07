-- ===== src/Store/Sessions/Eviction.antt =====
-- CreateSession's eviction (internal/store/sessions.go): no agent keeps more than five sessions,
-- the other agents keep theirs, and the new session is among the kept ones.
use agents_board.Common.{
  ℕ, ◌+◌, ◌≤◌, ◌<◌, ◌≡◌, refl, ◌∙◌, Bool, true, false, not, ◌&&◌, ◌||◌, some, inl, inr, List, [],
  ◌∷◌, ◌++◌, arith, ◌==◌, Bool-cases, length, take, length-take-le, All, All-imp, All-select,
  All-both, select-append, ==_self, All-every, count_of_none, ◌≢◌, select, first, exists_row, count,
  insert_by, order_by, delete, IsAscending, count-select,
}
use agents_board.Store.Types.{SessionRow}
use agents_board.Store.Sessions.{
  max_sessions_per_agent, of_agent, newer_session, kept_sessions, evict,
}

module _ {ℓ} {A : Type ℓ} (f : A → ℕ) where
  count_above : (n : ℕ) (xs : List A) → All (λ x. n < f x) xs → count (λ x. n == f x) xs ≡ 0
  count_above n [] h = refl
  count_above n (x ∷ xs) h = ground (arith, count_above n xs h.1)

  -- A rowid stands in at most one row.
  count_id-le : (n : ℕ) (xs : List A) → IsAscending f xs → count (λ x. n == f x) xs ≤ 1
  count_id-le n [] a = omega arith
  count_id-le n (x ∷ xs) a = elim (Bool-cases (n == f x)) [
    | inl e ↦
        let same : n ≡ f x = ground arith in
        rw (e, count_above n xs (All-imp (λ y. f x < f y) _ xs (λ y l. rw same l) a.0))
          (omega arith)
    | inr e ↦ rw e (ground (arith, count_id-le n xs a.1))
  ]

  count-or-le :
      (p q : A → Bool) (xs : List A) → count (λ x. p x || q x) xs ≤ count p xs + count q xs
  count-or-le p q [] = omega arith
  count-or-le p q (x ∷ xs) = ground (arith, count-or-le p q xs)

  -- As many rows have their rowid in a list as the list is long, at most.
  count_listed-le :
      (ks xs : List A)
      → IsAscending f xs
      → count (λ x. exists_row (λ k. f k == f x) ks) xs ≤ length ks
  count_listed-le [] xs a =
      rw (count_of_none (λ x. exists_row (λ k. f k == f x) []) xs (All-every _ xs (λ x. refl)))
        (omega arith)
  count_listed-le (k ∷ ks) xs a = omega (
    arith,
    count-or-le (λ x. f k == f x) (λ x. exists_row (λ j. f j == f x) ks) xs,
    count_id-le (f k) xs a,
    count_listed-le ks xs a,
  )

  count-imp :
      (p q : A → Bool) (xs : List A) → ((x : A) → p x ≡ true → q x ≡ true) → count p xs ≤ count q xs
  count-imp p q [] h = omega arith
  count-imp p q (x ∷ xs) h = elim (Bool-cases (p x)) [
    | inl e ↦ rw (e, h x e) (omega (arith, count-imp p q xs h))
    | inr e ↦ rw e (omega (arith, count-imp p q xs h))
  ]

abbrev pub rowid_of : SessionRow → ℕ
rowid_of s = s.rowid

-- After the eviction the agent has at most MaxSessionsPerAgent sessions.
pub count-evict-le :
    (id : ℕ) (sessions : List SessionRow)
    → IsAscending rowid_of sessions
    → count (of_agent id) (evict id sessions) ≤ max_sessions_per_agent
unfolding evict kept_sessions
count-evict-le id sessions a =
    let kept = kept_sessions id sessions in
    let listed = λ (s : SessionRow). exists_row (λ (k : SessionRow). k.rowid == s.rowid) kept in
    rw (count-select (of_agent id) _ sessions) (
      omega (
        arith,
        count-imp rowid_of (λ s. of_agent id s && not (of_agent id s && not (listed s))) listed
            sessions (λ s e. ground arith),
        count_listed-le rowid_of kept sessions a,
        length-take-le max_sessions_per_agent
            (order_by newer_session (select (of_agent id) sessions)),
      ))

-- The sessions of other agents are untouched, in their order.
pub select-evict_other :
    (id other : ℕ) (sessions : List SessionRow)
    → other ≢ id
    → select (of_agent other) (evict id sessions) ≡ select (of_agent other) sessions
unfolding evict
select-evict_other id other sessions ne = go sessions
  where
    go :
        (xs : List SessionRow)
        → select (of_agent other) (
            delete
              (λ (s : SessionRow).
                of_agent id s
                && not (
                    exists_row
                      (λ (k : SessionRow). k.rowid == s.rowid)
                      (kept_sessions id sessions)))
              xs)
          ≡ select (of_agent other) xs
    go [] = refl
    go (x ∷ xs) = ground (arith, go xs)

-- A row that stands before all others of a list, by the order, is sorted to the front.
front_of_order :
    (xs : List SessionRow) (y : SessionRow)
    → All (λ x. newer_session x y ≡ false) xs
    → (rest : List SessionRow) × (order_by newer_session (xs ++ y ∷ []) ≡ y ∷ rest)
front_of_order [] y h = ([], refl)
front_of_order (x ∷ xs) y h =
    let (rest, e) = front_of_order xs y h.1 in (insert_by newer_session x rest, rw (e, h.0) refl)

first-delete_last :
    (test gone : SessionRow → Bool) (xs : List SessionRow) (y : SessionRow)
    → All (λ s. test s ≡ false) xs
    → test y ≡ true
    → gone y ≡ false
    → first test (delete gone (xs ++ y ∷ [])) ≡ some y
first-delete_last test gone [] y h t k = ground arith
first-delete_last test gone (x ∷ xs) y h t k =
    ground (arith, first-delete_last test gone xs y h.1 t k)

kept_sessions-eq :
    (id : ℕ) (sessions : List SessionRow)
    → kept_sessions id sessions
      ≡ take max_sessions_per_agent (order_by newer_session (select (of_agent id) sessions))
unfolding kept_sessions
kept_sessions-eq id sessions = refl

-- With a clock that has not gone back, the session that was just inserted is kept.
pub first-evict :
    (sessions : List SessionRow) (y : SessionRow)
    → All (λ s. rowid_of s < rowid_of y) sessions
    → All (λ (s : SessionRow). s.created_at ≤ y.created_at) sessions
    → (test : SessionRow → Bool) → All (λ s. test s ≡ false) sessions
    → test y ≡ true
    → first test (evict y.agent_id (sessions ++ y ∷ [])) ≡ some y
unfolding evict
first-evict sessions y later clock test others mine =
    let id = y.agent_id in
    let older : All (λ x. newer_session x y ≡ false) (select (of_agent id) sessions) =
      All-select _ (of_agent id) sessions (
        All-imp _ _ sessions (λ (x : SessionRow) h. ground arith)
          (All-both _ _ sessions later clock)) in
    let (rest, e) = front_of_order (select (of_agent id) sessions) y older in
    let mine_too : select (of_agent id) (sessions ++ y ∷ [])
        ≡ select (of_agent id) sessions ++ y ∷ [] =
      select-append (of_agent id) sessions (y ∷ []) ∙ (rw ==_self refl) in
    let kept : kept_sessions id (sessions ++ y ∷ []) ≡ y ∷ take 4 rest =
      rw (kept_sessions-eq, mine_too, e) refl in
    first-delete_last test _ sessions y others mine
      (rw kept (rw (==_self y.agent_id) (rw (==_self y.rowid) refl)))
