-- ===== src/Common/Sql.antt =====
-- The SQL statements of the source, over tables that are lists of rows in rowid order.
use Prim.Native.Nat.{ℕ, suc, ◌+◌, ◌≤◌, ◌<◌, min, max}
use mathlib.Core.Path.{◌≡◌, refl}
use mathlib.Core.Logic.{inl, inr}
use mathlib.Core.Bool.{Bool, false, not, ◌||◌}
use mathlib.Core.Option.{Option, none, some}
use mathlib.Core.List.{List, [], ◌∷◌, ◌++◌}
use native.Mathlib.Omega.{arith}
use agents_board.Common.Tests.{if◌then◌else◌, Bool-cases}
use agents_board.Common.Lists.{length, All}

module _ {ℓ} {A : Type ℓ} where
  -- SELECT * … WHERE p
  abbrev pub select : (A → Bool) → List A → List A
  select p [] = []
  select p (x ∷ xs) = let rest = select p xs in if p x then x ∷ rest else rest

  -- The one row of a lookup by a unique column (sql.ErrNoRows is `none`).
  abbrev pub first : (A → Bool) → List A → Option A
  first p [] = none
  first p (x ∷ xs) = let rest = first p xs in if p x then some x else rest

  -- SELECT EXISTS (… WHERE p)
  abbrev pub exists_row : (A → Bool) → List A → Bool
  exists_row p [] = false
  exists_row p (x ∷ xs) = p x || exists_row p xs

  -- SELECT COUNT(*) … WHERE p
  abbrev pub count : (A → Bool) → List A → ℕ
  count p [] = 0
  count p (x ∷ xs) = (if p x then 1 else 0) + count p xs

  -- UPDATE … SET f WHERE p
  abbrev pub update : (A → Bool) → (A → A) → List A → List A
  update p f [] = []
  update p f (x ∷ xs) = (if p x then f x else x) ∷ update p f xs

  -- DELETE … WHERE p
  abbrev pub delete : (A → Bool) → List A → List A
  delete p xs = select (λ x. not (p x)) xs

  -- MIN(f) and MAX(f), NULL over no rows
  abbrev pub min_of : (A → ℕ) → List A → Option ℕ
  min_of f [] = none
  min_of f (x ∷ xs) = elim (min_of f xs) [ none ↦ some (f x) | some m ↦ some (min (f x) m) ]

  abbrev pub max_of : (A → ℕ) → List A → Option ℕ
  max_of f [] = none
  max_of f (x ∷ xs) = elim (max_of f xs) [ none ↦ some (f x) | some m ↦ some (max (f x) m) ]

  -- The rowid that SQLite gives a new row: one more than the largest in the table.
  abbrev pub next_id : (A → ℕ) → List A → ℕ
  next_id f [] = 1
  next_id f (x ∷ xs) = max (suc (f x)) (next_id f xs)

  -- ORDER BY: a stable insertion sort, where `before a b` says that `a` may stand before `b`.
  abbrev pub insert_by : (A → A → Bool) → A → List A → List A
  insert_by before x [] = x ∷ []
  insert_by before x (y ∷ ys) =
      let later = insert_by before x ys in if before x y then x ∷ y ∷ ys else y ∷ later

  abbrev pub order_by : (A → A → Bool) → List A → List A
  order_by before [] = []
  order_by before (x ∷ xs) = insert_by before x (order_by before xs)

  pub select-append :
      (p : A → Bool) (xs ys : List A) → select p (xs ++ ys) ≡ select p xs ++ select p ys
  select-append p [] ys = refl
  select-append p (x ∷ xs) ys = ground (arith, select-append p xs ys)

  pub count-append : (p : A → Bool) (xs ys : List A) → count p (xs ++ ys) ≡ count p xs + count p ys
  count-append p [] ys = omega arith
  count-append p (x ∷ xs) ys = ground (arith, count-append p xs ys)

  pub count-eq-length-select : (p : A → Bool) (xs : List A) → count p xs ≡ length (select p xs)
  count-eq-length-select p [] = refl
  count-eq-length-select p (x ∷ xs) = ground (arith, count-eq-length-select p xs)

  pub All-select {κ} :
      (P : A → Type κ) (p : A → Bool) (xs : List A) → All P xs → All P (select p xs)
  All-select P p [] h = tt
  All-select P p (x ∷ xs) h = elim (Bool-cases (p x)) [
    | inl e ↦ rw e (h.0, All-select P p xs h.1)
    | inr e ↦ rw e (All-select P p xs h.1)
  ]

  pub lt-next_id : (f : A → ℕ) (xs : List A) → All (λ x. f x < next_id f xs) xs
  lt-next_id f xs = go f xs (next_id f xs) (omega arith)
    where
      go : (f : A → ℕ) (ys : List A) (n : ℕ) → next_id f ys ≤ n → All (λ x. f x < n) ys
      go f [] n h = tt
      go f (y ∷ ys) n h = (omega arith, go f ys n (omega arith))

-- An inner join: the rows that have a partner, with what it adds.
abbrev pub join {ℓ κ} : {A : Type ℓ} {B : Type κ} → (A → Option B) → List A → List B
join f [] = []
join f (x ∷ xs) = elim (f x) [ none ↦ join f xs | some y ↦ y ∷ join f xs ]
