-- ===== src/Common/Rows.antt =====
-- Laws of the table operations: what an insert, an update or a filter does to counts, minima and
-- predicates over the rows.
use Prim.Native.Nat.{suc, ◌+◌, ℕ, ◌≤◌, ◌<◌, min}
use mathlib.Core.Path.{◌≡◌, refl}
use mathlib.Core.Bool.{Bool, true, false, ◌&&◌}
use mathlib.Core.Option.{Option, none, some}
use mathlib.Core.List.{List, [], ◌∷◌, ◌++◌}
use native.Mathlib.Omega.{arith}
use mathlib.Core.Logic.{inl, inr}
use agents_board.Common.Tests.{◌==◌, if◌then◌else◌, Bool-cases, Option-cases}
use agents_board.Common.Lists.{All, All-append, All-imp}
use agents_board.Common.Sql.{
  select, first, exists_row, count, update, min_of, All-select, count-append,
}

abbrev pub min_with : ℕ → Option ℕ → Option ℕ
min_with n none = some n
min_with n (some m) = some (min n m)

module _ {ℓ} {A : Type ℓ} where
  -- The rowids of a table: each row's is below those of the rows after it.
  abbrev pub IsAscending : (A → ℕ) → List A → Type 0
  IsAscending f [] = Unit {0}
  IsAscending f (x ∷ xs) = All (λ y. f x < f y) xs × IsAscending f xs

  pub IsAscending-append :
      (f : A → ℕ) (xs : List A) (y : A)
      → IsAscending f xs
      → All (λ x. f x < f y) xs
      → IsAscending f (xs ++ y ∷ [])
  IsAscending-append f [] y a h = (tt, tt)
  IsAscending-append f (x ∷ xs) y a h =
      (All-append (λ z. f x < f z) xs (y ∷ []) a.0 (h.0, tt), IsAscending-append f xs y a.1 h.1)

  pub All-update {κ κ'} :
      (P : A → Type κ) (Q : A → Type κ') (u : A → Bool) (g : A → A) (xs : List A)
      → ((x : A) → P x → u x ≡ true → Q (g x))
      → ((x : A) → P x → u x ≡ false → Q x)
      → All P xs
      → All Q (update u g xs)
  All-update P Q u g [] changed kept h = tt
  All-update P Q u g (x ∷ xs) changed kept h = elim (Bool-cases (u x)) [
    | inl e ↦ rw e (changed x h.0 e, All-update P Q u g xs changed kept h.1)
    | inr e ↦ rw e (kept x h.0 e, All-update P Q u g xs changed kept h.1)
  ]

  pub IsAscending-update :
      (f : A → ℕ) (u : A → Bool) (g : A → A) (xs : List A)
      → ((x : A) → f (g x) ≡ f x)
      → IsAscending f xs
      → IsAscending f (update u g xs)
  IsAscending-update f u g [] same a = tt
  IsAscending-update f u g (x ∷ xs) same a = elim (Bool-cases (u x)) [
    | inl e ↦ rw (e, same) (later, IsAscending-update f u g xs same a.1)
    | inr e ↦ rw e (later, IsAscending-update f u g xs same a.1)
  ]
    where
      later : All (λ y. f x < f y) (update u g xs)
      later =
          All-update (λ y. f x < f y) (λ y. f x < f y) u g xs (λ y h e. rw same h) (λ y h e. h) a.0

  pub count-congr :
      (p q : A → Bool) (xs : List A) → All (λ x. p x ≡ q x) xs → count p xs ≡ count q xs
  count-congr p q [] h = refl
  count-congr p q (x ∷ xs) h = ground (arith, count-congr p q xs h.1)

  pub count-le :
      (p q : A → Bool) (xs : List A) → ((x : A) → p x ≡ true → q x ≡ true) → count p xs ≤ count q xs
  count-le p q [] h = omega arith
  count-le p q (x ∷ xs) h = elim (Bool-cases (p x)) [
    | inl e ↦ rw (e, h x e) (omega (arith, count-le p q xs h))
    | inr e ↦ rw e (omega (arith, count-le p q xs h))
  ]

  pub count-append_one :
      (p : A → Bool) (xs : List A) (y : A) → count p (xs ++ y ∷ []) ≤ suc (count p xs)
  count-append_one p xs y = elim (Bool-cases (p y)) [
    | inl e ↦ ground (arith, count-append p xs (y ∷ []))
    | inr e ↦ ground (arith, count-append p xs (y ∷ []))
  ]

  pub count-select :
      (p q : A → Bool) (xs : List A) → count p (select q xs) ≡ count (λ x. p x && q x) xs
  count-select p q [] = refl
  count-select p q (x ∷ xs) = ground (arith, count-select p q xs)

  pub count_of_none : (p : A → Bool) (xs : List A) → All (λ x. p x ≡ false) xs → count p xs ≡ 0
  count_of_none p [] h = refl
  count_of_none p (x ∷ xs) h = ground (arith, count_of_none p xs h.1)

  pub update_of_none :
      (u : A → Bool) (g : A → A) (xs : List A) → All (λ x. u x ≡ false) xs → update u g xs ≡ xs
  update_of_none u g [] h = refl
  update_of_none u g (x ∷ xs) h = ground (arith, update_of_none u g xs h.1)

  pub exists_row-append :
      (p : A → Bool) (xs ys : List A) → exists_row p xs ≡ true → exists_row p (xs ++ ys) ≡ true
  exists_row-append p [] ys h = cc
  exists_row-append p (x ∷ xs) ys h = ground (arith, exists_row-append p xs ys)

  pub exists_row-append_last :
      (p : A → Bool) (xs : List A) (y : A) → p y ≡ true → exists_row p (xs ++ y ∷ []) ≡ true
  exists_row-append_last p [] y h = ground arith
  exists_row-append_last p (x ∷ xs) y h = ground (arith, exists_row-append_last p xs y h)

  -- An update that the test does not notice.
  pub exists_row-update :
      (p u : A → Bool) (g : A → A) (xs : List A)
      → ((x : A) → p (g x) ≡ p x)
      → exists_row p (update u g xs) ≡ exists_row p xs
  exists_row-update p u g [] same = refl
  exists_row-update p u g (x ∷ xs) same = ground (arith, same x, exists_row-update p u g xs same)

  pub exists_row-first :
      (p : A → Bool) (xs : List A) → exists_row p xs ≡ true → (x : A) × (first p xs ≡ some x)
  exists_row-first p [] h = cc
  exists_row-first p (x ∷ xs) h = elim (Bool-cases (p x)) [
    | inl e ↦ (x, ground arith)
    | inr e ↦ let (y, f) = exists_row-first p xs (ground arith) in (y, ground arith)
  ]

  pub All-select_self : (p : A → Bool) (xs : List A) → All (λ x. p x ≡ true) (select p xs)
  All-select_self p [] = tt
  All-select_self p (x ∷ xs) = elim (Bool-cases (p x)) [
    | inl e ↦ rw e (e, All-select_self p xs)
    | inr e ↦ rw e (All-select_self p xs)
  ]

  pub select-select :
      (p q : A → Bool) (xs : List A) → select q (select p xs) ≡ select (λ x. p x && q x) xs
  select-select p q [] = refl
  select-select p q (x ∷ xs) = ground (arith, select-select p q xs)

  pub select_of_none : (p : A → Bool) (xs : List A) → All (λ x. p x ≡ false) xs → select p xs ≡ []
  select_of_none p [] h = refl
  select_of_none p (x ∷ xs) h = ground (arith, select_of_none p xs h.1)

  pub IsAscending-select :
      (f : A → ℕ) (p : A → Bool) (xs : List A) → IsAscending f xs → IsAscending f (select p xs)
  IsAscending-select f p [] a = tt
  IsAscending-select f p (x ∷ xs) a = elim (Bool-cases (p x)) [
    | inl e ↦ rw e (All-select _ p xs a.0, IsAscending-select f p xs a.1)
    | inr e ↦ rw e (IsAscending-select f p xs a.1)
  ]

  pub exists_row-false :
      (p : A → Bool) (xs : List A) → exists_row p xs ≡ false → All (λ x. p x ≡ false) xs
  exists_row-false p [] h = tt
  exists_row-false p (x ∷ xs) h = (ground arith, exists_row-false p xs (ground arith))

  pub All_of_first {κ} :
      (P : A → Type κ) (p : A → Bool) (xs : List A) {x : A}
      → All P xs
      → first p xs ≡ some x
      → P x × (p x ≡ true)
  All_of_first P p [] h e = cc
  All_of_first P p (y ∷ ys) {x} h e = elim (Bool-cases (p y)) [
    | inl t ↦ let same : y ≡ x = ground arith in rw (← same) (h.0, t)
    | inr t ↦ All_of_first P p ys h.1 (ground arith)
  ]

  pub min_of-lt :
      (f : A → ℕ) (xs : List A) (n : ℕ) {m : ℕ}
      → All (λ x. f x < n) xs
      → min_of f xs ≡ some m
      → m < n
  min_of-lt f [] n h e = cc
  min_of-lt f (x ∷ xs) n {m} h e = elim (Option-cases (min_of f xs)) [
    | inl none_left ↦ ground arith
    | inr (k, found) ↦ ground (arith, min_of-lt f xs n h.1 found)
  ]

  pub min_of-append :
      (f : A → ℕ) (xs : List A) (y : A) → min_of f (xs ++ y ∷ []) ≡ min_with (f y) (min_of f xs)
  min_of-append f [] y = refl
  min_of-append f (x ∷ xs) y = elim (Option-cases (min_of f xs)) [
    | inl e ↦ rw (min_of-append f xs y, e) (ground arith)
    | inr (k, e) ↦ rw (min_of-append f xs y, e) (ground arith)
  ]

  pub min_of-select-update :
      (f : A → ℕ) (q u : A → Bool) (g : A → A) (xs : List A)
      → ((x : A) → f (g x) ≡ f x)
      → ((x : A) → q (g x) ≡ q x)
      → min_of f (select q (update u g xs)) ≡ min_of f (select q xs)
  min_of-select-update f q u g [] same_f same_q = refl
  min_of-select-update f q u g (x ∷ xs) same_f same_q =
      ground (arith, same_f x, same_q x, min_of-select-update f q u g xs same_f same_q)

  -- An update of the one row with a key, after which that row is no longer counted.
  pub count-update :
      (f : A → ℕ) (p : A → Bool) (g : A → A) (k : ℕ) (xs : List A) {x : A}
      → IsAscending f xs
      → first (λ a. f a == k) xs ≡ some x
      → p (g x) ≡ false
      → count p (update (λ a. f a == k) g xs) + (if p x then 1 else 0) ≡ count p xs
  count-update f p g k [] a e h = cc
  count-update f p g k (y ∷ ys) {x} a e h = elim (Bool-cases (f y == k)) [
    | inl t ↦
        let same : y ≡ x = ground arith in
        let apart : All (λ z. (f z == k) ≡ false) ys =
          All-imp (λ z. f y < f z) _ ys (λ z l. ground arith) a.0 in
        rw (t, update_of_none (λ z. f z == k) g ys apart, same, h) (omega arith)
    | inr t ↦ rw t (ground (arith, count-update f p g k ys a.1 (ground arith) h))
  ]

  pub exists_row-imp :
      (p q : A → Bool) (xs : List A)
      → ((x : A) → p x ≡ true → q x ≡ true)
      → exists_row p xs ≡ true
      → exists_row q xs ≡ true
  exists_row-imp p q [] f h = h
  exists_row-imp p q (x ∷ xs) f h = elim (Bool-cases (p x)) [
    | inl e ↦ rw (f x e) refl
    | inr e ↦ ground (arith, exists_row-imp p q xs f (ground arith))
  ]

  pub exists_row_of_first :
      (p : A → Bool) (xs : List A) {x : A} → first p xs ≡ some x → exists_row p xs ≡ true
  exists_row_of_first p [] h = cc
  exists_row_of_first p (y ∷ xs) {x} h = ground (arith, exists_row_of_first p xs {x = x})

  -- A lookup of the row that an update by the same test changed.
  pub first-update :
      (p : A → Bool) (g : A → A) (xs : List A) {x : A}
      → ((y : A) → p (g y) ≡ p y)
      → first p xs ≡ some x
      → first p (update p g xs) ≡ some (g x)
  first-update p g [] same h = cc
  first-update p g (y ∷ ys) {x} same h = elim (Bool-cases (p y)) [
    | inl e ↦ let here : y ≡ x = ground arith in rw (e, same y, e, here) refl
    | inr e ↦ rw (e, e) (first-update p g ys same (ground arith))
  ]
