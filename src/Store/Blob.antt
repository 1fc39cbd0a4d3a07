-- ===== src/Store/Blob.antt =====
-- The object that the store snapshots to: the interfaces Blob and generationReader of
-- internal/store/snapshot.go, over an unknown state of the outside world. `D` is the content of a
-- database file. A fence is `none` for NoGeneration, `some 0` for "must not exist yet" and `some n`
-- for "is at generation n".
pub mod Object
pub mod FileBlob
pub mod Gcs
use agents_board.Common.{ℕ, Option, Result}

abbrev pub Fence : Type 0
Fence = Option ℕ

-- A Put can leave another state also when it fails.
pub record Blob (D : Type 0) : Type 1 where
  pub State : Type 0
  pub get : State → Result (D × ℕ)
  pub generation : State → Result ℕ
  pub put : State → D → Fence → Result ℕ × State
