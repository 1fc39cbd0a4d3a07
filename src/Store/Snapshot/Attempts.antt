-- ===== src/Store/Snapshot/Attempts.antt =====
-- Sequences of snapshot calls (internal/store/snapshot.go), and what one call does by the fence:
-- the object that its comments describe is the interface of Store/Blob/Object.
use agents_board.Common.{ℕ, Bool, true, false, not, List, [], ◌∷◌, if◌then◌else◌, Result}
use agents_board.Store.Blob.{Blob}
use agents_board.Store.Snapshot.{
  Snap, snapshot_locked, snapshot, snapshot_if_dirty, too_soon, snapshot_if_due, after_write,
  left_by_call,
}

-- One call: of a method that wrote (afterWrite), of Snapshot, of SnapshotIfDirty or of
-- SnapshotIfDue.
pub data Call : Type 0 where
  write_call : Bool → Call
  snapshot_call dirty_call due_call : Call

-- A call with what its copy of the database returns and its clock.
pub record Attempt (D : Type 0) : Type 0 where
  pub call : Call
  pub copied : Result D
  pub now : ℕ

abbrev pub call_step :
    {D : Type 0} (B : Blob D) → Call → Result D → ℕ → Snap → B.State → Snap × B.State
call_step B (write_call sync) copied now s w = after_write B sync copied now s w
call_step B snapshot_call copied now s w = left_by_call B (snapshot B copied now s w)
call_step B dirty_call copied now s w = left_by_call B (snapshot_if_dirty B copied now s w)
call_step B due_call copied now s w = left_by_call B (snapshot_if_due B copied now s w)

abbrev pub attempt : {D : Type 0} (B : Blob D) → Attempt D → Snap × B.State → Snap × B.State
attempt B a p = call_step B a.call a.copied a.now p.0 p.1

unfoldable pub attempts :
    {D : Type 0} (B : Blob D) → List (Attempt D) → Snap × B.State → Snap × B.State
attempts B [] p = p
attempts B (a ∷ rest) p = attempts B rest (attempt B a p)

-- A branch of a call.
pub branch : {A : Type 0} (P : A → Type 0) (c : Bool) (x y : A) → P x → P y → P (if c then x else y)
branch P true x y a b = a
branch P false x y a b = b

-- A step does nothing, marks the store dirty, or runs snapshotLocked.
pub step_cases :
    {D : Type 0} (B : Blob D) (P : Snap × B.State → Type 0) (c : Call) (copied : Result D) (now : ℕ)
    (s : Snap) (w : B.State)
    → P (s, w)
    → P (record s { dirty = true }, w)
    → P (left_by_call B (snapshot_locked B copied now s w))
    → P (call_step B c copied now s w)
unfolding snapshot snapshot_if_dirty snapshot_if_due after_write snapshot_locked
step_cases B P (write_call true) copied now s w a b d =
    branch P (not s.has_blob) _ _ a (branch (λ t. P (left_by_call B t)) (not s.has_blob) _ _ b d)
step_cases B P (write_call false) copied now s w a b d = branch P (not s.has_blob) _ _ a (
    branch (λ t. P (left_by_call B t)) (not s.has_blob) _ _ b
      (branch (λ t. P (left_by_call B t)) (too_soon now s.snap_interval s.last_snapshot) _ _ b d))
step_cases B P snapshot_call copied now s w a b d =
    branch (λ t. P (left_by_call B t)) (not s.has_blob) _ _ a d
step_cases B P dirty_call copied now s w a b d =
    branch (λ t. P (left_by_call B t)) (not s.has_blob) _ _ a
      (branch (λ t. P (left_by_call B t)) (not s.dirty) _ _ a d)
step_cases B P due_call copied now s w a b d =
    branch (λ t. P (left_by_call B t)) (not s.has_blob) _ _ a
      (branch (λ t. P (left_by_call B t)) (not s.dirty) _ _ a
        (branch (λ t. P (left_by_call B t)) (too_soon now s.snap_interval s.last_snapshot) _ _ a d))

-- What one call keeps, a sequence keeps.
pub attempts-keep :
    {D : Type 0} (B : Blob D) (P : Snap × B.State → Type 0)
    → ((c : Call) (copied : Result D) (now : ℕ) (s : Snap) (w : B.State)
        → P (s, w)
        → P (call_step B c copied now s w))
    → (calls : List (Attempt D)) (p : Snap × B.State) → P p
    → P (attempts B calls p)
unfolding attempts
attempts-keep B P step [] p h = h
attempts-keep B P step (a ∷ rest) p h =
    attempts-keep B P step rest (attempt B a p) (step a.call a.copied a.now p.0 p.1 h)
