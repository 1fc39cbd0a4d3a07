-- ===== src/Store/Snapshot.antt =====
-- The snapshots of the store (internal/store/snapshot.go). `B` is the object, `copied` what VACUUM
-- INTO and the read of its file return, `now` the clock of the call.
pub mod Attempts
pub mod Fencing
pub mod Durability
use agents_board.Common.{
  ℕ, ◌+◌, Bool, true, false, not, ◌&&◌, Option, none, some, ltb, if◌then◌else◌, Result, ok, err,
  Err, no_object, ◌>>=◌, ◌>>◌,
}
use agents_board.Store.Blob.{Blob, Fence}

-- The snapshot fields of Store; `has_blob` is `s.blob != nil`.
pub record Snap : Type 0 where
  pub has_blob : Bool
  pub generation : Fence
  pub dirty : Bool
  pub last_snapshot : Option ℕ
  pub last_err : Option Err
  pub snap_interval : ℕ

-- remoteGeneration's end: ErrNoObject maps to 0.
abbrev pub no_object_as_zero : Result ℕ → Result ℕ
no_object_as_zero (ok n) = ok n
no_object_as_zero (err no_object) = ok 0
no_object_as_zero (err e) = err e

unfoldable pub remote_generation : {D : Type 0} (B : Blob D) → B.State → Result ℕ
remote_generation B w = no_object_as_zero (B.generation w)

-- The path of RestoreIfMissing without a database file: the value is restored, the generation and
-- what the file then holds.
abbrev pub restore_from :
    {D : Type 0}
    → Result (D × ℕ)
    → Result (Unit {0})
    → Result (Unit {0})
    → Result (Bool × ℕ × Option D)
restore_from (ok (content, gen)) removed wrote = removed >> (wrote >> ok (true, gen, some content))
restore_from (err no_object) removed wrote = ok (false, 0, none)
restore_from (err e) removed wrote = err e

-- `present` is the stat of the path, `removed` the removal of the -wal and -shm files, `wrote` the
-- result of writeFileAtomic.
abbrev pub restore_if_missing :
    {D : Type 0} (B : Blob D)
    → Result Bool
    → Result (Unit {0})
    → Result (Unit {0})
    → B.State
    → Result (Bool × ℕ × Option D)
restore_if_missing B (err e) removed wrote w = err e
restore_if_missing B (ok true) removed wrote w =
    remote_generation B w >>= λ gen. ok (false, gen, none)
restore_if_missing B (ok false) removed wrote w = restore_from (B.get w) removed wrote

abbrev pub set_generation : ℕ → Snap → Snap
set_generation g s = record s { generation = some g }

-- What a call leaves: its error, the fields of the store and the outside world.
abbrev pub After : {D : Type 0} → Blob D → Type 0
After B = Result (Unit {0}) × Snap × B.State

abbrev pub after_put : {D : Type 0} (B : Blob D) → Snap → Result ℕ → B.State → After B
after_put B s (err e) w = (err e, s, w)
after_put B s (ok gen) w = (ok tt, record s { generation = some gen }, w)

abbrev pub upload_snapshot : {D : Type 0} (B : Blob D) → Result D → Snap → B.State → After B
upload_snapshot B (err e) s w = (err e, s, w)
upload_snapshot B (ok content) s w =
    let put = B.put w content s.generation in after_put B s put.0 put.1

-- The rest of snapshotLocked after the upload.
abbrev pub after_upload :
    {D : Type 0} (B : Blob D) → ℕ → Result (Unit {0}) → Snap → B.State → After B
after_upload B now (err e) s w = (err e, record s { dirty = true; last_err = some e }, w)
after_upload B now (ok u) s w = (ok tt, record s { last_err = none; last_snapshot = some now }, w)

unfoldable pub snapshot_locked : {D : Type 0} (B : Blob D) → Result D → ℕ → Snap → B.State → After B
snapshot_locked B copied now s w =
    let up = upload_snapshot B copied (record s { dirty = false }) w in
    after_upload B now up.0 up.1 up.2

unfoldable pub snapshot : {D : Type 0} (B : Blob D) → Result D → ℕ → Snap → B.State → After B
snapshot B copied now s w =
    if not s.has_blob then (ok tt, s, w) else snapshot_locked B copied now s w

unfoldable pub snapshot_if_dirty :
    {D : Type 0} (B : Blob D) → Result D → ℕ → Snap → B.State → After B
snapshot_if_dirty B copied now s w =
    if not s.has_blob
    then (ok tt, s, w)
    else if not s.dirty
    then (ok tt, s, w)
    else snapshot_locked B copied now s w

-- !s.lastSnapshot.IsZero() && s.now().Sub(s.lastSnapshot) < s.snapInterval
abbrev pub too_soon : ℕ → ℕ → Option ℕ → Bool
too_soon now interval none = false
too_soon now interval (some last) = ltb now (last + interval)

unfoldable pub snapshot_if_due : {D : Type 0} (B : Blob D) → Result D → ℕ → Snap → B.State → After B
snapshot_if_due B copied now s w =
    if not s.has_blob
    then (ok tt, s, w)
    else if not s.dirty
    then (ok tt, s, w)
    else if too_soon now s.snap_interval s.last_snapshot
    then (ok tt, s, w)
    else snapshot_locked B copied now s w

-- What a call leaves without its error.
abbrev pub left_by_call : {D : Type 0} (B : Blob D) → After B → Snap × B.State
left_by_call B after = (after.1, after.2)

-- The error is logged alone.
unfoldable pub after_write :
    {D : Type 0} (B : Blob D) → Bool → Result D → ℕ → Snap → B.State → Snap × B.State
after_write B sync copied now s w =
    if not s.has_blob
    then (s, w)
    else if sync
    then left_by_call B (snapshot B copied now (record s { dirty = true }) w)
    else left_by_call B (snapshot_if_due B copied now (record s { dirty = true }) w)

-- Health: the fields that depend on the snapshots; `selected` is the result of SELECT 1.
pub record Health : Type 0 where
  pub is_ok : Bool
  pub db : Bool
  pub snapshot_enabled : Bool
  pub snapshot_dirty : Bool
  pub snapshot_failing : Bool
  pub last_error : Option Err

abbrev pub is_failing : Option Err → Bool
is_failing none = false
is_failing (some e) = true

unfoldable pub health : Bool → Snap → Health
health selected s = record {
  is_ok = selected && not (is_failing s.last_err);
  db = selected;
  snapshot_enabled = s.has_blob;
  snapshot_dirty = s.dirty;
  snapshot_failing = is_failing s.last_err;
  last_error = s.last_err;
}
