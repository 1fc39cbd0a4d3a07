-- ===== src/Store/Snapshot/Durability.antt =====
-- What a snapshot makes durable, how it is read back at boot, and how often the coalesced ones
-- upload (internal/store/snapshot.go).
use agents_board.Common.{
  ℕ, ◌+◌, ◌≡◌, refl, sym, ap, ◌∙◌, arith, Bool, true, false, not, ◌&&◌, Option, some, ltb, All, ◌<◌,
  List, [], ◌∷◌, if◌then◌else◌, Result, ok,
}
use agents_board.Store.Blob.{Blob}
use agents_board.Store.Blob.Object.{object_get, version, Versioned}
use agents_board.Store.Snapshot.{
  Snap, After, set_generation, restore_if_missing, left_by_call, restore_from, is_failing, too_soon,
  snapshot_if_due, snapshot_locked, after_write, snapshot, health,
}
use agents_board.Store.Snapshot.Attempts.{
  Call, branch, attempt, write_call, snapshot_call, dirty_call, due_call, Attempt, call_step,
  attempts,
}
use agents_board.Store.Snapshot.Fencing.{IsFenced, locked-fenced}

not_skipped : {A : Type 0} {c : Bool} (x y : A) → c ≡ true → (if not c then x else y) ≡ y
not_skipped x y e = rw e refl

-- A synchronous write of a store with a Blob uploads.
wrote :
    {D : Type 0} (B : Blob D) (content : Result D) (now : ℕ) (s : Snap) (w : B.State)
    → s.has_blob ≡ true
    → after_write B true content now s w ≡ left_by_call B (snapshot_locked B content now s w)
unfolding after_write snapshot snapshot_locked
wrote B content now s w b = not_skipped _ _ b ∙ ap (left_by_call B) (not_skipped _ _ b)

module _ {D : Type 0} (B : Blob D) (laws : Versioned B) where
  -- A synchronous write of a store with a Blob, whose fence is the object's generation and whose
  -- copy of the database can be made, leaves nothing unsaved: the store is clean, Health reports no
  -- failure, and a boot without a database file then restores exactly the copy, with a generation
  -- that fences the booted store's uploads.
  pub after_write-restore_if_missing :
      (content : D) (now : ℕ) (s booted : Snap) (w : B.State)
      → s.has_blob ≡ true
      → IsFenced B laws (s, w)
      → ((after_write B true (ok content) now s w).0.dirty ≡ false)
        × ((health true (after_write B true (ok content) now s w).0).is_ok ≡ true)
        × (restore_if_missing B
              (ok false)
              (ok tt)
              (ok tt)
              (after_write B true (ok content) now s w).1
            ≡ ok (true, version (laws.view w) + 1, some content))
        × IsFenced B laws (
          set_generation (version (laws.view w) + 1) booted,
          (after_write B true (ok content) now s w).1,
        )
  unfolding after_write snapshot health
  after_write-restore_if_missing content now s booted w b h =
      let p = locked-fenced B laws content now s w h in
      let got = laws.get_lem (snapshot_locked B (ok content) now s w).2 p.3 in
      rw (wrote B (ok content) now s w b) (
        ap (λ t. t.dirty) p.1,
        ap (λ t. not (is_failing t.last_err)) p.1,
        ap (λ r. restore_from r (ok tt) (ok tt)) (got ∙ ap object_get p.2),
        (ap (λ o. some (version o)) (sym p.2), p.3),
      )

-- Calls that coalesce: a write that may wait, and SnapshotIfDue.
abbrev pub is_coalesced : Call → Bool
is_coalesced (write_call sync) = not sync
is_coalesced snapshot_call = false
is_coalesced dirty_call = false
is_coalesced due_call = true

abbrev pub within : {D : Type 0} → ℕ → Attempt D → Bool
within deadline a = is_coalesced a.call && ltb a.now deadline

early :
    (now last interval : ℕ) (o : Option ℕ)
    → now < last + interval
    → o ≡ some last
    → too_soon now interval o ≡ true
early now last interval o d e = rw e (ground arith)

taken : {A : Type 0} (P : A → Type 0) {c : Bool} (x y : A) → c ≡ true → P x → P (if c then x else y)
taken P x y e h = rw e h

-- The outside world and what decides the next coalesced call have not moved.
abbrev IsWaiting : {D : Type 0} (B : Blob D) → ℕ → ℕ → B.State → Snap × B.State → Type 0
IsWaiting B last interval w p =
    (p.1 ≡ w) × (p.0.last_snapshot ≡ some last) × (p.0.snap_interval ≡ interval)

abbrev IsWaitingAfter : {D : Type 0} (B : Blob D) → ℕ → ℕ → B.State → After B → Type 0
IsWaitingAfter B last interval w t = IsWaiting B last interval w (left_by_call B t)

within-eq-true :
    (c : Bool) (now deadline : ℕ) → (c && ltb now deadline) ≡ true → (c ≡ true) × (now < deadline)
within-eq-true true now deadline h = (refl, ground arith)
within-eq-true false now deadline h = absurd (ground arith)

-- One coalesced call before the deadline.
waits :
    {D : Type 0} (B : Blob D) (c : Call) (copied : Result D) (now last : ℕ) (s : Snap) (w : B.State)
    → is_coalesced c ≡ true
    → now < last + s.snap_interval
    → s.last_snapshot ≡ some last
    → IsWaiting B last s.snap_interval w (call_step B c copied now s w)
unfolding after_write snapshot_if_due
waits B (write_call true) copied now last s w c d e = absurd (ground arith)
waits B (write_call false) copied now last s w c d e =
    branch (IsWaiting B last s.snap_interval w) (not s.has_blob) _ _ (refl, e, refl)
      (branch (IsWaitingAfter B last s.snap_interval w) (not s.has_blob) _ _ (refl, e, refl)
        (taken (IsWaitingAfter B last s.snap_interval w) _ _
          (early now last s.snap_interval s.last_snapshot d e) (refl, e, refl)))
waits B snapshot_call copied now last s w c d e = absurd (ground arith)
waits B dirty_call copied now last s w c d e = absurd (ground arith)
waits B due_call copied now last s w c d e =
    branch (IsWaitingAfter B last s.snap_interval w) (not s.has_blob) _ _ (refl, e, refl)
      (branch (IsWaitingAfter B last s.snap_interval w) (not s.dirty) _ _ (refl, e, refl)
        (taken (IsWaitingAfter B last s.snap_interval w) _ _
          (early now last s.snap_interval s.last_snapshot d e) (refl, e, refl)))

-- After a successful snapshot at `last`, coalesced calls before `last` + snapInterval leave the
-- object alone, however many there are: at most one upload falls into an interval.
pub attempts-coalesced :
    {D : Type 0} (B : Blob D) (calls : List (Attempt D)) (last : ℕ) (s : Snap) (w : B.State)
    → s.last_snapshot ≡ some last
    → All (λ a. within (last + s.snap_interval) a ≡ true) calls
    → ((attempts B calls (s, w)).1 ≡ w) × ((attempts B calls (s, w)).0.last_snapshot ≡ some last)
unfolding attempts
attempts-coalesced B [] last s w e h = (refl, e)
attempts-coalesced B (a ∷ rest) last s w e h =
    let in_time = within-eq-true (is_coalesced a.call) a.now (last + s.snap_interval) h.0 in
    let q = waits B a.call a.copied a.now last s w in_time.0 in_time.1 e in
    let r =
      attempts-coalesced B rest last (attempt B a (s, w)).0 (attempt B a (s, w)).1 q.1
        (rw q.2 h.1) in
    (r.0 ∙ q.0, r.1)
