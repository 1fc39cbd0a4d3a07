-- ===== src/Tests/Snapshots.antt =====
-- Concrete runs of the snapshots on a FileBlob (internal/store/snapshot.go, internal/store/blob_file.go).
use agents_board.Common.{
  ℕ, ◌≡◌, refl, arith, true, false, none, some, List, [], ◌∷◌, ok, err, failure,
}
use agents_board.Store.Blob.Object.{object_get, object_generation, object_put}
use agents_board.Store.Blob.FileBlob.{Files, file_blob, file_get, file_generation, file_put}
use agents_board.Store.Blob.FileBlob.Refinement.{
  IsSound, object_of, file_blob_versioned, file_blob-refines,
}
use agents_board.Store.Snapshot.{Snap, after_write, restore_if_missing, set_generation, health}
use agents_board.Store.Snapshot.Attempts.{write_call, dirty_call, due_call, Attempt, attempts}
use agents_board.Store.Snapshot.Fencing.{IsFenced, attempts-stale, attempts-IsFenced}
use agents_board.Store.Snapshot.Durability.{after_write-restore_if_missing, attempts-coalesced}

-- An object that holds 7 at generation 3.
abbrev third : Files ℕ
third = record { file = some 7; sidecar = some (some 3); file_fails = false; sidecar_fails = false }

third-IsSound : IsSound third
third-IsSound = record { sidecar_ok = omega arith; file_works = refl; sidecar_works = refl }

-- A store fenced at a generation, with unsaved writes.
abbrev store_at : ℕ → Snap
store_at n = record {
  has_blob = true;
  generation = some n;
  dirty = true;
  last_snapshot = some 100;
  last_err = none;
  snap_interval = 60;
}

abbrev calls : List (Attempt ℕ)
calls =
    record { call = write_call true; copied = ok 8; now = 110 }
    ∷ record { call = due_call; copied = ok 9; now = 200 }
    ∷ record { call = dirty_call; copied = err failure; now = 210 }
    ∷ []

abbrev coalesced_calls : List (Attempt ℕ)
coalesced_calls =
    record { call = write_call false; copied = ok 8; now = 110 }
    ∷ record { call = due_call; copied = ok 9; now = 159 }
    ∷ []

file_blob-refines_example :
    (file_get third ≡ object_get (object_of third))
    × (file_generation third ≡ object_generation (object_of third))
    × ((file_put third 8 (some 3)).0 ≡ (object_put (object_of third) 8 (some 3)).0)
    × (object_of (file_put third 8 (some 3)).1 ≡ (object_put (object_of third) 8 (some 3)).1)
    × IsSound (file_put third 8 (some 3)).1
file_blob-refines_example = file_blob-refines third 8 (some 3) third-IsSound

-- The store still believes in generation 2.
attempts-stale_example :
    (object_of (attempts (file_blob ℕ) calls (store_at 2, third)).1 ≡ object_of third)
    × ((attempts (file_blob ℕ) calls (store_at 2, third)).0.generation ≡ some 2)
    × ((attempts (file_blob ℕ) calls (store_at 2, third)).0.dirty ≡ true)
unfolding file_blob_versioned
attempts-stale_example =
    attempts-stale (file_blob ℕ) (file_blob_versioned ℕ) 2 calls (store_at 2) third third-IsSound
      refl refl (ground arith)

attempts-IsFenced_example :
    IsFenced
      (file_blob ℕ)
      (file_blob_versioned ℕ)
      (attempts (file_blob ℕ) calls (store_at 3, third))
unfolding file_blob_versioned
attempts-IsFenced_example =
    attempts-IsFenced (file_blob ℕ) (file_blob_versioned ℕ) calls (store_at 3) third
      (refl, third-IsSound)

after_write-restore_if_missing_example :
    ((after_write (file_blob ℕ) true (ok 8) 110 (store_at 3) third).0.dirty ≡ false)
    × ((health true (after_write (file_blob ℕ) true (ok 8) 110 (store_at 3) third).0).is_ok ≡ true)
    × (restore_if_missing
          (file_blob ℕ)
          (ok false)
          (ok tt)
          (ok tt)
          (after_write (file_blob ℕ) true (ok 8) 110 (store_at 3) third).1
        ≡ ok (true, 4, some 8))
    × IsFenced (file_blob ℕ) (file_blob_versioned ℕ) (
      set_generation 4 (store_at 0),
      (after_write (file_blob ℕ) true (ok 8) 110 (store_at 3) third).1,
    )
unfolding file_blob_versioned
after_write-restore_if_missing_example =
    after_write-restore_if_missing (file_blob ℕ) (file_blob_versioned ℕ) 8 110 (store_at 3)
      (store_at 0) third refl (refl, third-IsSound)

attempts-coalesced_example :
    ((attempts (file_blob ℕ) coalesced_calls (store_at 3, third)).1 ≡ third)
    × ((attempts (file_blob ℕ) coalesced_calls (store_at 3, third)).0.last_snapshot ≡ some 100)
attempts-coalesced_example =
    attempts-coalesced (file_blob ℕ) coalesced_calls 100 (store_at 3) third refl (refl, (refl, tt))
