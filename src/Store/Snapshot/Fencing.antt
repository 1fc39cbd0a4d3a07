-- ===== src/Store/Snapshot/Fencing.antt =====
-- The fence over sequences of snapshot calls (internal/store/snapshot.go), for a Blob that keeps
-- the promises of its interface.
use agents_board.Common.{
  ℕ, ◌+◌, ◌≡◌, ◌≢◌, refl, sym, ap, ◌∙◌, arith, true, false, none, some, List, Result, ok, err,
  generation_mismatch,
}
use agents_board.Store.Blob.{Blob, Fence}
use agents_board.Store.Blob.Object.{Object, version, fence_holds, Versioned}
use agents_board.Store.Snapshot.{Snap, snapshot_locked, left_by_call}
use agents_board.Store.Snapshot.Attempts.{Attempt, step_cases, attempts, attempts-keep}

fence-behind :
    {D : Type 0} (fence : Fence) (n : ℕ) (o : Object D)
    → fence ≡ some n
    → version o ≢ n
    → fence_holds fence o ≡ false
fence-behind fence n o e d = rw e (ground arith)

module _ {D : Type 0} (B : Blob D) (laws : Versioned B) where
  put-refused :
      (w : B.State) (content : D) (fence : Fence)
      → laws.IsValid w
      → fence_holds fence (laws.view w) ≡ false
      → ((B.put w content fence).0 ≡ err generation_mismatch)
        × (laws.view (B.put w content fence).1 ≡ laws.view w)
        × laws.IsValid (B.put w content fence).1
  put-refused w content fence v f =
      let p = laws.put_lem w content fence v in (p.0 ∙ (rw f refl), p.1 ∙ (rw f refl), p.2)

  put-accepted :
      (w : B.State) (content : D) (fence : Fence)
      → laws.IsValid w
      → fence_holds fence (laws.view w) ≡ true
      → ((B.put w content fence).0 ≡ ok (version (laws.view w) + 1))
        × (laws.view (B.put w content fence).1 ≡ some (content, version (laws.view w) + 1))
        × laws.IsValid (B.put w content fence).1
  put-accepted w content fence v f =
      let p = laws.put_lem w content fence v in (p.0 ∙ (rw f refl), p.1 ∙ (rw f refl), p.2)

  -- The store is fenced at n, the object is o, and there are unsaved writes.
  IsBehind : ℕ → Object D → Snap × B.State → Type 0
  IsBehind n o p =
      (p.0.generation ≡ some n) × (laws.view p.1 ≡ o) × laws.IsValid p.1 × (p.0.dirty ≡ true)

  locked-IsBehind :
      (n : ℕ) (o : Object D) (copied : Result D) (now : ℕ) (s : Snap) (w : B.State)
      → version o ≢ n
      → IsBehind n o (s, w)
      → IsBehind n o (left_by_call B (snapshot_locked B copied now s w))
  unfolding snapshot_locked IsBehind
  locked-IsBehind n o (err e) now s w d h = (h.0, h.1, h.2, refl)
  locked-IsBehind n o (ok content) now s w d h =
      let p =
        put-refused w content s.generation h.2
          (fence-behind s.generation n (laws.view w) h.0 (rw h.1 d)) in
      rw p.0 (h.0, p.1 ∙ h.1, p.2, refl)

  -- Whatever the store is then asked to do, an object that another writer has moved to another
  -- generation stays as it is, and the store keeps its old fence and stays dirty.
  pub attempts-stale :
      (n : ℕ) (calls : List (Attempt D)) (s : Snap) (w : B.State)
      → laws.IsValid w
      → s.generation ≡ some n
      → s.dirty ≡ true
      → version (laws.view w) ≢ n
      → (laws.view (attempts B calls (s, w)).1 ≡ laws.view w)
        × ((attempts B calls (s, w)).0.generation ≡ some n)
        × ((attempts B calls (s, w)).0.dirty ≡ true)
  unfolding IsBehind
  attempts-stale n calls s w v g m d =
      let r =
        attempts-keep B (IsBehind n (laws.view w))
          (λ c copied now s' w' h.
            step_cases B (IsBehind n (laws.view w)) c copied now s' w' h (h.0, h.1, h.2, refl)
              (locked-IsBehind n (laws.view w) copied now s' w' d h))
          calls (s, w) (g, refl, v, m) in
      (r.1, r.0, r.3)

  -- The store knows the generation of the object.
  abbrev pub IsFenced : Snap × B.State → Type 0
  IsFenced p = (p.0.generation ≡ some (version (laws.view p.1))) × laws.IsValid p.1

  -- What an upload of the only writer does.
  pub locked-fenced :
      (content : D) (now : ℕ) (s : Snap) (w : B.State)
      → IsFenced (s, w)
      → ((snapshot_locked B (ok content) now s w).0 ≡ ok tt)
        × ((snapshot_locked B (ok content) now s w).1 ≡ record s {
          generation = some (version (laws.view w) + 1);
          dirty = false;
          last_snapshot = some now;
          last_err = none;
        })
        × (laws.view (snapshot_locked B (ok content) now s w).2
            ≡ some (content, version (laws.view w) + 1))
        × laws.IsValid (snapshot_locked B (ok content) now s w).2
  unfolding snapshot_locked
  locked-fenced content now s w h =
      let p = put-accepted w content s.generation h.1 (rw h.0 (ground arith)) in
      rw p.0 (refl, refl, p.1, p.2)

  locked-IsFenced :
      (copied : Result D) (now : ℕ) (s : Snap) (w : B.State)
      → IsFenced (s, w)
      → IsFenced (left_by_call B (snapshot_locked B copied now s w))
  unfolding snapshot_locked
  locked-IsFenced (err e) now s w h = h
  locked-IsFenced (ok content) now s w h =
      let p = locked-fenced content now s w h in
      (ap (λ t. t.generation) p.1 ∙ ap (λ o. some (version o)) (sym p.2), p.3)

  -- A store that knows the generation of the object still knows it after any sequence of snapshot
  -- calls, whether their uploads happen, are put off or fail before the Put: its own uploads never
  -- make its fence stale.
  pub attempts-IsFenced :
      (calls : List (Attempt D)) (s : Snap) (w : B.State)
      → IsFenced (s, w)
      → IsFenced (attempts B calls (s, w))
  attempts-IsFenced calls s w h =
      attempts-keep B IsFenced
        (λ c copied now s' w' k.
          step_cases B IsFenced c copied now s' w' k k (locked-IsFenced copied now s' w' k))
        calls (s, w) h
