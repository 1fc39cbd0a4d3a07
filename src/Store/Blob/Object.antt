-- ===== src/Store/Blob/Object.antt =====
-- What the comments of Blob in internal/store/snapshot.go promise: one object with a generation
-- that each Put raises, and a Put that changes nothing unless the fence holds.
use agents_board.Common.{
  ℕ, ◌+◌, Bool, true, Option, none, some, ◌==◌, if◌then◌else◌, Result, ok, err, no_object,
  generation_mismatch, or_err, ◌≡◌,
}
use agents_board.Store.Blob.{Blob, Fence}

abbrev pub Object : Type 0 → Type 0
Object D = Option (D × ℕ)

-- The generation of an object, 0 for none.
abbrev pub version : {D : Type 0} → Object D → ℕ
version none = 0
version (some (content, n)) = n

abbrev pub fence_holds : {D : Type 0} → Fence → Object D → Bool
fence_holds none o = true
fence_holds (some n) o = n == version o

abbrev pub object_get : {D : Type 0} → Object D → Result (D × ℕ)
object_get o = or_err o no_object

abbrev pub object_put : {D : Type 0} → Object D → D → Fence → Result ℕ × Object D
object_put o content fence =
    if fence_holds fence o
    then (ok (version o + 1), some (content, version o + 1))
    else (err generation_mismatch, o)

abbrev pub object_generation : {D : Type 0} → Object D → Result ℕ
object_generation none = err no_object
object_generation (some (content, n)) = ok n

-- Put does to the object what the comments promise, where `view` is the object of a state, and keeps
-- the states valid.
abbrev pub PutLaw :
    {D : Type 0} (B : Blob D)
    → (B.State → Object D)
    → (B.State → Type 0)
    → D
    → Fence
    → B.State
    → Type 0
PutLaw B view IsValid content fence w =
    ((B.put w content fence).0 ≡ (object_put (view w) content fence).0)
    × (view (B.put w content fence).1 ≡ (object_put (view w) content fence).1)
    × IsValid (B.put w content fence).1

-- A Blob that keeps those promises in its valid states.
pub record Versioned {D : Type 0} (B : Blob D) : Type 1 where
  pub view : B.State → Object D
  pub IsValid : B.State → Type 0
  pub get_lem : (w : B.State) → IsValid w → B.get w ≡ object_get (view w)
  pub generation_lem : (w : B.State) → IsValid w → B.generation w ≡ object_generation (view w)
  pub put_lem :
      (w : B.State) (content : D) (fence : Fence)
      → IsValid w
      → PutLaw B view IsValid content fence w
