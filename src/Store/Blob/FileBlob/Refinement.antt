-- ===== src/Store/Blob/FileBlob/Refinement.antt =====
-- FileBlob implements the versioned object (internal/store/blob_file.go).
use mathlib.Core.Path.{subst}
use agents_board.Common.{
  sym, ℕ, ◌+◌, ◌≡◌, ◌≤◌, refl, arith, Bool, true, false, Option, none, some, ltb, if◌then◌else◌,
  Result,
}
use agents_board.Store.Blob.{Fence}
use agents_board.Store.Blob.Object.{
  Object, object_generation, PutLaw, Versioned, object_get, object_put,
}
use agents_board.Store.Blob.FileBlob.{
  Files, file_blob, generation_of, file_generation, read_at, file_get, mismatch, file_write,
  file_put,
}

-- A sidecar is absent or a positive number.
abbrev pub SidecarFits : Option (Option ℕ) → Type 0
SidecarFits none = Unit {0}
SidecarFits (some none) = ⊥
SidecarFits (some (some n)) = 1 ≤ n

-- The sidecar is sound and writes succeed.
pub record IsSound {D : Type 0} (b : Files D) : Type 0 where
  pub sidecar_ok : SidecarFits b.sidecar
  pub file_works : b.file_fails ≡ false
  pub sidecar_works : b.sidecar_fails ≡ false

-- The object that the two files stand for.
abbrev pub object_at : {D : Type 0} → Option D → Option (Option ℕ) → Object D
object_at none s = none
object_at (some content) none = some (content, 1)
object_at (some content) (some none) = none
object_at (some content) (some (some n)) = some (content, n)

abbrev pub object_of : {D : Type 0} → Files D → Object D
object_of b = object_at b.file b.sidecar

-- Two files on a disk where writes succeed.
abbrev disk : {D : Type 0} → Option D → Option (Option ℕ) → Files D
disk file sidecar = record {
  file = file;
  sidecar = sidecar;
  file_fails = false;
  sidecar_fails = false;
}

pub get-object_at :
    {D : Type 0} (file : Option D) (sidecar : Option (Option ℕ))
    → SidecarFits sidecar
    → read_at file (generation_of file sidecar) ≡ object_get (object_at file sidecar)
get-object_at none s h = refl
get-object_at (some c) none h = refl
get-object_at (some c) (some none) h = absurd h
get-object_at (some c) (some (some n)) h = ground arith

-- The promise of Put for a FileBlob.
abbrev pub PutsAs : {D : Type 0} → D → Fence → Files D → Type 0
PutsAs {D = D} = PutLaw (file_blob D) object_of IsSound

pub generation-object_at :
    {D : Type 0} (file : Option D) (sidecar : Option (Option ℕ))
    → SidecarFits sidecar
    → generation_of file sidecar ≡ object_generation (object_at file sidecar)
generation-object_at none s h = refl
generation-object_at (some c) none h = refl
generation-object_at (some c) (some none) h = absurd h
generation-object_at (some c) (some (some n)) h = ground arith

disk-IsSound :
    {D : Type 0} (file : Option D) (sidecar : Option (Option ℕ))
    → SidecarFits sidecar
    → IsSound (disk file sidecar)
disk-IsSound file sidecar h = record { sidecar_ok = h; file_works = refl; sidecar_works = refl }

branch-IsSound :
    {D : Type 0} (c : Bool) (x y : Result ℕ × Files D)
    → IsSound x.1
    → IsSound y.1
    → IsSound (if c then x else y).1
branch-IsSound true x y u v = u
branch-IsSound false x y u v = v

-- The files after a Put that writes.
written :
    {D : Type 0} (content : D) (sidecar : Option (Option ℕ)) (next : ℕ)
    → 1 ≤ next
    → IsSound (file_write (disk (some content) sidecar) content next).1
written content sidecar next h = record { sidecar_ok = h; file_works = refl; sidecar_works = refl }

positive : (n : ℕ) → 1 ≤ n → ltb n 1 ≡ false
positive n h = ground arith

-- Put where both files are there.
put_numbered :
    {D : Type 0} (content c : D) (fence : Fence) (n : ℕ)
    → 1 ≤ n
    → PutsAs content fence (disk (some c) (some (some n)))
unfolding file_put
put_numbered content c none n h = (
  ground arith,
  ground arith,
  rw (positive n h) (written content (some (some n)) (n + 1) (ground arith)),
)
put_numbered content c (some k) n h = (
  ground arith,
  ground arith,
  rw (positive n h) (
      branch-IsSound (mismatch (some k) true n) _ _ (disk-IsSound (some c) (some (some n)) h)
        (written content (some (some n)) (n + 1) (ground arith))),
)

-- Put on two given files, where writes succeed.
put_works :
    {D : Type 0} (content : D) (fence : Fence) (file : Option D) (sidecar : Option (Option ℕ))
    → SidecarFits sidecar
    → PutsAs content fence (disk file sidecar)
unfolding file_put
put_works content none none s h = (ground arith, ground arith, written content s 1 (ground arith))
put_works content (some k) none s h = (
  ground arith,
  ground arith,
  branch-IsSound (mismatch (some k) false 0) _ _ (disk-IsSound none s h)
      (written content s 1 (ground arith)),
)
put_works content none (some c) none h =
    (ground arith, ground arith, written content none 2 (ground arith))
put_works content (some k) (some c) none h = (
  ground arith,
  ground arith,
  branch-IsSound (mismatch (some k) true 1) _ _ (disk-IsSound (some c) none h)
      (written content none 2 (ground arith)),
)
put_works content fence (some c) (some none) h = absurd h
put_works content fence (some c) (some (some n)) h = put_numbered content c fence n h

on_disk : {D : Type 0} (b : Files D) → IsSound b → b ≡ disk b.file b.sidecar
on_disk b h = λ i. record {
  file = b.file;
  sidecar = b.sidecar;
  file_fails = h.file_works i;
  sidecar_fails = h.sidecar_works i;
}

pub file_put-PutsAs :
    {D : Type 0} (b : Files D) (content : D) (fence : Fence) → IsSound b → PutsAs content fence b
file_put-PutsAs b content fence h =
    subst (PutsAs content fence) (sym (on_disk b h))
      (put_works content fence b.file b.sidecar h.sidecar_ok)

-- A FileBlob keeps the promises of the interface.
unfoldable pub file_blob_versioned : (D : Type 0) → Versioned (file_blob D)
unfolding file_get file_generation
file_blob_versioned D = record {
  view = object_of;
  IsValid = IsSound;
  get_lem = λ b h. get-object_at b.file b.sidecar h.sidecar_ok;
  generation_lem = λ b h. generation-object_at b.file b.sidecar h.sidecar_ok;
  put_lem = file_put-PutsAs;
}

-- A FileBlob with a sound sidecar (absent or a positive number), on a disk where writes succeed,
-- is the versioned object of the interface: Get and Generation answer as the object does, Put with
-- any fence returns and stores what the interface promises (a new generation above the old one if
-- the fence holds, else a refusal that changes nothing), and the FileBlob stays sound.
pub file_blob-refines :
    {D : Type 0} (b : Files D) (content : D) (fence : Fence)
    → IsSound b
    → (file_get b ≡ object_get (object_of b))
      × (file_generation b ≡ object_generation (object_of b))
      × ((file_put b content fence).0 ≡ (object_put (object_of b) content fence).0)
      × (object_of (file_put b content fence).1 ≡ (object_put (object_of b) content fence).1)
      × IsSound (file_put b content fence).1
unfolding file_blob_versioned
file_blob-refines {D = D} b content fence h =
    let p = file_put-PutsAs b content fence h in
    ((file_blob_versioned D).get_lem b h, (file_blob_versioned D).generation_lem b h, p.0, p.1, p.2)
