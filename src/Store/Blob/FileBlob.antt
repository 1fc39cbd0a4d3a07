-- ===== src/Store/Blob/FileBlob.antt =====
-- internal/store/blob_file.go: the object as a local file with its generation in a sidecar file.
pub mod Refinement
use agents_board.Common.{
  ℕ, ◌+◌, Bool, true, false, not, ◌||◌, Option, none, some, ◌==◌, ltb, if◌then◌else◌, Result, ok,
  err, Err, not_found, invalid_key, revoked, locked, duplicate, no_object, generation_mismatch,
  failure, validation,
}
use agents_board.Store.Blob.{Blob, Fence}

-- The two files; `some none` is a sidecar that is no number. The last two fields are what the
-- operating system will do to the next writes: a write that fails leaves the old file, since it
-- goes to a temporary file that is renamed.
pub record Files (D : Type 0) : Type 0 where
  pub file : Option D
  pub sidecar : Option (Option ℕ)
  pub file_fails : Bool
  pub sidecar_fails : Bool

-- Generation, from the two files.
abbrev pub generation_of : {D : Type 0} → Option D → Option (Option ℕ) → Result ℕ
generation_of none sidecar = err no_object
generation_of (some content) none = ok 1
generation_of (some content) (some none) = err failure
generation_of (some content) (some (some n)) = if ltb n 1 then err failure else ok n

unfoldable pub file_generation : {D : Type 0} → Files D → Result ℕ
file_generation b = generation_of b.file b.sidecar

-- The read of Get after Generation.
abbrev pub read_at : {D : Type 0} → Option D → Result ℕ → Result (D × ℕ)
read_at file (err e) = err e
read_at none (ok n) = err failure
read_at (some content) (ok n) = ok (content, n)

unfoldable pub file_get : {D : Type 0} → Files D → Result (D × ℕ)
file_get b = read_at b.file (generation_of b.file b.sidecar)

-- The switch of Put on the fence: is the write refused?
abbrev pub mismatch : Fence → Bool → ℕ → Bool
mismatch none exists current = false
mismatch (some n) exists current = if n == 0 then exists else not exists || not (current == n)

-- The two writes of Put.
abbrev pub file_write : {D : Type 0} → Files D → D → ℕ → Result ℕ × Files D
file_write b content next =
    if b.file_fails
    then (err failure, b)
    else if b.sidecar_fails
    then (err failure, record b { file = some content })
    else (ok next, record b { file = some content; sidecar = some (some next) })

abbrev pub put_at : {D : Type 0} → Files D → D → Fence → Result ℕ → Result ℕ × Files D
put_at b content fence (ok current) =
    if mismatch fence true current
    then (err generation_mismatch, b)
    else file_write b content (current + 1)
put_at b content fence (err no_object) =
    if mismatch fence false 0 then (err generation_mismatch, b) else file_write b content 1
put_at b content fence (err e) = (err e, b)

unfoldable pub file_put : {D : Type 0} → Files D → D → Fence → Result ℕ × Files D
file_put b content fence = put_at b content fence (generation_of b.file b.sidecar)

abbrev pub file_blob : (D : Type 0) → Blob D
file_blob D = record {
  State = Files D;
  get = file_get;
  generation = file_generation;
  put = file_put;
}
