-- ===== src/Store/Blob/Gcs.antt =====
-- internal/store/blob_gcs.go: the object in a storage bucket, through requests to the metadata server
-- and the storage service. A request is its endpoint with what the URL, the Authorization header and
-- the body carry. The service, and the decoding of its JSON bodies, are a parameter.
pub mod Generations
use agents_board.Common.{
  ℕ, ◌+◌, ◌-◌, ◌*◌, Bool, true, false, not, ◌&&◌, Option, none, some, Text, is_empty, ◌==◌, ltb,
  if◌then◌else◌, Result, ok, err, Err, no_object, generation_mismatch, failure,
}
use agents_board.Store.Types.{second}
use agents_board.Store.Blob.{Blob, Fence}

pub data Request (D : Type 0) : Type 0 where
  token_request : Request D
  object_metadata : Text → Request D
  object_media : Text → ℕ → Request D
  object_upload : Text → Fence → D → Request D

pub record Response (D : Type 0) : Type 0 where
  pub status : ℕ
  pub body : D

-- No response is a transport error. A decoder fails on a body that is not the JSON it reads; the
-- token's is its text and its life in seconds.
pub record Service (D : Type 0) : Type 1 where
  pub World : Type 0
  pub send : World → Request D → Option (Response D) × World
  pub decode_token : D → Option (Text × ℕ)
  pub decode_generation : D → Option ℕ

-- The cached token, empty for none, and the world that the client talks to.
pub record Client {D : Type 0} (s : Service D) : Type 0 where
  pub token : Text
  pub token_expiry : ℕ
  pub world : s.World

abbrev pub token_slack : ℕ
token_slack = 60 * second

abbrev pub Call : {D : Type 0} → Service D → Type 0 → Type 0
Call s A = Client s → Result A × Client s

abbrev pub after_call :
    {D : Type 0} {s : Service D} {A B : Type 0}
    → Result A × Client s
    → (A → Call s B)
    → Result B × Client s
after_call (err e, b) next = (err e, b)
after_call (ok a, b) next = next a b

infixl 5 ◌>>=◌
abbrev pub ◌>>=◌ :
    {D : Type 0} {s : Service D} {A B : Type 0} → Call s A → (A → Call s B) → Call s B
(m >>= next) b = after_call (m b) next

abbrev pub return : {D : Type 0} {s : Service D} {A : Type 0} → Result A → Call s A
return r b = (r, b)

abbrev pub received :
    {D : Type 0} (s : Service D)
    → Client s
    → Option (Response D) × s.World
    → Result (Response D) × Client s
received s b (none, w) = (err failure, record b { world = w })
received s b (some r, w) = (ok r, record b { world = w })

-- client().Do
abbrev pub send_request : {D : Type 0} (s : Service D) → Request D → Call s (Response D)
send_request s q b = received s b (s.send b.world q)

abbrev pub keep_token : {D : Type 0} (s : Service D) → ℕ → Option (Text × ℕ) → Call s Text
keep_token s now none b = (err failure, b)
keep_token s now (some (token, life)) b =
    if is_empty token
    then (err failure, b)
    else (ok token, record b { token = token; token_expiry = now + life * second })

abbrev pub take_token : {D : Type 0} (s : Service D) → ℕ → Response D → Call s Text
take_token s now r =
    if not (r.status == 200) then return (err failure) else keep_token s now (s.decode_token r.body)

unfoldable pub access_token : {D : Type 0} (s : Service D) → ℕ → Call s Text
access_token s now b =
    if not (is_empty b.token) && ltb now (b.token_expiry - token_slack)
    then (ok b.token, b)
    else (send_request s token_request >>= take_token s now) b

-- do
unfoldable pub authorized :
    {D : Type 0} (s : Service D) → ℕ → (Text → Request D) → Call s (Response D)
authorized s now request = access_token s now >>= λ token. send_request s (request token)

-- The switches on the status: the body of a 200, and the error that another status stands for.
abbrev pub body_or : {D : Type 0} → ℕ → Err → Response D → Result D
body_or status e r =
    if r.status == 200 then ok r.body else if r.status == status then err e else err failure

abbrev pub number_of : Option ℕ → Result ℕ
number_of none = err failure
number_of (some n) = ok n

-- decodeGeneration
abbrev pub decoded_generation : {D : Type 0} (s : Service D) → D → Result ℕ
decoded_generation s body = number_of (s.decode_generation body)

unfoldable pub gcs_generation : {D : Type 0} (s : Service D) → ℕ → Call s ℕ
gcs_generation s now =
    authorized s now object_metadata
    >>= (λ r. return (body_or 404 no_object r))
    >>= (λ body. return (decoded_generation s body))

-- The content of one generation.
unfoldable pub gcs_content : {D : Type 0} (s : Service D) → ℕ → ℕ → Call s (D × ℕ)
gcs_content s now gen =
    authorized s now (λ token. object_media token gen)
    >>= (λ r. return (body_or 404 no_object r))
    >>= (λ content. return (ok (content, gen)))

unfoldable pub gcs_get : {D : Type 0} (s : Service D) → ℕ → Call s (D × ℕ)
gcs_get s now = gcs_generation s now >>= gcs_content s now

unfoldable pub gcs_put : {D : Type 0} (s : Service D) → ℕ → D → Fence → Call s ℕ
gcs_put s now content fence =
    authorized s now (λ token. object_upload token fence content)
    >>= (λ r. return (body_or 412 generation_mismatch r))
    >>= (λ body. return (decoded_generation s body))
