-- ===== src/Store/Blob/Gcs/Generations.antt =====
-- Put and Get of internal/store/blob_gcs.go against a service that keeps what each generation was.
use agents_board.Common.{
  ℕ, ◌≡◌, refl, sym, ap, ◌∙◌, arith, inl, inr, Option, none, some, Text, ◌==◌, Bool-cases, Result,
  ok, err, no_object, generation_mismatch, Err,
}
use agents_board.Store.Blob.{Fence}
use agents_board.Store.Blob.Gcs.{
  Request, object_media, object_upload, Response, Service, Client, Call, after_call, ◌>>=◌, return,
  received, access_token, authorized, body_or, number_of, decoded_generation, gcs_generation,
  gcs_content, gcs_get, gcs_put,
}

-- What the storage service documents: a generation names one content for good, a download of a
-- generation answers its content, and an upload makes its generation. `version` is the content that
-- a generation has, or had before it was replaced; `Later` is whatever the client and other writers
-- do in between.
pub record Documented {D : Type 0} (s : Service D) : Type 1 where
  pub version : s.World → ℕ → Option D
  pub Later : s.World → s.World → Type 0
  pub later_lem :
      (w later : s.World) (n : ℕ) (content : D)
      → Later w later
      → version w n ≡ some content
      → version later n ≡ some content
  pub media_lem :
      (w : s.World) (token : Text) (n : ℕ) (r : Response D) (after : s.World)
      → s.send w (object_media token n) ≡ (some r, after)
      → r.status ≡ 200
      → version after n ≡ some r.body
  pub upload_lem :
      (w : s.World) (token : Text) (fence : Fence) (content : D) (r : Response D) (after : s.World)
      (n : ℕ)
      → s.send w (object_upload token fence content) ≡ (some r, after)
      → r.status ≡ 200
      → s.decode_generation r.body ≡ some n
      → version after n ≡ some content

after_call-ok :
    {D : Type 0} {s : Service D} {A B : Type 0} (x : Result A × Client s) (next : A → Call s B)
    {y : B} {b' : Client s}
    → after_call x next ≡ (ok y, b')
    → (a : A) × (mid : Client s) × (x ≡ (ok a, mid)) × (next a mid ≡ (ok y, b'))
after_call-ok (err e, b) next h = absurd (ground arith)
after_call-ok (ok a, b) next h = (a, b, refl, h)

body_or-ok :
    {D : Type 0} (status : ℕ) (e : Err) (r : Response D) {body : D}
    → body_or status e r ≡ ok body
    → (r.status ≡ 200) × (body ≡ r.body)
body_or-ok status e r h = elim (Bool-cases (r.status == 200)) [
  | inl f ↦ (ground arith, ground arith)
  | inr f ↦ elim (Bool-cases (r.status == status)) [
    | inl k ↦ absurd (ground arith)
    | inr k ↦ absurd (ground arith)
  ]
]

received-ok :
    {D : Type 0} (s : Service D) (b : Client s) (x : Option (Response D) × s.World) {r : Response D}
    {b' : Client s}
    → received s b x ≡ (ok r, b')
    → x ≡ (some r, b'.world)
received-ok s b (none, w) h = absurd (ground arith)
received-ok s b (some r, w) h = ground arith

number_of-ok : (o : Option ℕ) {n : ℕ} → number_of o ≡ ok n → o ≡ some n
number_of-ok none h = absurd (ground arith)
number_of-ok (some n) h = ground arith

-- An authorized request is one request with some token.
authorized-sent :
    {D : Type 0} (s : Service D) (now : ℕ) (request : Text → Request D) (b : Client s)
    {r : Response D} {b' : Client s}
    → authorized s now request b ≡ (ok r, b')
    → (token : Text) × (w : s.World) × (s.send w (request token) ≡ (some r, b'.world))
unfolding authorized
authorized-sent s now request b h =
    let (token, mid, e, f) = after_call-ok (access_token s now b) _ h in
    (token, mid.world, received-ok s mid (s.send mid.world (request token)) f)

-- A call of the source: a request, the switch on its status, and the rest.
answered-sent :
    {D : Type 0} (s : Service D) (now status : ℕ) (e : Err) (request : Text → Request D)
    {A : Type 0} (finish : D → Result A) (b : Client s) {y : A} {b' : Client s}
    → (authorized s now request >>= (λ r. return (body_or status e r)) >>= (λ d. return (finish d)))
        b
      ≡ (ok y, b')
    → (token : Text) × (w : s.World) × (r : Response D) × (s.send w (request token)
        ≡ (some r, b'.world))
      × (r.status ≡ 200)
      × (finish r.body ≡ ok y)
answered-sent s now status e request finish b h =
    let (d, mid, e1, f1) =
      after_call-ok ((authorized s now request >>= (λ r. return (body_or status e r))) b) _ h in
    let (r, first, e2, f2) = after_call-ok (authorized s now request b) _ e1 in
    let (token, w, sent) = authorized-sent s now request b e2 in
    let (good, same) = body_or-ok status e r (ap (λ x. x.0) f2) in
    (
      token,
      w,
      r,
      sent ∙ ap (λ (c : Client s). (some r, c.world)) (ap (λ x. x.1) f2 ∙ ap (λ x. x.1) f1),
      good,
      ap finish (sym same) ∙ ap (λ x. x.0) f1,
    )

gcs_put-version :
    {D : Type 0} (s : Service D) (law : Documented s) (now : ℕ) (content : D) (fence : Fence)
    (b : Client s) {n : ℕ} {b' : Client s}
    → gcs_put s now content fence b ≡ (ok n, b')
    → law.version b'.world n ≡ some content
unfolding gcs_put
gcs_put-version s law now content fence b {n} {b'} h =
    let (token, w, r, sent, good, done) =
      answered-sent s now 412 generation_mismatch (λ token. object_upload token fence content)
        (decoded_generation s) b h in
    law.upload_lem w token fence content r b'.world n sent good
      (number_of-ok (s.decode_generation r.body) done)

gcs_get-version :
    {D : Type 0} (s : Service D) (law : Documented s) (now : ℕ) (b : Client s) {content : D} {n : ℕ}
    {b' : Client s}
    → gcs_get s now b ≡ (ok (content, n), b')
    → law.version b'.world n ≡ some content
unfolding gcs_get gcs_content
gcs_get-version s law now b {content} {n} {b'} h =
    let (gen, mid, e, f) = after_call-ok (gcs_generation s now b) (gcs_content s now) h in
    let (token, w, r, sent, good, done) =
      answered-sent s now 404 no_object (λ token. object_media token gen) (λ d. ok (d, gen)) mid
        f in
    let body : r.body ≡ content = ground arith in
    let number : gen ≡ n = ground arith in
    ap (law.version b'.world) (sym number)
    ∙ law.media_lem w token gen r b'.world sent good
    ∙ ap some body

-- A Get of the bucket object that answers with the generation of an earlier Put answers with exactly
-- the content of that Put, whatever other writers did between the two and during the Get, and
-- whatever token each request carries. (The service is as documented: a generation names one content
-- for good.)
pub gcs_put-gcs_get :
    {D : Type 0} (s : Service D) (law : Documented s) (now later n : ℕ) (content found : D)
    (fence : Fence) (b put reader got : Client s)
    → gcs_put s now content fence b ≡ (ok n, put)
    → gcs_get s later reader ≡ (ok (found, n), got)
    → law.Later put.world got.world
    → found ≡ content
gcs_put-gcs_get s law now later n content found fence b put reader got h k between =
    let stored =
      law.later_lem put.world got.world n content between
        (gcs_put-version s law now content fence b h) in
    let read = gcs_get-version s law later reader k in ground arith
