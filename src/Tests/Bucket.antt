-- ===== src/Tests/Bucket.antt =====
-- A small storage service for the bucket object: all its contents so far, the newest first, where a
-- content is a number and a body is one too.
use agents_board.Common.{
  ℕ, ◌+◌, ◌≡◌, ◌==◌, refl, arith, Bool, true, inl, inr, Option, none, some, List, [], ◌∷◌, Text,
  codes, length, if◌then◌else◌, Bool-cases, Option-cases, Result, ok, err, is_empty,
}
use agents_board.Store.Blob.{Fence}
use agents_board.Store.Blob.Gcs.{
  Request, token_request, object_metadata, object_media, object_upload, Response, Service, Client,
  access_token, authorized, gcs_put, gcs_get, gcs_generation, gcs_content,
}
use agents_board.Store.Blob.Gcs.Generations.{Documented, gcs_put-gcs_get}
use agents_board.Tests.Fixture.{noon}

abbrev version_of : List ℕ → ℕ → Option ℕ
version_of [] n = none
version_of (c ∷ w) n = if n == length w + 1 then some c else version_of w n

abbrev answer_with : ℕ → ℕ → Option (Response ℕ)
answer_with status body = some (record { status = status; body = body })

abbrev download : Option ℕ → Option (Response ℕ)
download none = answer_with 404 0
download (some c) = answer_with 200 c

abbrev metadata : List ℕ → Option (Response ℕ)
metadata [] = answer_with 404 0
metadata (c ∷ w) = answer_with 200 (length w + 1)

abbrev admits : Fence → ℕ → Bool
admits none n = true
admits (some m) n = m == n

abbrev bucket_send : List ℕ → Request ℕ → Option (Response ℕ) × List ℕ
bucket_send w token_request = (answer_with 200 0, w)
bucket_send w (object_metadata token) = (metadata w, w)
bucket_send w (object_media token n) = (download (version_of w n), w)
bucket_send w (object_upload token fence c) =
    if admits fence (length w)
    then (answer_with 200 (length w + 1), c ∷ w)
    else (answer_with 412 0, w)

abbrev bucket : Service ℕ
bucket = record {
  World = List ℕ;
  send = bucket_send;
  decode_token = λ body. some (codes "t", 3600);
  decode_generation = λ body. some body;
}

download-version :
    (w after : List ℕ) (token : Text) (n : ℕ) (r : Response ℕ)
    → bucket_send w (object_media token n) ≡ (some r, after)
    → r.status ≡ 200
    → version_of after n ≡ some r.body
download-version w after token n r h k = elim (Option-cases (version_of w n)) [
  | inl e ↦ absurd (ground arith)
  | inr (c, e) ↦ ground arith
]

upload-version :
    (w after : List ℕ) (token : Text) (fence : Fence) (c n : ℕ) (r : Response ℕ)
    → bucket_send w (object_upload token fence c) ≡ (some r, after)
    → r.status ≡ 200
    → r.body ≡ n
    → version_of after n ≡ some c
upload-version w after token fence c n r h k d = elim (Bool-cases (admits fence (length w))) [
  | inl e ↦
      let grown : after ≡ c ∷ w = ground arith in
      let number : n ≡ length w + 1 = ground arith in rw (grown, number) (ground arith)
  | inr e ↦ absurd (ground arith)
]

abbrev bucket_documented : Documented bucket
bucket_documented = record {
  version = version_of;
  Later = λ w later.
      (n content : ℕ) → version_of w n ≡ some content → version_of later n ≡ some content;
  later_lem = λ w later n content kept h. kept n content h;
  media_lem = λ w token n r after h k. download-version w after token n r h k;
  upload_lem = λ w token fence content r after n h k d.
      upload-version w after token fence content n r h k (ground arith);
}

abbrev fresh : Client bucket
fresh = record { token = []; token_expiry = 0; world = 5 ∷ [] }

abbrev uploaded : Client bucket
uploaded = (gcs_put bucket noon 9 (some 1) fresh).1

put_nine : gcs_put bucket noon 9 (some 1) fresh ≡ (ok 2, uploaded)
unfolding gcs_put authorized access_token is_empty
put_nine = refl

-- A second client.
abbrev fresh_reader : Client bucket
fresh_reader = record fresh { world = uploaded.world }

abbrev downloaded : Client bucket
downloaded = (gcs_get bucket noon fresh_reader).1

abbrev content_or_zero : Result (ℕ × ℕ) → ℕ
content_or_zero (err e) = 0
content_or_zero (ok (content, n)) = content

abbrev read_back : ℕ
read_back = content_or_zero (gcs_get bucket noon fresh_reader).0

get_nine : gcs_get bucket noon fresh_reader ≡ (ok (read_back, 2), downloaded)
unfolding gcs_get gcs_generation gcs_content gcs_put authorized access_token is_empty
get_nine = refl

same_world : uploaded.world ≡ downloaded.world
unfolding gcs_get gcs_generation gcs_content gcs_put authorized access_token is_empty
same_world = refl

gcs_put-gcs_get_example : read_back ≡ 9
unfolding gcs_get gcs_generation gcs_content gcs_put authorized access_token is_empty
gcs_put-gcs_get_example =
    gcs_put-gcs_get bucket bucket_documented noon noon 2 9 read_back (some 1) fresh uploaded
      fresh_reader downloaded put_nine get_nine (λ n content h. h)
