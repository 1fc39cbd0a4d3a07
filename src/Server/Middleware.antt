-- ===== src/Server/Middleware.antt =====
-- The chain in front of the mux (internal/server/middleware.go). A handler takes the request and the
-- headers set so far on the response, and leaves headers and how the request went.
pub mod Chain
pub mod Redirects
use agents_board.Common.{
  ℕ, Bool, true, false, not, ◌||◌, Option, none, some, List, [], ◌∷◌, ◌++◌, Text, codes, eq_text,
  is_empty, has_prefix, split, trim_space, if◌then◌else◌, map,
}

-- What the chain reads of a request; a header that is absent is empty.
pub record Request : Type 0 where
  pub path : Text
  pub host : Text
  pub forwarded_proto : Text
  pub forwarded_host : Text
  pub edge_key_header : Text

-- `moved` is a 301 to https, a host and a path; `failed` is an error answer, as JSON or as a page;
-- `panicked` ends with an unrecovered panic before anything was sent, `aborted` with
-- http.ErrAbortHandler.
pub data Outcome (R : Type 0) : Type 0 where
  served : R → Outcome R
  moved : Text → Text → Outcome R
  failed : Bool → ℕ → Outcome R
  panicked aborted : Outcome R

abbrev pub Headers : Type 0
Headers = List (Text × Text)

abbrev pub Serve : Type 0 → Type 0
Serve R = Request → Headers → Headers × Outcome R

-- The fields of Config and Server that the chain reads.
pub record Shell : Type 0 where
  pub ot_token : Text
  pub edge_key : Text
  pub base_host : Text

abbrev pub is_health : Request → Bool
is_health r = eq_text r.path (codes "/health")

-- writeStatus: JSON for an API path, else a page.
abbrev pub write_status : {R : Type 0} → ℕ → Serve R
write_status status r h = (
  h,
  failed (has_prefix r.path (codes "/api/") || has_prefix r.path (codes "/admin/") || is_health r)
      status,
)

abbrev pub recovered : {R : Type 0} → Request → Headers × Outcome R → Headers × Outcome R
recovered r (h, panicked) = write_status 500 r h
recovered r (h, o) = (h, o)

unfoldable pub recover_panic : {R : Type 0} → Serve R → Serve R
recover_panic next r h = recovered r (next r h)

abbrev pub content_security_policy : Text
content_security_policy =
    codes
      "default-src 'self'; script-src 'self'; style-src 'self'; img-src 'self' data:; frame-ancestors 'none'; base-uri 'none'; form-action 'self'"

abbrev pub fixed_headers : Headers
fixed_headers =
    (codes "Content-Security-Policy", content_security_policy)
    ∷ (codes "Permissions-Policy", codes "tools=(self)")
    ∷ (codes "X-Content-Type-Options", codes "nosniff")
    ∷ (codes "Referrer-Policy", codes "same-origin")
    ∷ []

abbrev pub security : Text → Headers
security ot_token =
    fixed_headers ++ (if is_empty ot_token then [] else (codes "Origin-Trial", ot_token) ∷ [])

unfoldable pub security_headers : {R : Type 0} → Text → Serve R → Serve R
security_headers ot_token next r h = next r (h ++ security ot_token)

unfoldable pub https_redirect : {R : Type 0} → Serve R → Serve R
https_redirect next r h =
    if eq_text r.forwarded_proto (codes "http") then (h, moved r.host r.path) else next r h

-- The loop of canonicalHost, over strings.EqualFold.
unfoldable pub names_host : (Text → Text → Bool) → Text → List Text → Bool
names_host equal_fold want [] = false
names_host equal_fold want (v ∷ values) =
    equal_fold (trim_space v) want || names_host equal_fold want values

unfoldable pub canonical_host : {R : Type 0} → (Text → Text → Bool) → Text → Serve R → Serve R
canonical_host equal_fold want next r h =
    if is_empty want || is_empty r.forwarded_host || is_health r
    then next r h
    else if names_host equal_fold want (split b',' r.forwarded_host)
    then next r h
    else (h, moved want r.path)

unfoldable pub edge_key : {R : Type 0} → Text → Serve R → Serve R
edge_key want next r h =
    if is_empty want || is_health r
    then next r h
    else if not (eq_text r.edge_key_header want)
    then write_status 421 r h
    else next r h

-- The request log changes nothing of the answer.
unfoldable pub middleware : {R : Type 0} → (Text → Text → Bool) → Shell → Serve R → Serve R
middleware equal_fold s next = recover_panic (
    security_headers s.ot_token
      (https_redirect (canonical_host equal_fold s.base_host (edge_key s.edge_key next))))
