-- ===== src/Server/Middleware/Redirects.antt =====
-- A client that follows the redirects of internal/server/middleware.go through the edge.
use agents_board.Common.{
  ℕ, zero, suc, ◌≡◌, ◌⊎◌, inl, inr, arith, refl, sym, ◌∙◌, Bool, true, false, Option, none, some,
  List, [], ◌∷◌, ◌++◌, Text, codes, eq_text, split, trim_space,
}
use agents_board.Server.Middleware.{
  Request, Outcome, served, moved, failed, panicked, aborted, Headers, Serve, Shell, recovered,
  recover_panic, security_headers, https_redirect, names_host, canonical_host, edge_key, middleware,
  security,
}

-- What the edge forwards when a client asks for a path on a host over https: it says so in
-- X-Forwarded-Proto, and X-Forwarded-Host ends with the client's host.
pub record Edge : Type 0 where
  pub forward : Text → Text → Request
  pub earlier : Text → Text → List Text
  pub proto_lem : (host path : Text) → (forward host path).forwarded_proto ≡ codes "https"
  pub host_lem :
      (host path : Text)
      → split b',' (forward host path).forwarded_host ≡ earlier host path ++ split b',' host

abbrev pub is_moved : {R : Type 0} → Outcome R → Bool
is_moved (moved host path) = true
is_moved (served x) = false
is_moved (failed json status) = false
is_moved panicked = false
is_moved aborted = false

-- The request of a client that follows a redirect.
abbrev pub next_request : {R : Type 0} → Edge → Outcome R → Option Request
next_request edge (moved host path) = some (edge.forward host path)
next_request edge (served x) = none
next_request edge (failed json status) = none
next_request edge panicked = none
next_request edge aborted = none

-- The outcome after at most n redirects.
unfoldable pub follow : {R : Type 0} → Edge → Serve R → ℕ → Request → Outcome R
follow edge serve zero r = (serve r []).1
follow edge serve (suc n) r = elim (next_request edge (serve r []).1) [
  | none ↦ (serve r []).1
  | some q ↦ follow edge serve n q
]

names_host-last :
    (fold : Text → Text → Bool) (want : Text) (earlier : List Text)
    → fold (trim_space want) want ≡ true
    → names_host fold want (earlier ++ (want ∷ [])) ≡ true
unfolding names_host
names_host-last fold want [] h = ground arith
names_host-last fold want (v ∷ earlier) h = ground (arith, names_host-last fold want earlier h)

Outcome-cases :
    {R : Type 0} (o : Outcome R)
    → (is_moved o ≡ false) ⊎ ((host : Text) × (path : Text) × (o ≡ moved host path))
Outcome-cases (moved host path) = inr (host, path, refl)
Outcome-cases (served x) = inl refl
Outcome-cases (failed json status) = inl refl
Outcome-cases panicked = inl refl
Outcome-cases aborted = inl refl

next_request-stay :
    {R : Type 0} (edge : Edge) (o : Outcome R) → is_moved o ≡ false → next_request edge o ≡ none
next_request-stay edge (moved host path) h = absurd (ground arith)
next_request-stay edge (served x) h = refl
next_request-stay edge (failed json status) h = refl
next_request-stay edge panicked h = refl
next_request-stay edge aborted h = refl

follow-stay :
    {R : Type 0} (edge : Edge) (serve : Serve R) (n : ℕ) (r : Request)
    → is_moved (serve r []).1 ≡ false
    → follow edge serve n r ≡ (serve r []).1
unfolding follow
follow-stay edge serve zero r h = refl
follow-stay edge serve (suc n) r h = rw (follow, next_request-stay edge (serve r []).1 h) refl

follow-moved :
    {R : Type 0} (edge : Edge) (serve : Serve R) (n : ℕ) (r : Request) (host path : Text)
    → (serve r []).1 ≡ moved host path
    → follow edge serve (suc n) r ≡ follow edge serve n (edge.forward host path)
unfolding follow
follow-moved edge serve n r host path h = rw (follow, h) refl

is_moved-recovered :
    {R : Type 0} (r : Request) (a : Headers × Outcome R)
    → is_moved a.1 ≡ false
    → is_moved (recovered r a).1 ≡ false
is_moved-recovered r (h, moved host path) e = e
is_moved-recovered r (h, served x) e = refl
is_moved-recovered r (h, failed json status) e = refl
is_moved-recovered r (h, panicked) e = refl
is_moved-recovered r (h, aborted) e = refl

recovered-moved :
    {R : Type 0} (r : Request) (a : Headers × Outcome R) (host path : Text)
    → (recovered r a).1 ≡ moved host path
    → a.1 ≡ moved host path
recovered-moved r (h, moved a b) host path e = e
recovered-moved r (h, served x) host path e = e
recovered-moved r (h, failed json status) host path e = e
recovered-moved r (h, panicked) host path e = absurd (ground arith)
recovered-moved r (h, aborted) host path e = e

module _ {R : Type 0} (fold : Text → Text → Bool) (s : Shell) (next : Serve R)
    (stays : (r : Request) (h : Headers) → is_moved (next r h).1 ≡ false) where
  edge_key-stays :
      (want : Text) (r : Request) (h : Headers) → is_moved (edge_key want next r h).1 ≡ false
  unfolding edge_key
  edge_key-stays want r h = ground (arith, stays r h)

  -- A request that names the board's own host stays.
  canonical-stays :
      (want : Text) (r : Request) (h : Headers)
      → names_host fold s.base_host (split b',' r.forwarded_host) ≡ true
      → is_moved (canonical_host fold s.base_host (edge_key want next) r h).1 ≡ false
  unfolding canonical_host
  canonical-stays want r h e = ground (arith, edge_key-stays want r h)

  -- Any other goes to the board's own host.
  canonical-moves :
      (want : Text) (r : Request) (h : Headers) (host path : Text)
      → (canonical_host fold s.base_host (edge_key want next) r h).1 ≡ moved host path
      → host ≡ s.base_host
  unfolding canonical_host
  canonical-moves want r h host path e = ground (arith, edge_key-stays want r h)

  -- The chain on a request that came over https.
  over_https :
      (r : Request)
      → eq_text r.forwarded_proto (codes "http") ≡ false
      → (middleware fold s next r []).1
        ≡ (recovered r
            (canonical_host fold s.base_host (edge_key s.edge_key next) r (security s.ot_token))).1
  unfolding middleware recover_panic security_headers https_redirect
  over_https r e = rw e refl

  forwarded-https :
      (edge : Edge) (host path : Text)
      → eq_text (edge.forward host path).forwarded_proto (codes "http") ≡ false
  unfolding eq_text
  forwarded-https edge host path = rw (edge.proto_lem host path) (ground arith)

  forwarded-stays :
      (edge : Edge) (path : Text)
      → split b',' s.base_host ≡ s.base_host ∷ []
      → fold (trim_space s.base_host) s.base_host ≡ true
      → is_moved (middleware fold s next (edge.forward s.base_host path) []).1 ≡ false
  forwarded-stays edge path c e =
      let q = edge.forward s.base_host path in
      rw (over_https q (forwarded-https edge s.base_host path)) (
        is_moved-recovered q _ (
          canonical-stays s.edge_key q (security s.ot_token) (
            rw (edge.host_lem s.base_host path, c)
              (names_host-last fold s.base_host (edge.earlier s.base_host path) e))))

  forwarded-moves :
      (edge : Edge) (asked path : Text) (host path' : Text)
      → (middleware fold s next (edge.forward asked path) []).1 ≡ moved host path'
      → host ≡ s.base_host
  forwarded-moves edge asked path host path' m =
      let q = edge.forward asked path in
      canonical-moves s.edge_key q (security s.ot_token) host path'
        (recovered-moved q _ host path' (sym (over_https q (forwarded-https edge asked path)) ∙ m))

  -- Following redirects ends: whatever a client asks first, what it has after two redirects, or after
  -- any larger number that it would follow, is no redirect of the chain any more. This takes an edge
  -- that reports https and appends the client's host to X-Forwarded-Host, a base host without a comma
  -- that strings.EqualFold holds equal to itself, and a mux that makes no redirect to https itself.
  pub follow-middleware :
      (edge : Edge) (r : Request) (n : ℕ)
      → split b',' s.base_host ≡ s.base_host ∷ []
      → fold (trim_space s.base_host) s.base_host ≡ true
      → is_moved (follow edge (middleware fold s next) (suc (suc n)) r) ≡ false
  follow-middleware edge r n c e = elim (Outcome-cases (middleware fold s next r []).1) [
    | inl a ↦ rw (follow-stay edge (middleware fold s next) (suc (suc n)) r a) a
    | inr (host, path, m) ↦
        rw (follow-moved edge (middleware fold s next) (suc n) r host path m)
          (elim (Outcome-cases (middleware fold s next (edge.forward host path) []).1) [
            | inl b ↦
                rw (follow-stay edge (middleware fold s next) (suc n) (edge.forward host path) b) b
            | inr (host', path', m') ↦
                rw
                  (
                    follow-moved edge (middleware fold s next) n (edge.forward host path) host'
                        path' m',
                    forwarded-moves edge host path host' path' m',
                  )
                  (rw
                    (follow-stay edge (middleware fold s next) n (edge.forward s.base_host path')
                      (forwarded-stays edge path' c e))
                    (forwarded-stays edge path' c e))
          ])
  ]
