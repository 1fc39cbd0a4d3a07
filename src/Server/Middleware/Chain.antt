-- ===== src/Server/Middleware/Chain.antt =====
-- What the whole chain of internal/server/middleware.go guarantees about a request that is served.
use agents_board.Common.{
  ◌≡◌, arith, Bool, true, false, ◌||◌, [], Text, codes, eq_text, is_empty, split,
}
use agents_board.Server.Middleware.{
  Request, Outcome, served, moved, failed, panicked, aborted, Headers, Serve, Shell, is_health,
  recovered, recover_panic, security, security_headers, https_redirect, names_host, canonical_host,
  edge_key, middleware,
}

module _ {R : Type 0} where
  recovered-served :
      (r : Request) (a : Headers × Outcome R) {hs : Headers} {x : R}
      → recovered r a ≡ (hs, served x)
      → a ≡ (hs, served x)
  recovered-served r (h, served y) e = e
  recovered-served r (h, moved a b) e = e
  recovered-served r (h, failed a b) e = e
  recovered-served r (h, panicked) e = absurd (ground arith)
  recovered-served r (h, aborted) e = e

  https_redirect-served :
      (next : Serve R) (r : Request) (h : Headers) {hs : Headers} {x : R}
      → https_redirect next r h ≡ (hs, served x)
      → (eq_text r.forwarded_proto (codes "http") ≡ false) × (next r h ≡ (hs, served x))
  unfolding https_redirect
  https_redirect-served next r h e = ground arith

  canonical_host-served :
      (fold : Text → Text → Bool) (want : Text) (next : Serve R) (r : Request) (h : Headers)
      {hs : Headers} {x : R}
      → canonical_host fold want next r h ≡ (hs, served x)
      → ((is_empty want
            || is_empty r.forwarded_host
            || is_health r
            || names_host fold want (split b',' r.forwarded_host))
          ≡ true)
        × (next r h ≡ (hs, served x))
  unfolding canonical_host
  canonical_host-served fold want next r h e = ground arith

  edge_key-served :
      (want : Text) (next : Serve R) (r : Request) (h : Headers) {hs : Headers} {x : R}
      → edge_key want next r h ≡ (hs, served x)
      → ((is_empty want || is_health r || eq_text r.edge_key_header want) ≡ true)
        × (next r h ≡ (hs, served x))
  unfolding edge_key
  edge_key-served want next r h e = ground arith

  -- A request that the mux served came over https as far as the edge says, on the board's own host
  -- (or on no forwarded host, or for /health) and with the edge key (if one is configured and the
  -- path is not /health); the mux saw the request itself and a response that already had the
  -- security headers, and its answer went out unchanged.
  pub middleware-served :
      (fold : Text → Text → Bool) (s : Shell) (next : Serve R) (r : Request) (hs : Headers) (x : R)
      → middleware fold s next r [] ≡ (hs, served x)
      → (eq_text r.forwarded_proto (codes "http") ≡ false)
        × ((is_empty s.base_host
              || is_empty r.forwarded_host
              || is_health r
              || names_host fold s.base_host (split b',' r.forwarded_host))
            ≡ true)
        × ((is_empty s.edge_key || is_health r || eq_text r.edge_key_header s.edge_key) ≡ true)
        × (next r (security s.ot_token) ≡ (hs, served x))
  unfolding middleware recover_panic security_headers
  middleware-served fold s next r hs x e =
      let a =
        https_redirect-served (canonical_host fold s.base_host (edge_key s.edge_key next)) r
          (security s.ot_token) (recovered-served r _ e) in
      let b =
        canonical_host-served fold s.base_host (edge_key s.edge_key next) r (security s.ot_token)
          a.1 in
      let c = edge_key-served s.edge_key next r (security s.ot_token) b.1 in (a.0, b.0, c.0, c.1)
