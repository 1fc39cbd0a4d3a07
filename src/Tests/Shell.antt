-- ===== src/Tests/Shell.antt =====
-- Concrete requests through the middleware chain.
use agents_board.Server.Config.{Config, config_from_env, int_env, is_web_url}
use agents_board.Server.Config.Accepted.{IsUsable, config_from_env-IsUsable}
use agents_board.Server.Auth.{hash_all, Salting, hash, hash-same_day}
use agents_board.Common.{
  List, Option, none, some, if◌then◌else◌, trim_right_byte, ◌≡◌, refl, ℕ, Bool, true, false, ◌||◌,
  Text, codes, eq_text, is_empty, [], ◌∷◌, split, trim_space, is_space, trim_left, has_prefix,
}
use agents_board.Server.Middleware.{
  Request, served, Serve, Shell, security, is_health, names_host, middleware, recover_panic,
  security_headers, https_redirect, canonical_host, edge_key,
}
use agents_board.Server.Middleware.Chain.{middleware-served}
use agents_board.Server.Middleware.Redirects.{Edge, is_moved, follow, follow-middleware}

abbrev shell : Shell
shell = record { ot_token = []; edge_key = codes "k"; base_host = codes "b.dev" }

-- A mux that answers every request with 200.
abbrev mux : Serve ℕ
mux r h = (h, served 200)

abbrev home : Request
home = record {
  path = codes "/";
  host = codes "o.app";
  forwarded_proto = codes "https";
  forwarded_host = codes "x, b.dev";
  edge_key_header = codes "k";
}

abbrev plain_http : Request
plain_http = record home { forwarded_proto = codes "http"; forwarded_host = codes "alias.net" }

abbrev edge : Edge
edge = record {
  forward = λ host path. record {
    path = path;
    host = codes "o.app";
    forwarded_proto = codes "https";
    forwarded_host = host;
    edge_key_header = codes "k";
  };
  earlier = λ host path. [];
  proto_lem = λ host path. refl;
  host_lem = λ host path. refl;
}

home-served : middleware eq_text shell mux home [] ≡ (security [], served 200)
unfolding middleware recover_panic security_headers https_redirect canonical_host edge_key
    names_host split trim_space trim_left is_space eq_text is_empty
home-served = refl

middleware-served_example :
    (eq_text home.forwarded_proto (codes "http") ≡ false)
    × ((is_empty shell.base_host
          || is_empty home.forwarded_host
          || is_health home
          || names_host eq_text shell.base_host (split b',' home.forwarded_host))
        ≡ true)
    × ((is_empty shell.edge_key || is_health home || eq_text home.edge_key_header shell.edge_key)
        ≡ true)
    × (mux home (security shell.ot_token) ≡ (security [], served 200))
middleware-served_example = middleware-served eq_text shell mux home (security []) 200 home-served

base_host-split : split b',' shell.base_host ≡ shell.base_host ∷ []
unfolding split
base_host-split = refl

base_host-same : eq_text (trim_space shell.base_host) shell.base_host ≡ true
unfolding trim_space trim_left is_space eq_text
base_host-same = refl

-- Over http on an alias: to https on the origin's host, then to the board's host.
follow-middleware_example :
    is_moved (follow edge (middleware eq_text shell mux) 2 plain_http) ≡ false
follow-middleware_example =
    follow-middleware eq_text shell mux (λ r h. refl) edge plain_http 0 base_host-split
      base_host-same

-- An environment with two variables set.
abbrev env_of : Text → Text
env_of name =
    if eq_text name (codes "BOARD_BASE_URL")
    then codes " https://b.dev// "
    else if eq_text name (codes "BOARD_ADMINS")
    then codes "ana, ,bo"
    else []

abbrev no_number : Text → Option (Bool × ℕ)
no_number v = none

abbrev env_config : Config
env_config = record {
  addr = codes ":8080";
  db_path = codes "./board.db";
  base_url = codes "https://b.dev";
  admin_token = [];
  edge_key = [];
  client_ip_header = codes "X-Envoy-External-Address";
  snapshot_bucket = [];
  snapshot_object = codes "board.db";
  ot_token = [];
  admins = codes "ana" ∷ codes "bo" ∷ [];
  version = codes "dev";
  invite_requests_per_ip = 3;
  invite_requests_per_day = 20;
}

env_config-read : config_from_env eq_text no_number env_of ≡ some env_config
unfolding config_from_env int_env split trim_space trim_left trim_right_byte is_space eq_text
    is_empty has_prefix
env_config-read = refl

config_from_env-IsUsable_example : (is_web_url env_config.base_url ≡ true) × IsUsable env_config
config_from_env-IsUsable_example =
    config_from_env-IsUsable eq_text no_number env_of env_config env_config-read

abbrev yesterday : Salting
yesterday = record { day = codes "2026-01-01"; salt = codes "old" }

abbrev digest : Text → Text
digest t = b'#' ∷ t

abbrev others_today : List (Text × Option Text)
others_today = (codes "10.0.0.8", none) ∷ (codes "10.0.0.7", some (codes "x")) ∷ []

hash-same_day_example :
    hash digest (codes "10.0.0.7") (codes "2026-01-02") none (
      hash_all digest
        (codes "2026-01-02")
        others_today
        (hash digest (codes "10.0.0.7") (codes "2026-01-02") (some (codes "new")) yesterday).1)
    ≡ hash digest (codes "10.0.0.7") (codes "2026-01-02") (some (codes "new")) yesterday
unfolding is_empty
hash-same_day_example =
    hash-same_day digest (codes "10.0.0.7") (codes "2026-01-02") (some (codes "new")) none
      others_today yesterday refl
