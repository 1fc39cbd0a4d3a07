-- ===== src/Server/Config.antt =====
-- The configuration from the environment (internal/server/config.go). An unset variable is an empty
-- text; `equal_fold` is strings.EqualFold, and `atoi` is strconv.Atoi: nothing for an error, else a
-- sign (true for a negative number) and a size.
pub mod Accepted
use agents_board.Common.{
  ℕ, Bool, true, false, not, ◌&&◌, ◌||◌, Option, none, some, List, [], ◌∷◌, Text, codes, is_empty,
  has_prefix, split, trim_space, trim_right_byte, if◌then◌else◌,
}

pub record Config : Type 0 where
  pub addr : Text
  pub db_path : Text
  pub base_url : Text
  pub admin_token : Text
  pub edge_key : Text
  pub client_ip_header : Text
  pub snapshot_bucket : Text
  pub snapshot_object : Text
  pub ot_token : Text
  pub admins : List Text
  pub version : Text
  pub invite_requests_per_ip : ℕ
  pub invite_requests_per_day : ℕ

-- The default of a variable that is blank.
abbrev pub or_default : Text → Text → Text
or_default v default = if not (is_empty v) then v else default

abbrev pub get : (Text → Text) → Text → Text → Text
get getenv name default = or_default (trim_space (getenv name)) default

abbrev pub checked_int : Option (Bool × ℕ) → ℕ → ℕ
checked_int none default = default
checked_int (some (true, n)) default = default
checked_int (some (false, n)) default = n

unfoldable pub int_env : (Text → Option (Bool × ℕ)) → (Text → Text) → Text → ℕ → ℕ
int_env atoi getenv name default =
    let v = trim_space (getenv name) in if is_empty v then default else checked_int (atoi v) default

-- The switch on BOARD_CLIENT_IP_HEADER.
abbrev pub client_header : (Text → Text → Bool) → Text → Text
client_header equal_fold v =
    if is_empty v
    then codes "X-Envoy-External-Address"
    else if equal_fold v (codes "none")
    then []
    else v

-- The loop over BOARD_ADMINS.
abbrev pub admin_list : List Text → List Text
admin_list [] = []
admin_list (a ∷ rest) =
    let others = admin_list rest in
    if not (is_empty (trim_space a)) then trim_space a ∷ others else others

abbrev pub read_config : (Text → Text → Bool) → (Text → Option (Bool × ℕ)) → (Text → Text) → Config
read_config equal_fold atoi getenv =
    let port = trim_space (getenv (codes "PORT")) in
    record {
      addr =
          if not (is_empty port)
          then b':' ∷ port
          else get getenv (codes "BOARD_ADDR") (codes ":8080");
      db_path = get getenv (codes "BOARD_DB") (codes "./board.db");
      base_url =
          trim_right_byte b'/'
            (get getenv (codes "BOARD_BASE_URL") (codes "http://localhost:8080"));
      admin_token = trim_space (getenv (codes "BOARD_ADMIN_TOKEN"));
      edge_key = trim_space (getenv (codes "BOARD_EDGE_KEY"));
      client_ip_header =
          client_header equal_fold (trim_space (getenv (codes "BOARD_CLIENT_IP_HEADER")));
      snapshot_bucket = trim_space (getenv (codes "BOARD_SNAPSHOT_BUCKET"));
      snapshot_object = get getenv (codes "BOARD_SNAPSHOT_OBJECT") (codes "board.db");
      ot_token = trim_space (getenv (codes "BOARD_OT_TOKEN"));
      admins = admin_list (split b',' (get getenv (codes "BOARD_ADMINS") (codes "mgreau")));
      version = codes "dev";
      invite_requests_per_ip = int_env atoi getenv (codes "BOARD_INVITE_REQUESTS_PER_IP") 3;
      invite_requests_per_day = int_env atoi getenv (codes "BOARD_INVITE_REQUESTS_PER_DAY") 20;
    }

abbrev pub is_web_url : Text → Bool
is_web_url u = has_prefix u (codes "http://") || has_prefix u (codes "https://")

-- Nothing for the error.
unfoldable pub config_from_env :
    (Text → Text → Bool) → (Text → Option (Bool × ℕ)) → (Text → Text) → Option Config
config_from_env equal_fold atoi getenv =
    let cfg = read_config equal_fold atoi getenv in
    if not (is_web_url cfg.base_url) then none else some cfg

unfoldable pub snapshots_enabled : Config → Bool
snapshots_enabled c = not (is_empty c.snapshot_bucket)
