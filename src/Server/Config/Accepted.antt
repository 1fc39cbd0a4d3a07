-- ===== src/Server/Config/Accepted.antt =====
-- What every accepted configuration satisfies (internal/server/config.go).
use mathlib.Core.Path.{subst}
use agents_board.Common.{
  ℕ, ◌≡◌, refl, arith, Bool, true, false, not, ◌&&◌, ◌==◌, Option, none, some, List, [], ◌∷◌, All,
  Text, codes, is_empty, split, trim_space, trim_right_byte, if◌then◌else◌, Bool-cases, inl, inr,
}
use agents_board.Server.Config.{
  Config, or_default, get, admin_list, read_config, is_web_url, config_from_env,
}

abbrev pub ends_with : ℕ → Text → Bool
ends_with c [] = false
ends_with c (x ∷ []) = x == c
ends_with c (x ∷ y ∷ s) = ends_with c (y ∷ s)

trimmed-cons :
    (drop c : ℕ) (rest : Text)
    → ends_with drop rest ≡ false
    → ends_with drop (if is_empty rest && c == drop then [] else c ∷ rest) ≡ false
unfolding is_empty
trimmed-cons drop c [] h = ground arith
trimmed-cons drop c (x ∷ s) h = h

ends_with-trim_right_byte : (drop : ℕ) (s : Text) → ends_with drop (trim_right_byte drop s) ≡ false
unfolding trim_right_byte
ends_with-trim_right_byte drop [] = refl
ends_with-trim_right_byte drop (c ∷ s) =
    trimmed-cons drop c (trim_right_byte drop s) (ends_with-trim_right_byte drop s)

is_empty-or_default :
    (v default : Text) → is_empty default ≡ false → is_empty (or_default v default) ≡ false
is_empty-or_default v default h = ground arith

add_admin :
    (a : Text) (others : List Text)
    → All (λ x. is_empty x ≡ false) others
    → All (λ x. is_empty x ≡ false) (if not (is_empty a) then a ∷ others else others)
add_admin a others h = elim (Bool-cases (is_empty a)) [ inl e ↦ rw e h | inr e ↦ rw e ((e, h)) ]

admin_list-All : (l : List Text) → All (λ x. is_empty x ≡ false) (admin_list l)
admin_list-All [] = tt
admin_list-All (a ∷ rest) = add_admin (trim_space a) (admin_list rest) (admin_list-All rest)

address :
    (port default : Text)
    → is_empty default ≡ false
    → is_empty (if not (is_empty port) then b':' ∷ port else default) ≡ false
unfolding is_empty
address [] default h = h
address (c ∷ port) default h = refl

-- What the fields of a configuration have, the scheme of the base URL aside.
abbrev pub IsUsable : Config → Type 0
IsUsable cfg =
    (ends_with b'/' cfg.base_url ≡ false)
    × (is_empty cfg.addr ≡ false)
    × (is_empty cfg.db_path ≡ false)
    × All (λ a. is_empty a ≡ false) cfg.admins

read_config-IsUsable :
    (equal_fold : Text → Text → Bool) (atoi : Text → Option (Bool × ℕ)) (getenv : Text → Text)
    → IsUsable (read_config equal_fold atoi getenv)
unfolding is_empty
read_config-IsUsable equal_fold atoi getenv = (
  ends_with-trim_right_byte b'/'
      (get getenv (codes "BOARD_BASE_URL") (codes "http://localhost:8080")),
  address (trim_space (getenv (codes "PORT"))) _
      (is_empty-or_default (trim_space (getenv (codes "BOARD_ADDR"))) (codes ":8080") refl),
  is_empty-or_default (trim_space (getenv (codes "BOARD_DB"))) (codes "./board.db") refl,
  admin_list-All (split b',' (get getenv (codes "BOARD_ADMINS") (codes "mgreau"))),
)

checked :
    (c cfg : Config)
    → (if not (is_web_url c.base_url) then none else some c) ≡ some cfg
    → (is_web_url c.base_url ≡ true) × (c ≡ cfg)
checked c cfg h = ground arith

-- A configuration that ConfigFromEnv accepts has a base URL that starts with http:// or https:// and
-- does not end with a slash, an address to listen on, a database file, and no blank admin.
pub config_from_env-IsUsable :
    (equal_fold : Text → Text → Bool) (atoi : Text → Option (Bool × ℕ)) (getenv : Text → Text)
    (cfg : Config)
    → config_from_env equal_fold atoi getenv ≡ some cfg
    → (is_web_url cfg.base_url ≡ true) × IsUsable cfg
unfolding config_from_env
config_from_env-IsUsable equal_fold atoi getenv cfg h =
    let c = checked (read_config equal_fold atoi getenv) cfg h in
    (
      subst (λ x. is_web_url x.base_url ≡ true) c.1 c.0,
      subst IsUsable c.1 (read_config-IsUsable equal_fold atoi getenv),
    )
