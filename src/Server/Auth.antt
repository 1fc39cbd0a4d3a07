-- ===== src/Server/Auth.antt =====
-- Who asks (internal/server/auth.go): the bearer token of the administrator, the address of the
-- client and its daily salted hash.
use agents_board.Common.{
  ◌≡◌, refl, sym, List, ap, eq_text_self, Bool-cases, inl, inr, Bool, true, false, not, ◌&&◌, ◌||◌,
  ◌==◌, Option, none, some, [], ◌∷◌, ◌++◌, Text, codes, eq_text, is_empty, drop, has_prefix,
  trim_space, if◌then◌else◌,
}

-- `header` is the Authorization header.
unfoldable pub bearer_ok : Text → Text → Bool
bearer_ok header want =
    if is_empty want || not (has_prefix header (codes "Bearer "))
    then false
    else eq_text (trim_space (drop 7 header)) want

-- The host of net.SplitHostPort, else the text itself; `split_host` is nothing for its error.
abbrev pub host_or : Option Text → Text → Text
host_or none v = v
host_or (some host) v = host

-- v[:i] for the first comma, all of v without one.
unfoldable pub before_comma : Text → Text
before_comma [] = []
before_comma (c ∷ v) = let rest = before_comma v in if c == b',' then [] else c ∷ rest

-- `header` is the configured name, "" for none; `value` reads a header of the request.
unfoldable pub client_ip : (Text → Option Text) → Text → (Text → Text) → Text → Text
client_ip split_host header value remote_addr =
    let v = trim_space (before_comma (value header)) in
    if not (is_empty header) && not (is_empty v)
    then host_or (split_host v) v
    else host_or (split_host remote_addr) (trim_space remote_addr)

-- ipHasher's day and salt.
pub record Salting : Type 0 where
  pub day : Text
  pub salt : Text

-- currentSalt: `today` is the date of the clock, `fresh` what crypto/rand returns.
unfoldable pub current_salt : Text → Option Text → Salting → Text × Salting
current_salt today fresh h =
    if not (eq_text h.day today) || is_empty h.salt
    then (let salt = host_or fresh (today ++ codes "-fallback-salt-") in
        (salt, record { day = today; salt = salt }))
    else (h.salt, h)

unfoldable pub hash : (Text → Text) → Text → Text → Option Text → Salting → Text × Salting
hash sha256 ip today fresh h = let s = current_salt today fresh h in (sha256 (ip ++ s.0), s.1)

kept_salt :
    (today : Text) (fresh : Option Text) (h : Salting)
    → (not (eq_text h.day today) || is_empty h.salt) ≡ false
    → current_salt today fresh h ≡ (h.salt, h)
unfolding current_salt
kept_salt today fresh h e = rw e refl

new_salt :
    (today : Text) (fresh : Option Text) (h : Salting)
    → (not (eq_text h.day today) || is_empty h.salt) ≡ true
    → let salt = host_or fresh (today ++ codes "-fallback-salt-") in
      current_salt today fresh h ≡ (salt, record { day = today; salt = salt })
unfolding current_salt
new_salt today fresh h e = rw e refl

-- A salting that the next call of the day uses as it is.
abbrev IsCurrent : Text → Salting → Type 0
IsCurrent today h = (not (eq_text h.day today) || is_empty h.salt) ≡ false

current_salt-IsCurrent :
    (today : Text) (fresh : Option Text) (h : Salting)
    → is_empty (host_or fresh (today ++ codes "-fallback-salt-")) ≡ false
    → IsCurrent today (current_salt today fresh h).1
      × ((current_salt today fresh h).0 ≡ (current_salt today fresh h).1.salt)
current_salt-IsCurrent today fresh h e =
    elim (Bool-cases (not (eq_text h.day today) || is_empty h.salt)) [
      | inl new ↦ rw (new_salt today fresh h new) (rw (eq_text_self today, e) refl, refl)
      | inr old ↦ rw (kept_salt today fresh h old) (old, refl)
    ]

-- Calls of hash on one day, each with its address and what crypto/rand would return.
unfoldable pub hash_all : (Text → Text) → Text → List (Text × Option Text) → Salting → Salting
hash_all sha256 today [] h = h
hash_all sha256 today ((ip, fresh) ∷ calls) h =
    hash_all sha256 today calls (hash sha256 ip today fresh h).1

hash_all-IsCurrent :
    (sha256 : Text → Text) (today : Text) (calls : List (Text × Option Text)) (h : Salting)
    → IsCurrent today h
    → hash_all sha256 today calls h ≡ h
unfolding hash_all hash
hash_all-IsCurrent sha256 today [] h e = refl
hash_all-IsCurrent sha256 today ((ip, fresh) ∷ calls) h e =
    rw (kept_salt today fresh h e) (hash_all-IsCurrent sha256 today calls h e)

-- Until the date changes, a later call of hash for an address answers what the first call for it
-- answered, whatever calls for it and for other addresses come in between and whatever crypto/rand
-- would return for any of them: an address keeps its key for the day. (The first salt is not empty,
-- as crypto/rand fills 16 bytes.)
pub hash-same_day :
    (sha256 : Text → Text) (ip today : Text) (fresh later : Option Text)
    (calls : List (Text × Option Text)) (h : Salting)
    → is_empty (host_or fresh (today ++ codes "-fallback-salt-")) ≡ false
    → hash sha256 ip today later (hash_all sha256 today calls (hash sha256 ip today fresh h).1)
      ≡ hash sha256 ip today fresh h
unfolding hash
hash-same_day sha256 ip today fresh later calls h e =
    let s = (current_salt today fresh h).1 in
    let (current, own) = current_salt-IsCurrent today fresh h e in
    rw (hash_all-IsCurrent sha256 today calls s current, kept_salt today later s current)
      (ap (λ x. (sha256 (ip ++ x), s)) (sym own))
