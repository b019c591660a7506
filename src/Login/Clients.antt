-- ===== src/Login/Clients.antt =====
-- `loginAdmission`: a table of at most `max_clients` token buckets. The bucket is a type of
-- golang.org/x/time/rate: a new one and `AllowN(now, 1)` are parameters. The table's list is the
-- order in which `range` visits the map. Keys are code points, times are seconds.
use nuclei_security_center.Common.{
  ℕ, zero, suc, Bool, false, ◌||◌, ◌&&◌, Option, none, some, List, [], ◌∷◌, reverse, ltb, leb, ◌==◌,
  length, if◌then◌else◌, Chars, chars_eq, codes,
}

-- `unicode.IsSpace`
unfoldable pub is_space : ℕ → Bool
is_space c =
    (leb 9 c && leb c 13)
    || (c == 32)
    || (c == 133)
    || (c == 160)
    || (c == 5760)
    || (leb 8192 c && leb c 8202)
    || (c == 8232)
    || (c == 8233)
    || (c == 8239)
    || (c == 8287)
    || (c == 12288)

unfoldable pub trim_left : Chars → Chars
unfolding is_space
trim_left [] = []
trim_left (c ∷ s) = let rest = trim_left s in if is_space c then rest else c ∷ s

-- `strings.TrimSpace`
unfoldable pub trim_space : Chars → Chars
unfolding trim_left
trim_space s = reverse (trim_left (reverse (trim_left s)))

unfoldable pub or_unknown : Chars → Chars
or_unknown [] = codes "unknown"
or_unknown (c ∷ s) = c ∷ s

unfoldable pub client_key : Chars → Chars
unfolding or_unknown trim_space
client_key key = or_unknown (trim_space key)

pub record LoginClient {ℓ} (L : Type ℓ) : Type ℓ where
  pub key : Chars
  pub limiter : L
  pub last_seen : ℕ

module _ {ℓ} {L : Type ℓ} where
  -- The loop of `evictStalestLocked`: the first of those that were seen least recently.
  unfoldable pub stalest : LoginClient L → List (LoginClient L) → LoginClient L
  stalest found [] = found
  stalest found (c ∷ cs) = stalest (if ltb c.last_seen found.last_seen then c else found) cs

  -- `delete(a.clients, key)` of a key that is there once.
  unfoldable pub drop_client : Chars → List (LoginClient L) → List (LoginClient L)
  drop_client key [] = []
  drop_client key (c ∷ cs) =
      let rest = drop_client key cs in if chars_eq c.key key then cs else c ∷ rest

  unfoldable pub evict_stalest : List (LoginClient L) → List (LoginClient L)
  unfolding stalest drop_client
  evict_stalest [] = []
  evict_stalest (c ∷ cs) = drop_client (stalest c cs).key (c ∷ cs)

  -- `for len(a.clients) >= a.maxClients { a.evictStalestLocked() }`, on fuel.
  unfoldable pub make_room : ℕ → ℕ → List (LoginClient L) → List (LoginClient L)
  unfolding evict_stalest
  make_room zero max_clients cs = cs
  make_room (suc fuel) max_clients cs =
      let rest = make_room fuel max_clients (evict_stalest cs) in
      if leb max_clients (length cs) then rest else cs

  unfoldable pub find_client : Chars → List (LoginClient L) → Option (LoginClient L)
  find_client key [] = none
  find_client key (c ∷ cs) = if chars_eq c.key key then some c else find_client key cs

  unfoldable pub replace_client : LoginClient L → List (LoginClient L) → List (LoginClient L)
  replace_client n [] = []
  replace_client n (c ∷ cs) =
      let rest = replace_client n cs in if chars_eq c.key n.key then n ∷ cs else c ∷ rest

  module _ (new_limiter : L) (allow_n : ℕ → L → L × Bool) (max_clients now : ℕ) where
    -- A client that is in the table.
    unfoldable pub allow_known : LoginClient L → List (LoginClient L) → List (LoginClient L) × Bool
    unfolding replace_client
    allow_known c cs =
        let r = allow_n now c.limiter in
        (replace_client (record c { limiter = r.0; last_seen = now }) cs, r.1)

    -- A client that is not.
    unfoldable pub allow_new : Chars → List (LoginClient L) → List (LoginClient L) × Bool
    unfolding make_room
    allow_new key cs =
        let r = allow_n now new_limiter in
        if leb max_clients 0 then (cs, false) else (
          record { key = key; limiter = r.0; last_seen = now }
              ∷ make_room (length cs) max_clients cs,
          r.1,
        )

    unfoldable pub allow_found :
        Chars → List (LoginClient L) → Option (LoginClient L) → List (LoginClient L) × Bool
    unfolding allow_known allow_new
    allow_found key cs none = allow_new key cs
    allow_found key cs (some c) = allow_known c cs

    unfoldable pub allow : Chars → List (LoginClient L) → List (LoginClient L) × Bool
    unfolding allow_found find_client client_key
    allow key cs = allow_found (client_key key) cs (find_client (client_key key) cs)
