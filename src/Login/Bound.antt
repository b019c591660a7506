-- ===== src/Login/Bound.antt =====
-- The table of login clients never outgrows its bound.
use nuclei_security_center.Common.{
  ℕ, zero, suc, ◌+◌, ◌≤◌, ◌<◌, ◌≡◌, refl, Bool, true, false, Option, none, some, List, [], ◌∷◌,
  arith, ltb, length, if◌then◌else◌, Chars, chars_eq, chars_eq_refl, ◌||◌,
}
use nuclei_security_center.Login.Clients.{
  LoginClient, stalest, drop_client, evict_stalest, make_room, replace_client, find_client,
  allow_known, allow_new, allow_found, allow, client_key,
}

module _ {ℓ} {L : Type ℓ} where
  -- Whether some client of the table has the key.
  unfoldable pub holds : Chars → List (LoginClient L) → Bool
  holds key [] = false
  holds key (c ∷ cs) = chars_eq c.key key || holds key cs

  length-drop_client :
      (key : Chars) (cs : List (LoginClient L))
      → holds key cs ≡ true
      → length (drop_client key cs) + 1 ≡ length cs
  unfolding holds drop_client
  length-drop_client key [] h = ground arith
  length-drop_client key (c ∷ cs) h = ground (arith, length-drop_client key cs)

  -- The client that the loop goes on with is one of the two.
  holds-chosen :
      (found c : LoginClient L) (cs : List (LoginClient L)) (older : Bool)
      → chars_eq found.key (stalest found cs).key || holds (stalest found cs).key cs ≡ true
      → chars_eq c.key (stalest c cs).key || holds (stalest c cs).key cs ≡ true
      → chars_eq found.key (stalest (if older then c else found) cs).key
          || (chars_eq c.key (stalest (if older then c else found) cs).key
              || holds (stalest (if older then c else found) cs).key cs)
        ≡ true
  holds-chosen found c cs true h i = ground arith
  holds-chosen found c cs false h i = ground arith

  holds-stalest :
      (found : LoginClient L) (cs : List (LoginClient L))
      → chars_eq found.key (stalest found cs).key || holds (stalest found cs).key cs ≡ true
  unfolding holds stalest
  holds-stalest found [] = rw (chars_eq_refl found.key) refl
  holds-stalest found (c ∷ cs) =
      holds-chosen found c cs (ltb c.last_seen found.last_seen) (holds-stalest found cs)
        (holds-stalest c cs)

  length-evict_stalest :
      (c : LoginClient L) (cs : List (LoginClient L)) → length (evict_stalest (c ∷ cs)) ≡ length cs
  unfolding evict_stalest holds
  length-evict_stalest c cs =
      omega (arith, length-drop_client (stalest c cs).key (c ∷ cs) (holds-stalest c cs))

  length-make_room :
      (fuel max_clients : ℕ) (cs : List (LoginClient L))
      → 1 ≤ max_clients
      → length cs ≤ fuel
      → length (make_room fuel max_clients cs) < max_clients
  unfolding make_room
  length-make_room zero max_clients [] h f = h
  length-make_room zero max_clients (c ∷ cs) h f = ground arith
  length-make_room (suc fuel) max_clients [] h f = ground arith
  length-make_room (suc fuel) max_clients (c ∷ cs) h f = ground (
    arith,
    length-evict_stalest c cs,
    length-make_room fuel max_clients (evict_stalest (c ∷ cs)) h,
  )

  length-replace_client :
      (n : LoginClient L) (cs : List (LoginClient L)) → length (replace_client n cs) ≡ length cs
  unfolding replace_client
  length-replace_client n [] = refl
  length-replace_client n (c ∷ cs) = ground (arith, length-replace_client n cs)

  module _ (new_limiter : L) (allow_n : ℕ → L → L × Bool) (max_clients now : ℕ) where
    length-allow_found :
        (key : Chars) (cs : List (LoginClient L)) (o : Option (LoginClient L))
        → length cs ≤ max_clients
        → length (allow_found new_limiter allow_n max_clients now key cs o).0 ≤ max_clients
    unfolding allow_found allow_known allow_new
    length-allow_found key cs none h = ground (arith, length-make_room (length cs) max_clients cs)
    length-allow_found key cs (some c) h = omega (
      arith,
      length-replace_client (record c { limiter = (allow_n now c.limiter).0; last_seen = now }) cs,
    )

    -- A request leaves a table within its bound within it, whatever the table holds and whatever the
    -- limiter answers, also for a bound of 0.
    length-allow :
        (key : Chars) (cs : List (LoginClient L))
        → length cs ≤ max_clients
        → length (allow new_limiter allow_n max_clients now key cs).0 ≤ max_clients
    unfolding allow
    length-allow key cs h =
        length-allow_found (client_key key) cs (find_client (client_key key) cs) h

  -- Any sequence of requests with their times, from an empty table.
  unfoldable pub requests : L → (ℕ → L → L × Bool) → ℕ → List (ℕ × Chars) → List (LoginClient L)
  requests new_limiter allow_n max_clients [] = []
  requests new_limiter allow_n max_clients (r ∷ earlier) =
      (allow new_limiter allow_n max_clients r.0 r.1
        (requests new_limiter allow_n max_clients earlier)).0

  -- Whatever requests came, at whatever times and from whatever clients, the table never holds more
  -- than `max_clients` clients.
  pub length-requests :
      (new_limiter : L) (allow_n : ℕ → L → L × Bool) (max_clients : ℕ) (rs : List (ℕ × Chars))
      → length (requests new_limiter allow_n max_clients rs) ≤ max_clients
  unfolding requests
  length-requests new_limiter allow_n max_clients [] = omega arith
  length-requests new_limiter allow_n max_clients (r ∷ earlier) =
      length-allow new_limiter allow_n max_clients r.0 r.1
        (requests new_limiter allow_n max_clients earlier)
        (length-requests new_limiter allow_n max_clients earlier)
