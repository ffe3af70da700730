-- ===== src/Damon/Session.antt =====
-- lib/Damon/Session.h, and the part of `send` of lib/Damon/Request.cpp that finds a connection. What
-- `Connector::connect` gives is an argument, an answer for each call; a connection is known by a number.
pub mod Cache
use arachnida.Base.{
  ℕ, Bool, true, false, List, [], ◌∷◌, ◌++◌, Option, none, some, Bytes, codes, str_eq,
  if◌then◌else◌, Result, ok, throw,
}
use arachnida.Damon.Url.{ParsedUrl}

-- A connection, and what its `usable` says.
pub record Cached : Type 0 where
  pub connection : ℕ
  pub usable : Bool

-- `connection_cache_`: a map, as a list.
abbrev pub ConnectionCache : Type 0
ConnectionCache = List (Bytes × Cached)

-- `context` tells whether there is a security context.
pub record Session : Type 0 where
  pub context : Bool
  pub connection_cache : ConnectionCache

unfoldable pub find_cached : Bytes → ConnectionCache → Option Cached
unfolding str_eq
find_cached key [] = none
find_cached key ((k, c) ∷ cache) = if str_eq k key then some c else find_cached key cache

-- `insert` leaves an entry that is there.
unfoldable pub insert_cached : Bytes → Cached → ConnectionCache → ConnectionCache
unfolding find_cached
insert_cached key c cache = elim (find_cached key cache) [
  | none ↦ (key, c) ∷ cache
  | some there ↦ cache
]

unfoldable pub erase_cached : Bytes → ConnectionCache → ConnectionCache
unfolding str_eq
erase_cached key [] = []
erase_cached key ((k, c) ∷ cache) =
    let rest = erase_cached key cache in if str_eq k key then rest else (k, c) ∷ rest

-- The rounds of the loop that start with no entry for the key. `none`: the answers end before the loop.
unfoldable pub reconnect :
    List (Result Cached) → Bytes → ConnectionCache → Option (ConnectionCache × Result Cached)
unfolding insert_cached erase_cached
reconnect [] key cache = none
reconnect (throw e ∷ answers) key cache = some (cache, throw e)
reconnect (ok c ∷ answers) key cache =
    let inserted = insert_cached key c cache in
    let again = reconnect answers key (erase_cached key inserted) in
    if c.usable then some (inserted, ok c) else again

-- The whole loop.
unfoldable pub get_connection :
    List (Result Cached) → Bytes → ConnectionCache → Option (ConnectionCache × Result Cached)
unfolding find_cached reconnect erase_cached
get_connection answers key cache = elim (find_cached key cache) [
  | none ↦ reconnect answers key cache
  | some c ↦ if c.usable then some (cache, ok c) else reconnect answers key (erase_cached key cache)
]

-- `"%1%:%2%"`; `to_text` writes a number.
unfoldable pub cache_key : (ℕ → Bytes) → ParsedUrl → Bytes
cache_key to_text u = u.server ++ (codes ":" ++ to_text u.port)

-- `session.context_` is made for the first secured request.
unfoldable pub with_context : Session → ParsedUrl → Session
unfolding str_eq
with_context session u =
    if str_eq u.protocol (codes "https") then record session { context = true } else session
