-- ===== src/Damon/Session/Cache.antt =====
-- Which connection a request goes to, and what becomes of the cache.
use mathlib.Core.Path.{subst}
use arachnida.Base.{
  true, false, List, [], ◌∷◌, Option, none, some, Bytes, str_eq, str_eq_iff, str_eq_refl, Result,
  ok, throw, Bool-cases, Option-cases, ◌⊎◌, inl, inr, ◌≡◌, refl, sym, ap, ◌∙◌, arith,
}
use arachnida.Damon.Session.{
  Cached, ConnectionCache, find_cached, insert_cached, erase_cached, reconnect, get_connection,
}

-- The loop has ended with this connection: it is usable, it is the one in the cache, and the other keys
-- have the connections that they had.
pub record IsCached (key : Bytes) (before after : ConnectionCache) (c : Cached) : Type 0 where
  pub usable : c.usable ≡ true
  pub found : find_cached key after ≡ some c
  pub others :
      (other : Bytes)
      → str_eq key other ≡ false
      → find_cached other after ≡ find_cached other before

insert_cached-missing :
    (key : Bytes) (c : Cached) (cache : ConnectionCache)
    → find_cached key cache ≡ none
    → insert_cached key c cache ≡ (key, c) ∷ cache
unfolding insert_cached
insert_cached-missing key c cache missing = rw (insert_cached, missing) refl

find_cached-insert_cached :
    (key : Bytes) (c : Cached) (cache : ConnectionCache)
    → find_cached key cache ≡ none
    → find_cached key (insert_cached key c cache) ≡ some c
unfolding find_cached
find_cached-insert_cached key c cache missing =
    ap (find_cached key) (insert_cached-missing key c cache missing) ∙ rw (str_eq_refl key) refl

-- What is erased is not found.
find_cached-erased :
    (key : Bytes) (cache : ConnectionCache) → find_cached key (erase_cached key cache) ≡ none
unfolding find_cached erase_cached
find_cached-erased key [] = refl
find_cached-erased key ((k, c) ∷ cache) =
    let rest = find_cached-erased key cache in
    elim (Bool-cases (str_eq k key)) [
      | inl same ↦ rw same rest
      | inr differs ↦ rw differs (ground (arith, rest))
    ]

find_cached-erase_cached :
    (key other : Bytes) (cache : ConnectionCache)
    → str_eq key other ≡ false
    → find_cached other (erase_cached key cache) ≡ find_cached other cache
unfolding find_cached erase_cached
find_cached-erase_cached key other [] ne = refl
find_cached-erase_cached key other ((k, c) ∷ cache) ne =
    let rest = find_cached-erase_cached key other cache ne in
    elim (Bool-cases (str_eq k key)) [
      | inl same ↦ rw same (rw (ap (λ x. str_eq x other) ((str_eq_iff k key).0 same) ∙ ne) rest)
      | inr differs ↦ rw differs (ground (arith, rest))
    ]

find_cached-insert_other :
    (key other : Bytes) (c : Cached) (cache : ConnectionCache)
    → str_eq key other ≡ false
    → find_cached other (insert_cached key c cache) ≡ find_cached other cache
unfolding find_cached insert_cached
find_cached-insert_other key other c cache ne = elim (Option-cases (find_cached key cache)) [
  | inl missing ↦ rw (insert_cached, missing) (rw ne refl)
  | inr (d, found) ↦ rw (insert_cached, found) refl
]

insert_cached-IsCached :
    (key : Bytes) (c : Cached) (cache : ConnectionCache)
    → find_cached key cache ≡ none
    → c.usable ≡ true
    → IsCached key cache (insert_cached key c cache) c
insert_cached-IsCached key c cache missing u = record {
  usable = u;
  found = find_cached-insert_cached key c cache missing;
  others = λ other ne. find_cached-insert_other key other c cache ne;
}

abbrev Found : Type 0
Found = Option (ConnectionCache × Result Cached)

-- The loop ended with what it returns.
IsCached-returned :
    (key : Bytes) (before x after : ConnectionCache) (d c : Cached)
    → IsCached key before x d
    → ◌≡◌ {A = Found} (some (x, ok d)) (some (after, ok c))
    → IsCached key before after c
IsCached-returned key before x after d c h e =
    let same_cache : x ≡ after = cc in
    let same : d ≡ c = cc in
    subst (λ y. IsCached key before y c) same_cache (subst (λ y. IsCached key before x y) same h)

IsCached-before :
    (key : Bytes) (b1 b2 after : ConnectionCache) (c : Cached)
    → ((other : Bytes) → str_eq key other ≡ false → find_cached other b2 ≡ find_cached other b1)
    → IsCached key b2 after c
    → IsCached key b1 after c
IsCached-before key b1 b2 after c same h = record {
  usable = h.usable;
  found = h.found;
  others = λ other ne. h.others other ne ∙ same other ne;
}

reconnect_usable :
    (d : Cached) (answers : List (Result Cached)) (key : Bytes) (cache : ConnectionCache)
    → d.usable ≡ true
    → reconnect (ok d ∷ answers) key cache ≡ some (insert_cached key d cache, ok d)
reconnect_usable d answers key cache u = unfold reconnect in rw u refl

reconnect_unusable :
    (d : Cached) (answers : List (Result Cached)) (key : Bytes) (cache : ConnectionCache)
    → d.usable ≡ false
    → reconnect (ok d ∷ answers) key cache
      ≡ reconnect answers key (erase_cached key (insert_cached key d cache))
reconnect_unusable d answers key cache u = unfold reconnect in rw u refl

pub found_usable :
    (answers : List (Result Cached)) (key : Bytes) (cache : ConnectionCache) (d : Cached)
    → find_cached key cache ≡ some d
    → d.usable ≡ true
    → get_connection answers key cache ≡ some (cache, ok d)
unfolding get_connection
found_usable answers key cache d found u = rw (found, get_connection) (rw u refl)

reconnect-IsCached :
    (answers : List (Result Cached)) (key : Bytes) (cache after : ConnectionCache) (c : Cached)
    → find_cached key cache ≡ none
    → reconnect answers key cache ≡ some (after, ok c)
    → IsCached key cache after c
unfolding reconnect
reconnect-IsCached [] key cache after c missing e = cc
reconnect-IsCached (throw x ∷ answers) key cache after c missing e = cc
reconnect-IsCached (ok d ∷ answers) key cache after c missing e =
    let inserted = insert_cached key d cache in
    elim (Bool-cases d.usable) [
      | inl u ↦
          IsCached-returned key cache inserted after d c
            (insert_cached-IsCached key d cache missing u)
            (sym (reconnect_usable d answers key cache u) ∙ e)
      | inr u ↦
          IsCached-before key cache (erase_cached key inserted) after c
            (λ other ne.
              find_cached-erase_cached key other inserted ne
              ∙ find_cached-insert_other key other d cache ne)
            (reconnect-IsCached answers key (erase_cached key inserted) after c
              (find_cached-erased key inserted)
              (sym (reconnect_unusable d answers key cache u) ∙ e))
    ]

-- Whatever the cache holds and whatever the connector gives: if the search for a connection ends with
-- one, that connection is usable, the cache holds it under the key, and under every other key the cache
-- holds what it held before.
pub get_connection-IsCached :
    (answers : List (Result Cached)) (key : Bytes) (cache after : ConnectionCache) (c : Cached)
    → get_connection answers key cache ≡ some (after, ok c)
    → IsCached key cache after c
unfolding get_connection
get_connection-IsCached answers key cache after c e = elim (Option-cases (find_cached key cache)) [
  | inl missing ↦
      reconnect-IsCached answers key cache after c missing (rw (missing, get_connection) at e)
  | inr (d, found) ↦ elim (Bool-cases d.usable) [
    | inl u ↦
        IsCached-returned key cache cache after d c
          (record { usable = u; found = found; others = λ other ne. refl })
          (sym (found_usable answers key cache d found u) ∙ e)
    | inr u ↦
        IsCached-before key cache (erase_cached key cache) after c
          (λ other ne. find_cached-erase_cached key other cache ne)
          (reconnect-IsCached answers key (erase_cached key cache) after c
            (find_cached-erased key cache) (rw u at (rw (found, get_connection) at e)))
  ]
]

-- The search ends at once with a cached connection that is usable, and otherwise with the first one
-- that the connector gives, if that is usable.
pub get_connection_first :
    (answers : List (Result Cached)) (key : Bytes) (cache : ConnectionCache) (d : Cached)
    → d.usable ≡ true
    → (c : Cached) × (after : ConnectionCache) × (get_connection (ok d ∷ answers) key cache
        ≡ some (after, ok c))
      × ((find_cached key cache ≡ some c) ⊎ (c ≡ d))
unfolding get_connection
get_connection_first answers key cache d u = elim (Option-cases (find_cached key cache)) [
  | inl missing ↦ (
    d,
    insert_cached key d cache,
    rw (missing, get_connection) (unfold reconnect in rw u refl),
    inr refl,
  )
  | inr (c, found) ↦ elim (Bool-cases c.usable) [
    | inl v ↦ (c, cache, found_usable (ok d ∷ answers) key cache c found v, inl found)
    | inr v ↦ (
      d,
      insert_cached key d (erase_cached key cache),
      rw (found, get_connection) (rw v (unfold reconnect in rw u refl)),
      inr refl,
    )
  ]
]
