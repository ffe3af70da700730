-- ===== src/Spin/HttpConnections/Kept.antt =====
-- Which connections the handler keeps.
use arachnida.Base.{
  ℕ, suc, Bool, true, false, ◌&&◌, ◌+◌, ◌-◌, List, [], ◌∷◌, ◌++◌, Option, some, none, ◌==◌,
  if◌then◌else◌, ◌≡◌, refl, ◌∙◌, ap, arith,
}
use arachnida.Spin.Address.{Address}
use arachnida.Spin.Connection.{Connection, ask_if_usable, set_new_data_handler}
use arachnida.Spin.HttpConnections.{on_connection_error, handle_new_connection, attach_handler}

abbrev pub entries : ℕ → List ℕ → ℕ
entries n [] = 0
entries n (c ∷ cs) = (if c == n then 1 else 0) + entries n cs

abbrev has_fd : Option ℕ → Bool
has_fd none = false
has_fd (some fd) = true

-- What happens to a handler: a new connection of this number, from this address, or an error on the
-- connection of this number.
pub data Event : Type 0 where
  opened : ℕ → Connection → Address → Event
  failed : ℕ → Event

module _ (validate : Address → Bool) (data_handler : ℕ) where
  abbrev pub after : Event → List ℕ → List ℕ
  after (opened k c a) cs = (handle_new_connection validate data_handler k c a cs).connections
  after (failed k) cs = on_connection_error k cs

  abbrev pub run : List Event → List ℕ → List ℕ
  run [] cs = cs
  run (e ∷ es) cs = run es (after e cs)

  -- A connection is served when it is usable, its address is valid and it has a descriptor.
  abbrev pub serves : Connection → Address → Bool
  serves c a = c.usable && validate a && has_fd c.fd

  -- The entries of one connection, told from the events alone.
  abbrev pub counted : ℕ → Event → ℕ → ℕ
  counted n (opened k c a) x = if k == n && serves c a then suc x else x
  counted n (failed k) x = if k == n then x - 1 else x

  abbrev pub count_events : ℕ → List Event → ℕ → ℕ
  count_events n [] x = x
  count_events n (e ∷ es) x = count_events n es (counted n e x)

  entries-append :
      (n k : ℕ) (cs : List ℕ)
      → entries n (cs ++ (k ∷ [])) ≡ entries n cs + (if k == n then 1 else 0)
  entries-append n k [] = grind arith
  entries-append n k (c ∷ cs) = omega (arith, entries-append n k cs)

  entries-error :
      (n k : ℕ) (cs : List ℕ)
      → entries n (on_connection_error k cs) ≡ (if k == n then entries n cs - 1 else entries n cs)
  unfolding on_connection_error
  entries-error n k [] = grind arith
  entries-error n k (c ∷ cs) = ground (arith, entries-error n k cs)

  entries-after :
      (n : ℕ) (e : Event) (cs : List ℕ) → entries n (after e cs) ≡ counted n e (entries n cs)
  unfolding handle_new_connection attach_handler ask_if_usable set_new_data_handler
  entries-after n (failed k) cs = entries-error n k cs
  entries-after n (opened k c a) cs = ground (arith, entries-append n k cs)

  -- After any events, the handler's list has as many entries of a connection as the events say: one
  -- for each time that it was opened and served, less one for each error on it while it had one.
  pub run-counts :
      (n : ℕ) (es : List Event) (cs : List ℕ)
      → entries n (run es cs) ≡ count_events n es (entries n cs)
  run-counts n [] cs = refl
  run-counts n (e ∷ es) cs =
      run-counts n es (after e cs) ∙ ap (count_events n es) (entries-after n e cs)
