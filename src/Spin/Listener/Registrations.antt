-- ===== src/Spin/Listener/Registrations.antt =====
-- How often a listener, lib/Spin/Listener.cpp, stands in the list of the connection handler.
use arachnida.Base.{
  Bool-cases, inl, inr, false, ok, ℕ, zero, suc, ◌+◌, ◌≤◌, [], ◌∷◌, Option, none, some, ◌==◌,
  if◌then◌else◌, ◌≡◌, refl, sym, ◌∙◌, arith,
}
use arachnida.Spin.ConnectionHandler.{
  Callback, Callbacks, attach, find_callback, mark, erase, scan, Handler,
}
use arachnida.Spin.ConnectionHandler.Nodes.{IsOrdered, IsSound, attach-IsOrdered}
use arachnida.Spin.Listener.{
  Listener, attached_to, detached_from, set_new_connection_handler, clear_new_connection_handler,
}

-- The entries with a descriptor.
unfoldable pub registrations : ℕ → Callbacks → ℕ
registrations fd [] = 0
registrations fd (c ∷ cs) =
    let rest = registrations fd cs in if c.file_descriptor == fd then suc rest else rest

registrations-attach :
    (cs : Callbacks) (node fd on_select : ℕ)
    → registrations fd (attach node fd on_select none cs) ≡ suc (registrations fd cs)
unfolding registrations attach
registrations-attach [] node fd on_select = ground arith
registrations-attach (c ∷ cs) node fd on_select =
    ground (arith, registrations-attach cs node fd on_select)

registrations-scan : (cs : Callbacks) (fd : ℕ) → registrations fd (scan cs) ≡ registrations fd cs
unfolding registrations scan
registrations-scan [] fd = refl
registrations-scan (c ∷ cs) fd = ground (arith, registrations-scan cs fd)

find_callback-node :
    (cs : Callbacks) (fd lo hi : ℕ) (c : Callback)
    → IsOrdered lo cs hi
    → find_callback fd cs ≡ some c
    → lo ≤ c.node
unfolding find_callback
find_callback-node [] fd lo hi c o e = ground arith
find_callback-node (b ∷ cs) fd lo hi c (h, t) e =
    ground (arith, find_callback-node cs fd (suc b.node) hi c t)

-- A call of `detach` takes one entry out.
registrations-detached :
    (cs : Callbacks) (fd lo hi : ℕ) (c : Callback)
    → IsOrdered lo cs hi
    → find_callback fd cs ≡ some c
    → suc (registrations fd (erase c.node (scan (mark fd cs)))) ≡ registrations fd cs
unfolding registrations find_callback mark scan erase
registrations-detached [] fd lo hi c o e = ground arith
registrations-detached (b ∷ cs) fd lo hi c (h, t) e = ground (
  arith,
  registrations-detached cs fd (suc b.node) hi c t,
  registrations-scan cs fd,
  find_callback-node cs fd (suc b.node) hi c t,
)

find_callback-found :
    (cs : Callbacks) (fd n : ℕ)
    → registrations fd cs ≡ suc n
    → (c : Callback) × (find_callback fd cs ≡ some c)
unfolding registrations find_callback
find_callback-found [] fd n e = absurd (ground arith)
find_callback-found (c ∷ cs) fd n e = elim (Bool-cases (c.file_descriptor == fd)) [
  | inl u ↦ (c, rw u)
  | inr u ↦
      let rest : registrations fd cs ≡ suc n = sym (registrations-other c cs fd u) ∙ e in
      rw u (find_callback-found cs fd n rest)
]
  where
    registrations-other :
        (c : Callback) (cs : Callbacks) (fd : ℕ)
        → (c.file_descriptor == fd) ≡ false
        → registrations fd (c ∷ cs) ≡ registrations fd cs
    registrations-other c cs fd u = rw u

-- `setNewConnectionHandler`, so many times, on a listener with a BIO.
unfoldable pub set_times : ℕ → ℕ → ℕ → Listener → Handler → Listener × Handler
unfolding set_new_connection_handler
set_times zero on_new_connection handler l h = (l, h)
set_times (suc n) on_new_connection handler l h =
    let after = set_new_connection_handler on_new_connection handler l h in
    set_times n on_new_connection handler after.listener after.handler

-- A listener with a BIO.
abbrev pub listening : ℕ → Option ℕ → Listener
listening fd handler = record { bio = some fd; new_connection_handler = handler }

set_times-registrations :
    (n on_new_connection handler fd : ℕ) (h : Handler)
    → IsSound h
    → let (l2, h2) = set_times n on_new_connection handler (listening fd (some handler)) h in
      (l2 ≡ listening fd (some handler))
      × IsSound h2
      × (registrations fd h2.callbacks ≡ n + registrations fd h.callbacks)
unfolding set_times set_new_connection_handler attached_to
set_times-registrations zero on_new_connection handler fd h o = (refl, o, omega arith)
set_times-registrations (suc n) on_new_connection handler fd h o =
    let more : Handler = attached_to fd on_new_connection h in
    let (l2, sound, count) =
      set_times-registrations n on_new_connection handler fd more
        (attach-IsOrdered h.callbacks 0 h.next_node fd on_new_connection none o) in
    (l2, sound, omega (arith, registrations-attach h.callbacks h.next_node fd on_new_connection))

detached_from-found :
    (fd : ℕ) (h : Handler) (c : Callback)
    → find_callback fd h.callbacks ≡ some c
    → detached_from fd h ≡ record h { callbacks = erase c.node (scan (mark fd h.callbacks)) }
unfolding detached_from
detached_from-found fd h c found = rw (found, detached_from)

detached_from-registrations :
    (fd n : ℕ) (h : Handler)
    → IsSound h
    → registrations fd h.callbacks ≡ suc n
    → registrations fd (detached_from fd h).callbacks ≡ n
detached_from-registrations fd n h o e =
    let (c, found) = find_callback-found h.callbacks fd n e in
    let taken = registrations-detached h.callbacks fd 0 h.next_node c o found in
    rw (detached_from-found fd h c found) (omega arith)

-- What a call that clears the handler leaves.
Cleared : ℕ → ℕ → Listener → Handler → Type 0
Cleared fd n l h =
    let cleared = clear_new_connection_handler l h in
    (cleared.listener ≡ listening fd none)
    × (registrations fd cleared.handler.callbacks ≡ n)
    × (clear_new_connection_handler cleared.listener cleared.handler
        ≡ record { listener = listening fd none; handler = cleared.handler; result = ok tt })

clear-Cleared :
    (handler fd n : ℕ) (l : Listener) (h : Handler)
    → l ≡ listening fd (some handler)
    → IsSound h
    → registrations fd h.callbacks ≡ suc n
    → Cleared fd n l h
unfolding Cleared clear_new_connection_handler
clear-Cleared handler fd n l h same o e =
    rw same (refl, detached_from-registrations fd n h o e, refl)

-- A listener whose handler is set once or more and then cleared has no handler, but of the calls that
-- set it all but one have left an entry for its descriptor in the list of the connection handler, beside
-- those that were there: one call leaves none, two leave one. Clearing once more, as the destructor
-- does, changes nothing.
pub clear-set_times :
    (n on_new_connection handler fd : ℕ) (before : Option ℕ) (h : Handler)
    → IsSound h
    → let (l2, h2) = set_times (suc n) on_new_connection handler (listening fd before) h in
      let cleared = clear_new_connection_handler l2 h2 in
      (cleared.listener ≡ listening fd none)
      × (registrations fd cleared.handler.callbacks ≡ n + registrations fd h.callbacks)
      × (clear_new_connection_handler cleared.listener cleared.handler
          ≡ record { listener = listening fd none; handler = cleared.handler; result = ok tt })
unfolding set_times set_new_connection_handler Cleared attached_to
clear-set_times n on_new_connection handler fd before h o =
    let more : Handler = attached_to fd on_new_connection h in
    let sound = attach-IsOrdered h.callbacks 0 h.next_node fd on_new_connection none o in
    let (same, still_sound, count) =
      set_times-registrations n on_new_connection handler fd more sound in
    let (l2, h2) = set_times n on_new_connection handler (listening fd (some handler)) more in
    clear-Cleared handler fd (n + registrations fd h.callbacks) l2 h2 same still_sound
      (omega (arith, registrations-attach h.callbacks h.next_node fd on_new_connection))
