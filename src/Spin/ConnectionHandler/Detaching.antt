-- ===== src/Spin/ConnectionHandler/Detaching.antt =====
-- What a call of detach takes out of the list.
use arachnida.Base.{
  ℕ, suc, ◌≤◌, ◌<◌, true, List, [], ◌∷◌, ◌++◌, append_assoc, some, All, ◌≡◌, ◌≢◌, refl, sym, ap,
  ◌∙◌, arith,
}
use arachnida.Spin.ConnectionHandler.{
  detached, pending_detachment, Callback, Callbacks, with_state, find_callback, mark, state_of,
  erase, next_state, scan, is_selected, read_fds,
}
use arachnida.Spin.ConnectionHandler.Nodes.{IsOrdered}

-- The descriptor is in none of the entries.
abbrev pub Lacks : ℕ → Callbacks → Type 0
Lacks fd = All (λ c. c.file_descriptor ≢ fd)

find_callback-append :
    (fd : ℕ) (before : Callbacks) (c : Callback) (after : Callbacks)
    → Lacks fd before
    → c.file_descriptor ≡ fd
    → find_callback fd (before ++ c ∷ after) ≡ some c
unfolding find_callback
find_callback-append fd [] c after l e = ground arith
find_callback-append fd (b ∷ before) c after (ne, l) e =
    ground (arith, find_callback-append fd before c after l e)

mark-append :
    (fd : ℕ) (before : Callbacks) (c : Callback) (after : Callbacks)
    → Lacks fd before
    → c.file_descriptor ≡ fd
    → mark fd (before ++ c ∷ after) ≡ before ++ with_state pending_detachment c ∷ after
unfolding mark
mark-append fd [] c after l e = ground arith
mark-append fd (b ∷ before) c after (ne, l) e = ground (arith, mark-append fd before c after l e)

scan-append : (before after : Callbacks) → scan (before ++ after) ≡ scan before ++ scan after
unfolding scan
scan-append [] after = refl
scan-append (b ∷ before) after = rw (scan-append before after)

-- Nodes before an entry are below it.
IsOrdered-below :
    (before : Callbacks) (c : Callback) (after : Callbacks) (lo hi : ℕ)
    → IsOrdered lo (before ++ c ∷ after) hi
    → (lo ≤ c.node) × All (λ b. b.node < c.node) before
IsOrdered-below [] c after lo hi (h, t) = (h, tt)
IsOrdered-below (b ∷ before) c after lo hi (h, t) =
    let rest = IsOrdered-below before c after (suc b.node) hi t in
    (omega (arith, rest.0), (rest.0, rest.1))

state_of-scan :
    (before : Callbacks) (c : Callback) (after : Callbacks)
    → All (λ b. b.node < c.node) before
    → state_of c.node (scan before ++ c ∷ after) ≡ some c.state
unfolding state_of scan
state_of-scan [] c after l = ground arith
state_of-scan (b ∷ before) c after (lt, l) = ground (arith, state_of-scan before c after l)

erase-scan :
    (before : Callbacks) (c : Callback) (after : Callbacks)
    → All (λ b. b.node < c.node) before
    → erase c.node (scan before ++ c ∷ after) ≡ scan before ++ after
unfolding erase scan
erase-scan [] c after l = ground arith
erase-scan (b ∷ before) c after (lt, l) = ground (arith, erase-scan before c after l)

-- A call of `detach` marks the first entry with the descriptor. After one round of the worker that entry
-- is detached, so the call can return, and it takes exactly that entry out of the list: every other entry,
-- before or after it, stays as the worker's round leaves it. The list is as the reachable states have it.
pub detach_lem :
    (fd : ℕ) (before : Callbacks) (c : Callback) (after : Callbacks) (hi : ℕ)
    → IsOrdered 0 (before ++ c ∷ after) hi
    → Lacks fd before
    → c.file_descriptor ≡ fd
    → (find_callback fd (before ++ c ∷ after) ≡ some c)
      × (state_of c.node (scan (mark fd (before ++ c ∷ after))) ≡ some detached)
      × (erase c.node (scan (mark fd (before ++ c ∷ after))) ≡ scan before ++ scan after)
detach_lem fd before c after hi o l e =
    let below = (IsOrdered-below before c after 0 hi o).1 in
    let gone = with_state detached c in
    let scanned : scan (mark fd (before ++ c ∷ after)) ≡ scan before ++ gone ∷ scan after =
      ap scan (mark-append fd before c after l e)
      ∙ scan-append before _
      ∙ (unfold scan next_state in refl) in
    (
      find_callback-append fd before c after l e,
      ap (state_of c.node) scanned ∙ state_of-scan before gone (scan after) below,
      ap (erase c.node) scanned ∙ erase-scan before gone (scan after) below,
    )

read_fds-append :
    (before after : Callbacks) → read_fds (before ++ after) ≡ read_fds before ++ read_fds after
unfolding read_fds
read_fds-append [] after = refl
read_fds-append (b ∷ before) after = rw (read_fds-append before after) (ground arith)

read_fds-selected :
    (c : Callback) (after : Callbacks)
    → is_selected c.state ≡ true
    → read_fds (scan (c ∷ after)) ≡ c.file_descriptor ∷ read_fds (scan after)
unfolding read_fds scan next_state is_selected
read_fds-selected c after h = ground arith

-- If another entry behind the first one has the same descriptor and is attached, or about to be, then
-- the worker still waits for that descriptor after the call of `detach` has returned.
pub detach_leaves :
    (before : Callbacks) (c : Callback) (between : Callbacks) (live : Callback) (after : Callbacks)
    (hi : ℕ)
    → IsOrdered 0 (before ++ c ∷ (between ++ live ∷ after)) hi
    → Lacks live.file_descriptor before
    → c.file_descriptor ≡ live.file_descriptor
    → is_selected live.state ≡ true
    → let fd = live.file_descriptor in
      (earlier later : List ℕ) × (read_fds
          (erase c.node (scan (mark fd (before ++ c ∷ (between ++ live ∷ after)))))
        ≡ earlier ++ fd ∷ later)
detach_leaves before c between live after hi o l e s =
    let erased = (detach_lem live.file_descriptor before c (between ++ live ∷ after) hi o l e).2 in
    (
      read_fds (scan before) ++ read_fds (scan between),
      read_fds (scan after),
      ap read_fds erased
          ∙ read_fds-append (scan before) (scan (between ++ live ∷ after))
          ∙ ap (λ t. read_fds (scan before) ++ t)
              (ap read_fds (scan-append between (live ∷ after))
                ∙ read_fds-append (scan between) (scan (live ∷ after))
                ∙ ap (λ t. read_fds (scan between) ++ t) (read_fds-selected live after s))
          ∙ sym (append_assoc (read_fds (scan before)) (read_fds (scan between)) _),
    )
