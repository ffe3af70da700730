-- ===== src/Spin/ConnectionHandler/Twice.antt =====
-- Two threads that detach the same descriptor, lib/Spin/Private/ConnectionHandler.cpp.
use arachnida.Base.{ℕ, suc, ◌≤◌, ◌<◌, [], ◌∷◌, Option, none, some, ◌≡◌, refl, ap, ◌∙◌, arith}
use arachnida.Spin.ConnectionHandler.{
  detached, pending_detachment, Callback, Callbacks, with_state, attach, find_callback, mark,
  state_of, erase, next_state, scan, Handler, Step, attaches, detach_begins, detach_returns,
  worker_detaches, scans, removes,
}
use arachnida.Spin.ConnectionHandler.Nodes.{IsOrdered, IsSound, Step-IsSound}

-- Any number of steps.
pub data Steps : Handler → Handler → Type 0 where
  stays : {h : Handler} → Steps h h
  and_then : {h k l : Handler} → Steps h k → Step k l → Steps h l

-- No step brings a node back that was erased.
mark-gone :
    (cs : Callbacks) (fd node : ℕ) → state_of node cs ≡ none → state_of node (mark fd cs) ≡ none
unfolding state_of mark
mark-gone [] fd node h = refl
mark-gone (c ∷ cs) fd node h = ground (arith, mark-gone cs fd node)

erase-gone :
    (cs : Callbacks) (other node : ℕ)
    → state_of node cs ≡ none
    → state_of node (erase other cs) ≡ none
unfolding state_of erase
erase-gone [] other node h = refl
erase-gone (c ∷ cs) other node h = ground (arith, erase-gone cs other node)

scan-gone : (cs : Callbacks) (node : ℕ) → state_of node cs ≡ none → state_of node (scan cs) ≡ none
unfolding state_of scan
scan-gone [] node h = refl
scan-gone (c ∷ cs) node h = ground (arith, scan-gone cs node)

attach-gone :
    (cs : Callbacks) (fresh fd on_select node : ℕ) (on_error : Option ℕ)
    → node < fresh
    → state_of node cs ≡ none
    → state_of node (attach fresh fd on_select on_error cs) ≡ none
unfolding state_of attach
attach-gone [] fresh fd on_select node on_error lt h = ground arith
attach-gone (c ∷ cs) fresh fd on_select node on_error lt h =
    ground (arith, attach-gone cs fresh fd on_select node on_error lt)

-- A node that was used and is not in the list.
abbrev pub IsGone : ℕ → Handler → Type 0
IsGone node h = (node < h.next_node) × (state_of node h.callbacks ≡ none)

Step-IsGone : {h k : Handler} (node : ℕ) → Step h k → IsGone node h → IsGone node k
Step-IsGone {h} node (attaches fd on_select on_error) (lt, g) =
    (omega arith, attach-gone h.callbacks h.next_node fd on_select node on_error lt g)
Step-IsGone {h} node (detach_begins fd c e) (lt, g) = (lt, mark-gone h.callbacks fd node g)
Step-IsGone {h} node (detach_returns other before after e s) (lt, g) =
    (lt, erase-gone h.callbacks other node g)
Step-IsGone {h} node (worker_detaches fd c e) (lt, g) =
    (lt, erase-gone (mark fd h.callbacks) c.node node (mark-gone h.callbacks fd node g))
Step-IsGone {h} node scans (lt, g) = (lt, scan-gone h.callbacks node g)
Step-IsGone {h} node (removes fd) (lt, g) = (lt, mark-gone h.callbacks fd node g)

Steps-IsGone : {h k : Handler} (node : ℕ) → Steps h k → IsGone node h → IsGone node k
Steps-IsGone node stays g = g
Steps-IsGone node (and_then run step) g = Step-IsGone node step (Steps-IsGone node run g)

-- What is left when two threads have begun to detach a descriptor, the worker has looked at the list,
-- and one of the two calls has returned.
abbrev pub detached_once : ℕ → ℕ → Handler → Handler
detached_once fd node h = record h {
  callbacks = erase node (scan (mark fd (mark fd h.callbacks)));
  waiting = node ∷ h.waiting;
}

-- Marking twice is marking once, and finds the same node.
mark-finds :
    (cs : Callbacks) (fd : ℕ) (c : Callback)
    → find_callback fd cs ≡ some c
    → find_callback fd (mark fd cs) ≡ some (with_state pending_detachment c)
unfolding find_callback mark
mark-finds [] fd c e = ground arith
mark-finds (b ∷ cs) fd c e = ground (arith, mark-finds cs fd c)

IsOrdered-le : (cs : Callbacks) (lo hi : ℕ) → IsOrdered lo cs hi → lo ≤ hi
IsOrdered-le [] lo hi h = h
IsOrdered-le (c ∷ cs) lo hi (h, t) = let rest = IsOrdered-le cs (suc c.node) hi t in omega arith

find_callback-state :
    (cs : Callbacks) (fd lo hi : ℕ) (c : Callback)
    → IsOrdered lo cs hi
    → find_callback fd cs ≡ some c
    → (state_of c.node (scan (mark fd cs)) ≡ some detached) × (lo ≤ c.node) × (c.node < hi)
unfolding find_callback mark scan next_state state_of
find_callback-state [] fd lo hi c o e = ground arith
find_callback-state (b ∷ cs) fd lo hi c (h, t) e =
    let above = IsOrdered-le cs (suc b.node) hi t in
    ground (arith, find_callback-state cs fd (suc b.node) hi c t)

below-gone :
    (cs : Callbacks) (lo hi node : ℕ) → IsOrdered lo cs hi → node < lo → state_of node cs ≡ none
unfolding state_of
below-gone [] lo hi node o lt = refl
below-gone (c ∷ cs) lo hi node (h, t) lt = ground (arith, below-gone cs (suc c.node) hi node t)

erase-gone_too :
    (cs : Callbacks) (lo hi node : ℕ) → IsOrdered lo cs hi → state_of node (erase node cs) ≡ none
unfolding erase state_of
erase-gone_too [] lo hi node o = refl
erase-gone_too (c ∷ cs) lo hi node (h, t) =
    ground (arith, below-gone cs (suc c.node) hi node t, erase-gone_too cs (suc c.node) hi node t)

mark-mark : (cs : Callbacks) (fd : ℕ) → mark fd (mark fd cs) ≡ mark fd cs
unfolding mark
mark-mark [] fd = refl
mark-mark (c ∷ cs) fd = ground (arith, mark-mark cs fd)

mark-IsOrdered_again :
    (h : Handler) (fd : ℕ) → IsSound h → IsOrdered 0 (scan (mark fd h.callbacks)) h.next_node
mark-IsOrdered_again h fd o =
    let marked : Handler = record h { callbacks = mark fd h.callbacks } in
    let looked : Handler = record h { callbacks = scan (mark fd h.callbacks) } in
    let first : Step h marked = removes fd in
    let second : Step marked looked = scans in Step-IsSound second (Step-IsSound first o)

-- The two calls, a round of the worker, and the return of one call.
detach_detach :
    (h : Handler) (fd : ℕ) (c : Callback)
    → IsSound h
    → find_callback fd h.callbacks ≡ some c
    → Steps h (detached_once fd c.node h)
detach_detach h fd c o e =
    let first : Handler = record h {
      callbacks = mark fd h.callbacks;
      waiting = c.node ∷ h.waiting;
    } in
    let second : Handler = record h {
      callbacks = mark fd (mark fd h.callbacks);
      waiting = c.node ∷ c.node ∷ h.waiting;
    } in
    let looked : Handler = record second { callbacks = scan second.callbacks } in
    let seen : state_of c.node looked.callbacks ≡ some detached =
      ap (λ (cs : Callbacks). state_of c.node (scan cs)) (mark-mark h.callbacks fd)
      ∙ (find_callback-state h.callbacks fd 0 h.next_node c o e).0 in
    let s1 : Steps h first = and_then stays (detach_begins fd c e) in
    let s2 : Steps h second =
      and_then s1
        (detach_begins fd (with_state pending_detachment c) (mark-finds h.callbacks fd c e)) in
    let s3 : Steps h looked = and_then s2 scans in
    and_then s3 (detach_returns c.node [] (c.node ∷ h.waiting) refl seen)

-- Two threads detach the same attached descriptor: it can happen that one of them returns, and the
-- other waits for a list node that is erased. Whatever the threads do from then on, that node is never
-- in the list again, so that the second call does not find it detached; the code reads it through an
-- iterator that is no longer valid.
pub detach_detach-IsGone :
    (h l : Handler) (fd : ℕ) (c : Callback)
    → IsSound h
    → find_callback fd h.callbacks ≡ some c
    → Steps (detached_once fd c.node h) l
    → Steps h (detached_once fd c.node h)
      × ((detached_once fd c.node h).waiting ≡ c.node ∷ h.waiting)
      × (state_of c.node l.callbacks ≡ none)
detach_detach-IsGone h l fd c o e run = (
  detach_detach h fd c o e,
  refl,
  (Steps-IsGone c.node run (
    (find_callback-state h.callbacks fd 0 h.next_node c o e).2,
    ap (λ (cs : Callbacks). state_of c.node (erase c.node (scan cs))) (mark-mark h.callbacks fd)
        ∙ erase-gone_too (scan (mark fd h.callbacks)) 0 h.next_node c.node
            (mark-IsOrdered_again h fd o),
  )).1,
)
