-- ===== src/Spin/ConnectionHandler.antt =====
-- lib/Spin/Private/ConnectionHandler.h and ConnectionHandler.cpp. Each critical section under
-- `callbacks_lock_` is a step, so that threads interleave between them. The pipe that wakes the worker,
-- the debug output and the Windows-only checks of its thread are left out. A call-back is known by a
-- number; what it does itself is steps of the worker thread.
pub mod Nodes
pub mod Detaching
pub mod Twice
pub mod Worker
use arachnida.Base.{
  ℕ, suc, Bool, true, false, not, List, [], ◌∷◌, ◌++◌, Option, none, some, ◌==◌, if◌then◌else◌, ◌≡◌,
}

pub data AttachmentState : Type 0 where
  pending_attachment attached pending_detachment detached : AttachmentState

-- An element of the list; `node` tells the list nodes apart, as iterators do.
pub record Callback : Type 0 where
  pub node : ℕ
  pub file_descriptor : ℕ
  pub on_select_callback : ℕ
  pub on_error_callback : Option ℕ
  pub state : AttachmentState

abbrev pub Callbacks : Type 0
Callbacks = List Callback

abbrev pub with_state : AttachmentState → Callback → Callback
with_state s c = record c { state = s }

-- `push_back` of a new node.
unfoldable pub attach : ℕ → ℕ → ℕ → Option ℕ → Callbacks → Callbacks
attach node fd on_select on_error callbacks =
    callbacks
    ++ record {
      node = node;
      file_descriptor = fd;
      on_select_callback = on_select;
      on_error_callback = on_error;
      state = pending_attachment;
    }
      ∷ []

-- `find_if` on the descriptor.
unfoldable pub find_callback : ℕ → Callbacks → Option Callback
find_callback fd [] = none
find_callback fd (c ∷ cs) = if c.file_descriptor == fd then some c else find_callback fd cs

-- The assignment of `pending_detachment__` to the element that `find_if` finds.
unfoldable pub mark : ℕ → Callbacks → Callbacks
mark fd [] = []
mark fd (c ∷ cs) =
    if c.file_descriptor == fd then with_state pending_detachment c ∷ cs else c ∷ mark fd cs

-- The state behind an iterator; `none` if the node was erased.
unfoldable pub state_of : ℕ → Callbacks → Option AttachmentState
state_of node [] = none
state_of node (c ∷ cs) = if c.node == node then some c.state else state_of node cs

unfoldable pub erase : ℕ → Callbacks → Callbacks
erase node [] = []
erase node (c ∷ cs) = if c.node == node then cs else c ∷ erase node cs

-- What the worker's first loop makes of a state.
unfoldable pub next_state : AttachmentState → AttachmentState
next_state pending_attachment = attached
next_state attached = attached
next_state pending_detachment = detached
next_state detached = detached

unfoldable pub scan : Callbacks → Callbacks
unfolding next_state
scan [] = []
scan (c ∷ cs) = with_state (next_state c.state) c ∷ scan cs

-- What the loop does `FD_SET` with.
unfoldable pub is_selected : AttachmentState → Bool
is_selected pending_attachment = true
is_selected attached = true
is_selected pending_detachment = false
is_selected detached = false

unfoldable pub read_fds : Callbacks → List ℕ
unfolding is_selected
read_fds [] = []
read_fds (c ∷ cs) =
    let fds = read_fds cs in if is_selected c.state then c.file_descriptor ∷ fds else fds

-- The call-backs to call when `select` says which descriptors are ready. The state is not looked at.
unfoldable pub callbacks_to_call : (ℕ → Bool) → Callbacks → List (ℕ × ℕ)
callbacks_to_call is_set [] = []
callbacks_to_call is_set (c ∷ cs) =
    let calls = callbacks_to_call is_set cs in
    if is_set c.file_descriptor then (c.file_descriptor, c.on_select_callback) ∷ calls else calls

-- When `select` fails: the attached descriptors that `testFD_` refuses.
unfoldable pub is_attached : AttachmentState → Bool
is_attached attached = true
is_attached _ = false

unfoldable pub bad_fds : (ℕ → Bool) → Callbacks → List ℕ
unfolding is_attached
bad_fds test_fd [] = []
bad_fds test_fd (c ∷ cs) =
    let fds = bad_fds test_fd cs in
    if is_attached c.state
    then (if test_fd c.file_descriptor then fds else c.file_descriptor ∷ fds)
    else fds

-- The list, the next free node, and the nodes that calls of `detach` wait for.
pub record Handler : Type 0 where
  pub callbacks : Callbacks
  pub next_node : ℕ
  pub waiting : List ℕ

abbrev pub initial : Handler
initial = record { callbacks = []; next_node = 0; waiting = [] }

-- A step of some thread. `detach_begins` and `detach_returns` are the two halves of a call of `detach`
-- from another thread; from the worker's own it does not wait. `removes` is one round of the loop over
-- the descriptors to remove.
pub data Step (h : Handler) : Handler → Type 0 where
  attaches :
      (fd on_select : ℕ) (on_error : Option ℕ)
      → Step h (record h {
        callbacks = attach h.next_node fd on_select on_error h.callbacks;
        next_node = suc h.next_node;
      })
  detach_begins :
      (fd : ℕ) (c : Callback)
      → find_callback fd h.callbacks ≡ some c
      → Step h (record h { callbacks = mark fd h.callbacks; waiting = c.node ∷ h.waiting })
  detach_returns :
      (node : ℕ) (before after : List ℕ)
      → h.waiting ≡ before ++ node ∷ after
      → state_of node h.callbacks ≡ some detached
      → Step h (record h { callbacks = erase node h.callbacks; waiting = before ++ after })
  worker_detaches :
      (fd : ℕ) (c : Callback)
      → find_callback fd h.callbacks ≡ some c
      → Step h (record h { callbacks = erase c.node (mark fd h.callbacks) })
  scans : Step h (record h { callbacks = scan h.callbacks })
  removes : (fd : ℕ) → Step h (record h { callbacks = mark fd h.callbacks })

pub data Reachable : Handler → Type 0 where
  starts : Reachable initial
  then_step : {h k : Handler} → Reachable h → Step h k → Reachable k
