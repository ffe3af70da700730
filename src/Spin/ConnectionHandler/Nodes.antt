-- ===== src/Spin/ConnectionHandler/Nodes.antt =====
-- The list nodes of the connection handler stay in order, so that no two are the same.
use arachnida.Base.{ℕ, suc, ◌≤◌, [], ◌∷◌, Option, arith}
use arachnida.Spin.ConnectionHandler.{
  Callbacks, attach, mark, erase, scan, Handler, Step, attaches, detach_begins, detach_returns,
  worker_detaches, scans, removes, Reachable, starts, then_step,
}

-- Nodes from `lo` on and below `hi`, each above the one before it.
abbrev pub IsOrdered : ℕ → Callbacks → ℕ → Type 0
IsOrdered lo [] hi = lo ≤ hi
IsOrdered lo (c ∷ cs) hi = (lo ≤ c.node) × IsOrdered (suc c.node) cs hi

IsOrdered-weaken :
    (cs : Callbacks) (lo lo2 hi : ℕ) → lo2 ≤ lo → IsOrdered lo cs hi → IsOrdered lo2 cs hi
IsOrdered-weaken [] lo lo2 hi le h = omega arith
IsOrdered-weaken (c ∷ cs) lo lo2 hi le (h, t) = (omega arith, t)

pub attach-IsOrdered :
    (cs : Callbacks) (lo hi fd on_select : ℕ) (on_error : Option ℕ)
    → IsOrdered lo cs hi
    → IsOrdered lo (attach hi fd on_select on_error cs) (suc hi)
unfolding attach
attach-IsOrdered [] lo hi fd on_select on_error h = (h, omega arith)
attach-IsOrdered (c ∷ cs) lo hi fd on_select on_error (h, t) =
    (h, attach-IsOrdered cs (suc c.node) hi fd on_select on_error t)

mark-IsOrdered : (cs : Callbacks) (lo hi fd : ℕ) → IsOrdered lo cs hi → IsOrdered lo (mark fd cs) hi
unfolding mark
mark-IsOrdered [] lo hi fd h = h
mark-IsOrdered (c ∷ cs) lo hi fd (h, t) = ground (arith, mark-IsOrdered cs (suc c.node) hi fd t)

erase-IsOrdered :
    (cs : Callbacks) (lo hi node : ℕ) → IsOrdered lo cs hi → IsOrdered lo (erase node cs) hi
unfolding erase
erase-IsOrdered [] lo hi node h = h
erase-IsOrdered (c ∷ cs) lo hi node (h, t) = ground (
  arith,
  erase-IsOrdered cs (suc c.node) hi node t,
  IsOrdered-weaken cs (suc c.node) lo hi (omega arith) t,
)

scan-IsOrdered : (cs : Callbacks) (lo hi : ℕ) → IsOrdered lo cs hi → IsOrdered lo (scan cs) hi
unfolding scan
scan-IsOrdered [] lo hi h = h
scan-IsOrdered (c ∷ cs) lo hi (h, t) = (h, scan-IsOrdered cs (suc c.node) hi t)

abbrev pub IsSound : Handler → Type 0
IsSound h = IsOrdered 0 h.callbacks h.next_node

pub Step-IsSound : {h k : Handler} → Step h k → IsSound h → IsSound k
Step-IsSound {h} (attaches fd on_select on_error) o =
    attach-IsOrdered h.callbacks 0 h.next_node fd on_select on_error o
Step-IsSound {h} (detach_begins fd c e) o = mark-IsOrdered h.callbacks 0 h.next_node fd o
Step-IsSound {h} (detach_returns node before after e s) o =
    erase-IsOrdered h.callbacks 0 h.next_node node o
Step-IsSound {h} (worker_detaches fd c e) o =
    erase-IsOrdered (mark fd h.callbacks) 0 h.next_node c.node
      (mark-IsOrdered h.callbacks 0 h.next_node fd o)
Step-IsSound {h} scans o = scan-IsOrdered h.callbacks 0 h.next_node o
Step-IsSound {h} (removes fd) o = mark-IsOrdered h.callbacks 0 h.next_node fd o

-- In every state that the threads can reach, the list nodes are in the order in which they were
-- attached, no two are the same, and a node that is not yet used is above them all.
pub Reachable-IsSound : {h : Handler} → Reachable h → IsSound h
Reachable-IsSound starts = omega arith
Reachable-IsSound (then_step run step) = Step-IsSound step (Reachable-IsSound run)
