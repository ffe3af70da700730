-- ===== src/Spin/ConnectionHandler/Worker/Live.antt =====
-- Entries that are in the list and not detached, and what the steps on the list leave of them.
use mathlib.Core.Path.{subst}
use arachnida.Base.{
  ℕ, suc, ◌≤◌, Bool, true, false, List, [], ◌∷◌, Option, none, some, All, ◌==◌, ◌≡◌, ◌≢◌, refl,
  arith, Bool-cases, inl, inr,
}
use arachnida.Spin.ConnectionHandler.{
  AttachmentState, pending_attachment, attached, pending_detachment, detached, Callback, Callbacks,
  attach, mark, erase, scan, state_of, next_state, is_selected, read_fds,
}
use arachnida.Spin.ConnectionHandler.Nodes.{IsOrdered}
use arachnida.Spin.ConnectionHandler.Worker.{has, has_fd, Call, to_call}
use arachnida.Spin.ConnectionHandler.Worker.Distinct.{Distinct}

abbrev pub is_live : Option AttachmentState → Bool
is_live none = false
is_live (some pending_attachment) = true
is_live (some attached) = true
is_live (some pending_detachment) = true
is_live (some detached) = false

-- Every entry of these descriptors has yet to be detached.
abbrev pub Keeps : List ℕ → Callbacks → Type 0
Keeps fds = All (λ c. has c.file_descriptor fds ≡ true → is_live (some c.state) ≡ true)

-- Every entry of these descriptors is one that the worker selects.
abbrev pub Selects : List ℕ → Callbacks → Type 0
Selects fds = All (λ c. has c.file_descriptor fds ≡ true → is_selected c.state ≡ true)

Selects-cons :
    (fd : ℕ) (fds : List ℕ) (cs : Callbacks)
    → has_fd fd cs ≡ false
    → Selects fds cs
    → Selects (fd ∷ fds) cs
Selects-cons fd fds [] l s = tt
Selects-cons fd fds (c ∷ cs) l (h, s) =
    ((λ e. ground (arith, h)), Selects-cons fd fds cs (ground arith) s)

has-read_fds : (cs : Callbacks) (fd : ℕ) → has_fd fd cs ≡ false → has fd (read_fds cs) ≡ false
unfolding read_fds
has-read_fds [] fd l = refl
has-read_fds (c ∷ cs) fd l = ground (arith, has-read_fds cs fd)

pub read_fds-Selects : (cs : Callbacks) → Distinct cs → Selects (read_fds cs) cs
unfolding read_fds is_selected
read_fds-Selects [] d = tt
read_fds-Selects (c ∷ cs) (l, d) =
    let rest = read_fds-Selects cs d in
    let absent = has-read_fds cs c.file_descriptor l in
    elim (Bool-cases (is_selected c.state)) [
      | inl h ↦
          let fds : c.file_descriptor ∷ read_fds cs ≡ read_fds (c ∷ cs) = rw h refl in
          subst (λ f. Selects f (c ∷ cs)) fds
            ((λ e. h), Selects-cons c.file_descriptor (read_fds cs) cs l rest)
      | inr h ↦
          let fds : read_fds cs ≡ read_fds (c ∷ cs) = rw h refl in
          subst (λ f. Selects f (c ∷ cs)) fds ((λ e. cc), rest)
    ]

next_state-is_live :
    (s : AttachmentState) → is_selected s ≡ true → is_live (some (next_state s)) ≡ true
unfolding is_selected next_state
next_state-is_live pending_attachment h = refl
next_state-is_live attached h = refl
next_state-is_live pending_detachment h = cc
next_state-is_live detached h = cc

pub scan-Keeps : (cs : Callbacks) (fds : List ℕ) → Selects fds cs → Keeps fds (scan cs)
unfolding scan
scan-Keeps [] fds s = tt
scan-Keeps (c ∷ cs) fds (h, s) = ((λ e. next_state-is_live c.state (h e)), scan-Keeps cs fds s)

pub attach-Keeps :
    (cs : Callbacks) (fds : List ℕ) (node fd on_select : ℕ) (on_error : Option ℕ)
    → Keeps fds cs
    → Keeps fds (attach node fd on_select on_error cs)
unfolding attach
attach-Keeps [] fds node fd on_select on_error k = ((λ e. refl), tt)
attach-Keeps (c ∷ cs) fds node fd on_select on_error (h, k) =
    (h, attach-Keeps cs fds node fd on_select on_error k)

pub mark-Keeps : (cs : Callbacks) (fds : List ℕ) (fd : ℕ) → Keeps fds cs → Keeps fds (mark fd cs)
unfolding mark
mark-Keeps [] fds fd k = tt
mark-Keeps (c ∷ cs) fds fd (h, k) =
    let rest = mark-Keeps cs fds fd k in
    elim (Bool-cases (c.file_descriptor == fd)) [
      | inl e ↦ rw e ((λ x. refl), k)
      | inr e ↦ rw e (h, rest)
    ]

pub erase-Keeps :
    (cs : Callbacks) (fds : List ℕ) (node : ℕ) → Keeps fds cs → Keeps fds (erase node cs)
unfolding erase
erase-Keeps [] fds node k = tt
erase-Keeps (c ∷ cs) fds node (h, k) =
    let rest = erase-Keeps cs fds node k in
    elim (Bool-cases (c.node == node)) [ inl e ↦ rw e k | inr e ↦ rw e (h, rest) ]

-- A live entry stays so.
pub attach-is_live :
    (cs : Callbacks) (node fresh fd on_select : ℕ) (on_error : Option ℕ)
    → is_live (state_of node cs) ≡ true
    → is_live (state_of node (attach fresh fd on_select on_error cs)) ≡ true
unfolding attach state_of
attach-is_live [] node fresh fd on_select on_error h = cc
attach-is_live (c ∷ cs) node fresh fd on_select on_error h =
    ground (arith, attach-is_live cs node fresh fd on_select on_error)

pub mark-is_live :
    (cs : Callbacks) (node fd : ℕ)
    → is_live (state_of node cs) ≡ true
    → is_live (state_of node (mark fd cs)) ≡ true
unfolding mark state_of
mark-is_live [] node fd h = cc
mark-is_live (c ∷ cs) node fd h = ground (arith, mark-is_live cs node fd)

pub erase-is_live :
    (cs : Callbacks) (node other : ℕ)
    → node ≢ other
    → is_live (state_of node cs) ≡ true
    → is_live (state_of node (erase other cs)) ≡ true
unfolding erase state_of
erase-is_live [] node other ne h = cc
erase-is_live (c ∷ cs) node other ne h = ground (arith, erase-is_live cs node other ne)

All-imp : {P Q : Call → Type 0} (ks : List Call) → ((k : Call) → P k → Q k) → All P ks → All Q ks
All-imp [] f h = tt
All-imp (k ∷ ks) f (p, h) = (f k p, All-imp ks f h)

-- The calls that the worker collects are of nodes from `lo` on.
to_call-above :
    (cs : Callbacks) (is_set : ℕ → Bool) (lo hi : ℕ)
    → IsOrdered lo cs hi
    → All (λ k. lo ≤ k.node) (to_call is_set cs)
unfolding to_call
to_call-above [] is_set lo hi o = tt
to_call-above (c ∷ cs) is_set lo hi (h, o) =
    let rest =
      All-imp (to_call is_set cs) (λ k above. omega arith)
        (to_call-above cs is_set (suc c.node) hi o) in
    elim (Bool-cases (is_set c.file_descriptor)) [ inl e ↦ rw e (h, rest) | inr e ↦ rw e rest ]

abbrev pub AreLive : Callbacks → List Call → Type 0
AreLive cs = All (λ k. is_live (state_of k.node cs) ≡ true)

AreLive-cons :
    (c : Callback) (cs : Callbacks) (ks : List Call)
    → All (λ k. suc c.node ≤ k.node) ks
    → AreLive cs ks
    → AreLive (c ∷ cs) ks
unfolding state_of
AreLive-cons c cs [] a h = tt
AreLive-cons c cs (k ∷ ks) (lt, a) (h, rest) = (ground arith, AreLive-cons c cs ks a rest)

head-is_live :
    (c : Callback) (cs : Callbacks)
    → is_live (some c.state) ≡ true
    → is_live (state_of c.node (c ∷ cs)) ≡ true
unfolding state_of
head-is_live c cs h = ground arith

pub to_call-AreLive :
    (cs : Callbacks) (fds : List ℕ) (is_set : ℕ → Bool) (lo hi : ℕ)
    → IsOrdered lo cs hi
    → ((fd : ℕ) → is_set fd ≡ true → has fd fds ≡ true)
    → Keeps fds cs
    → AreLive cs (to_call is_set cs)
unfolding to_call
to_call-AreLive [] fds is_set lo hi o given k = tt
to_call-AreLive (c ∷ cs) fds is_set lo hi (h, o) given (live, k) =
    let rest =
      AreLive-cons c cs (to_call is_set cs) (to_call-above cs is_set (suc c.node) hi o)
        (to_call-AreLive cs fds is_set (suc c.node) hi o given k) in
    elim (Bool-cases (is_set c.file_descriptor)) [
      | inl e ↦ rw e (head-is_live c cs (live (given c.file_descriptor e)), rest)
      | inr e ↦ rw e rest
    ]
