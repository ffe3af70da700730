-- ===== src/Spin/ConnectionHandler/Worker/Distinct.antt =====
-- The entries of the connection handler's list keep descriptors of their own.
use arachnida.Base.{ℕ, false, [], ◌∷◌, Option, ◌==◌, ◌≡◌, refl, arith}
use arachnida.Spin.ConnectionHandler.{Callbacks, attach, mark, erase, scan}
use arachnida.Spin.ConnectionHandler.Worker.{has_fd}

abbrev pub Distinct : Callbacks → Type 0
Distinct [] = Unit {0}
Distinct (c ∷ cs) = (has_fd c.file_descriptor cs ≡ false) × Distinct cs

has_fd-attach :
    (cs : Callbacks) (other node fd on_select : ℕ) (on_error : Option ℕ)
    → has_fd other cs ≡ false
    → (fd == other) ≡ false
    → has_fd other (attach node fd on_select on_error cs) ≡ false
unfolding attach
has_fd-attach [] other node fd on_select on_error h ne = ground arith
has_fd-attach (c ∷ cs) other node fd on_select on_error h ne =
    ground (arith, has_fd-attach cs other node fd on_select on_error)

pub attach-Distinct :
    (cs : Callbacks) (node fd on_select : ℕ) (on_error : Option ℕ)
    → has_fd fd cs ≡ false
    → Distinct cs
    → Distinct (attach node fd on_select on_error cs)
unfolding attach
attach-Distinct [] node fd on_select on_error h d = (refl, tt)
attach-Distinct (c ∷ cs) node fd on_select on_error h (l, d) = (
  ground (arith, has_fd-attach cs c.file_descriptor node fd on_select on_error),
  attach-Distinct cs node fd on_select on_error (ground arith) d,
)

has_fd-mark : (cs : Callbacks) (other fd : ℕ) → has_fd other (mark fd cs) ≡ has_fd other cs
unfolding mark
has_fd-mark [] other fd = refl
has_fd-mark (c ∷ cs) other fd = ground (arith, has_fd-mark cs other fd)

pub mark-Distinct : (cs : Callbacks) (fd : ℕ) → Distinct cs → Distinct (mark fd cs)
unfolding mark
mark-Distinct [] fd d = tt
mark-Distinct (c ∷ cs) fd (l, d) =
    ground (arith, has_fd-mark cs c.file_descriptor fd, mark-Distinct cs fd d)

has_fd-scan : (cs : Callbacks) (other : ℕ) → has_fd other (scan cs) ≡ has_fd other cs
unfolding scan
has_fd-scan [] other = refl
has_fd-scan (c ∷ cs) other = rw (has_fd-scan cs other) refl

pub scan-Distinct : (cs : Callbacks) → Distinct cs → Distinct (scan cs)
unfolding scan
scan-Distinct [] d = tt
scan-Distinct (c ∷ cs) (l, d) = (rw (has_fd-scan cs c.file_descriptor) l, scan-Distinct cs d)

has_fd-erase :
    (cs : Callbacks) (other node : ℕ)
    → has_fd other cs ≡ false
    → has_fd other (erase node cs) ≡ false
unfolding erase
has_fd-erase [] other node h = h
has_fd-erase (c ∷ cs) other node h = ground (arith, has_fd-erase cs other node)

pub erase-Distinct : (cs : Callbacks) (node : ℕ) → Distinct cs → Distinct (erase node cs)
unfolding erase
erase-Distinct [] node d = tt
erase-Distinct (c ∷ cs) node (l, d) =
    ground (arith, has_fd-erase cs c.file_descriptor node, erase-Distinct cs node d)
