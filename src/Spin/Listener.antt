-- ===== src/Spin/Listener.antt =====
-- lib/Spin/Listener.cpp, on the list of call-backs of the connection handler. The descriptor of a BIO is
-- known by a number, and so is a handler. A call of `detach` is one step here: it marks the entry, the
-- worker looks at the list, and the call erases the entry.
pub mod Registrations
use arachnida.Base.{
  ℕ, suc, Bool, true, false, List, [], ◌∷◌, Option, none, some, Result, ok, throw,
  unusable_listener,
}
use arachnida.Spin.ConnectionHandler.{attach, find_callback, mark, erase, scan, Handler}

-- `bio` is the descriptor of `bio_`, if there is one.
pub record Listener : Type 0 where
  pub bio : Option ℕ
  pub new_connection_handler : Option ℕ

-- The constructors.
abbrev pub make_listener : ℕ → Listener
make_listener fd = record { bio = some fd; new_connection_handler = none }

-- A call of `ConnectionHandler::attach` and one of `detach` from another thread than the worker.
unfoldable pub attached_to : ℕ → ℕ → Handler → Handler
attached_to fd on_select h = record h {
  callbacks = attach h.next_node fd on_select none h.callbacks;
  next_node = suc h.next_node;
}

unfoldable pub detached_from : ℕ → Handler → Handler
detached_from fd h = elim (find_callback fd h.callbacks) [
  | none ↦ h
  | some c ↦ record h { callbacks = erase c.node (scan (mark fd h.callbacks)) }
]

-- What a method leaves, with its exception if it threw.
pub record After : Type 0 where
  pub listener : Listener
  pub handler : Handler
  pub result : Result (Unit {0})

-- `on_new_connection` is the call-back to `onNewConnection_` of this object.
unfoldable pub set_new_connection_handler : ℕ → ℕ → Listener → Handler → After
unfolding attached_to
set_new_connection_handler on_new_connection handler l h = elim l.bio [
  | none ↦ record {
    listener = record l { new_connection_handler = some handler };
    handler = h;
    result = throw unusable_listener;
  }
  | some fd ↦ record {
    listener = record l { new_connection_handler = some handler };
    handler = attached_to fd on_new_connection h;
    result = ok tt;
  }
]

unfoldable pub clear_new_connection_handler : Listener → Handler → After
unfolding detached_from
clear_new_connection_handler l h = elim l.new_connection_handler [
  | none ↦ record { listener = l; handler = h; result = ok tt }
  | some handler ↦ elim l.bio [
    | none ↦ record { listener = l; handler = h; result = throw unusable_listener }
    | some fd ↦ record {
      listener = record l { new_connection_handler = none };
      handler = detached_from fd h;
      result = ok tt;
    }
  ]
]

-- `accept`, with what `bio_->accept` gives, and `abort`.
unfoldable pub accept : Listener → Result ℕ → Result ℕ
accept l accepted = elim l.bio [ none ↦ throw unusable_listener | some fd ↦ accepted ]

unfoldable pub abort : Listener → Result (Unit {0})
abort l = elim l.bio [ none ↦ throw unusable_listener | some fd ↦ ok tt ]

-- `onNewConnection_`: the handler that is called and its connection, if there is one.
unfoldable pub on_new_connection : Listener → Result ℕ → Option (ℕ × Result ℕ)
unfolding accept
on_new_connection l accepted = elim l.new_connection_handler [
  | none ↦ none
  | some handler ↦ some (handler, accept l accepted)
]
