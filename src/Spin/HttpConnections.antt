-- ===== src/Spin/HttpConnections.antt =====
-- lib/Spin/Handlers/HTTPConnectionHandler.cpp. A connection in the list is known by a number, which is
-- also that of the call-back that `ErrorHandler` makes for it.
pub mod Kept
use arachnida.Base.{
  ℕ, Bool, not, true, List, [], ◌∷◌, ◌++◌, Option, some, none, Result, ok, throw, ◌==◌,
  if◌then◌else◌,
}
use arachnida.Spin.Address.{Address}
use arachnida.Spin.Connection.{Connection, ask_if_usable, set_new_data_handler, Registration}

-- `validate`, where it is not overridden
abbrev pub validate_any : Address → Bool
validate_any peer_address = true

-- `ErrorHandler::operator()`: the first entry that is this connection is erased.
unfoldable pub on_connection_error : ℕ → List ℕ → List ℕ
on_connection_error k [] = []
on_connection_error k (c ∷ connections) =
    let rest = on_connection_error k connections in if c == k then connections else c ∷ rest

-- What a call leaves, with the registration of the connection's descriptor.
pub record Handled : Type 0 where
  pub connections : List ℕ
  pub connection : Connection
  pub registration : Option Registration
  pub result : Result (Unit {0})

module _ (validate : Address → Bool) (data_handler : ℕ) where
  unfoldable pub attach_handler : ℕ → Connection → List ℕ → Handled
  unfolding set_new_data_handler
  attach_handler k connection connections =
      let (c, answer) = set_new_data_handler connection data_handler (some k) in
      elim answer [
        | throw e ↦ record {
          connections = connections;
          connection = c;
          registration = none;
          result = throw e;
        }
        | ok r ↦ record {
          connections = connections ++ (k ∷ []);
          connection = c;
          registration = some r;
          result = ok tt;
        }
      ]

  -- `peer` is what `getpeername` gives.
  unfoldable pub handle_new_connection : ℕ → Connection → Address → List ℕ → Handled
  unfolding attach_handler ask_if_usable
  handle_new_connection k connection peer connections = elim (ask_if_usable connection peer) [
    | throw e ↦ record {
      connections = connections;
      connection = connection;
      registration = none;
      result = throw e;
    }
    | ok peer_address ↦
        if not (validate peer_address)
        then record {
          connections = connections;
          connection = connection;
          registration = none;
          result = ok tt;
        }
        else attach_handler k connection connections
  ]
