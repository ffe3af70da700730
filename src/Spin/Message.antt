-- ===== src/Spin/Message.antt =====
-- lib/Spin/Details/Header.h and lib/Spin/Details/Request.h, Request.cpp.
pub mod Values
use arachnida.Base.{ℕ, List, [], ◌∷◌, ◌++◌, Bool, true, false, Bytes, str_eq, codes, if◌then◌else◌}

-- `name_` and `value_`
pub record Header : Type 0 where
  pub name : Bytes
  pub value : Bytes

abbrev pub HeaderFields : Type 0
HeaderFields = List Header

-- `connection` tells the connections apart: the weak pointer of the source.
pub record Request : Type 0 where
  pub connection : ℕ
  pub method : Bytes
  pub url : Bytes
  pub protocol_and_version : Bytes
  pub header_fields : HeaderFields
  pub body : Bytes

-- The constructor.
abbrev pub make_request : ℕ → Bytes → Bytes → Bytes → Request
make_request connection method url protocol_and_version = record {
  connection = connection;
  method = method;
  url = url;
  protocol_and_version = protocol_and_version;
  header_fields = [];
  body = [];
}

-- The loop of `getHeaderValue`; `found_one` is never set in the source.
unfoldable pub collect_values : Bool → Bytes → Bytes → HeaderFields → Bytes
unfolding str_eq
collect_values found_one header_name retval [] = retval
collect_values found_one header_name retval (h ∷ hs) =
    collect_values found_one header_name
      (if str_eq h.name header_name
        then retval ++ ((if found_one then codes "," else []) ++ h.value)
        else retval)
      hs

unfoldable pub get_header_value : Request → Bytes → Bytes
unfolding collect_values
get_header_value r header_name = collect_values false header_name [] r.header_fields
