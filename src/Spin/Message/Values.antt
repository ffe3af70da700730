-- ===== src/Spin/Message/Values.antt =====
-- What getHeaderValue makes of several header fields with one name.
use arachnida.Base.{
  false, [], ◌∷◌, ◌++◌, append_assoc, append-nil, Bytes, ◌≡◌, sym, ◌∙◌, str_eq, Bool-cases, inl,
  inr, if◌then◌else◌,
}
use arachnida.Spin.Message.{HeaderFields, Request, collect_values, get_header_value}

-- The values of the fields that have the name, one behind the other.
abbrev pub values_of : Bytes → HeaderFields → Bytes
values_of header_name [] = []
values_of header_name (h ∷ hs) =
    if str_eq h.name header_name
    then h.value ++ values_of header_name hs
    else values_of header_name hs

collect_values-values_of :
    (header_name retval : Bytes) (hs : HeaderFields)
    → collect_values false header_name retval hs ≡ retval ++ values_of header_name hs
unfolding collect_values
collect_values-values_of header_name retval [] = sym (append-nil retval)
collect_values-values_of header_name retval (h ∷ hs) =
    elim (Bool-cases (str_eq h.name header_name)) [
      | inl same ↦ rw same (
          collect_values-values_of header_name (retval ++ h.value) hs
          ∙ append_assoc retval h.value (values_of header_name hs))
      | inr other ↦ rw other (collect_values-values_of header_name retval hs)
    ]

-- `getHeaderValue` gives the values of all fields of that name in the order of the fields, with
-- nothing between them: no comma separates them.
pub get_header_value_lem :
    (r : Request) (header_name : Bytes)
    → get_header_value r header_name ≡ values_of header_name r.header_fields
unfolding get_header_value
get_header_value_lem r header_name = collect_values-values_of header_name [] r.header_fields
