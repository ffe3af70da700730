-- ===== src/Damon/Serialize.antt =====
-- `serialize(Request)` of lib/Damon/Request.cpp.
pub mod RoundTrip
use arachnida.Base.{
  ℕ, Bool, true, false, not, List, [], ◌∷◌, ◌++◌, Option, none, some, Bytes, codes, length, ◌&&◌,
  if◌then◌else◌, str_eq, Result, ok, throw, ◌>>=◌,
}
use arachnida.Acari.ParsingHelpers.{at_end}
use arachnida.Damon.Message.{
  Header, HeaderFields, create_basic_authorization_header, Method, options, get, head, post, put,
  delete, trace, connect, AuthorizationMethod, no_authorization, basic, Request,
}
use arachnida.Damon.Url.{UrlMatch, ParsedUrl, parse_url, extract_host}

-- The switch; every enumerator has a case, so its default is not reached.
unfoldable pub method_name : Method → Bytes
method_name options = codes "OPTIONS"
method_name get = codes "GET"
method_name head = codes "HEAD"
method_name post = codes "POST"
method_name put = codes "PUT"
method_name delete = codes "DELETE"
method_name trace = codes "TRACE"
method_name connect = codes "CONNECT"

unfoldable pub has_header : Bytes → HeaderFields → Bool
unfolding str_eq
has_header name [] = false
has_header name (h ∷ hs) = if str_eq h.name name then true else has_header name hs

unfoldable pub add_if_missing : Bytes → Bytes → HeaderFields → HeaderFields
unfolding has_header
add_if_missing name value hs =
    if has_header name hs then hs else hs ++ (record { name = name; value = value } ∷ [])

abbrev pub is_basic : AuthorizationMethod → Bool
is_basic basic = true
is_basic no_authorization = false

unfoldable pub add_authorization : AuthorizationMethod → ParsedUrl → HeaderFields → HeaderFields
unfolding create_basic_authorization_header at_end
add_authorization auth_method u hs =
    if is_basic auth_method && not (at_end u.username)
    then hs ++ (create_basic_authorization_header u.username u.password ∷ [])
    else hs

-- `AppendHeader` on each header field.
unfoldable pub append_headers : Bytes → HeaderFields → Bytes
append_headers retval [] = retval
append_headers retval (h ∷ hs) =
    append_headers (retval ++ (h.name ++ (codes ": " ++ (h.value ++ codes "\r\n")))) hs

-- `to_text` is `lexical_cast< std::string >` of a size.
module _ (lexical_cast : Bytes → Option ℕ) (regex_match : Bytes → Option UrlMatch)
    (host_match : Bytes → Option Bytes) (to_text : ℕ → Bytes) where
  -- The header fields that are sent.
  unfoldable pub complete_fields : Request → ParsedUrl → HeaderFields
  unfolding add_if_missing add_authorization extract_host
  complete_fields request u =
      let hosted =
        add_if_missing (codes "Host") (extract_host host_match request.url) request.header_fields in
      let sized = add_if_missing (codes "Content-Length") (to_text (length request.body)) hosted in
      add_authorization request.auth_method u sized

  unfoldable pub serialize : Request → Result Bytes
  unfolding parse_url method_name complete_fields append_headers
  serialize request = do
    u ← parse_url lexical_cast regex_match request.url
    let line = (method_name request.method ++ codes " ") ++ (u.resource ++ codes " HTTP/1.1\r\n")
    ok ((append_headers line (complete_fields request u) ++ codes "\r\n") ++ request.body)
