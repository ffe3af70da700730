-- ===== src/Spin/Response.antt =====
-- lib/Spin/Details/Response.h and Response.cpp. A null entry of the table of reason strings is
-- `none`; a `std::string` made of it is a read through a null pointer. `to_text` prints a number:
-- boost's format of the status code, and `lexical_cast< std::string >` of the body's size.
pub mod StatusLine
pub mod Codes
use arachnida.Base.{
  ℕ, Bool, true, false, List, [], ◌∷◌, ◌++◌, Option, none, some, Bytes, codes, length, get_or,
  replicate, if◌then◌else◌, str_eq, Result, throw, ◌>>=◌, require, null_dereference,
}
use arachnida.Spin.Message.{Header, HeaderFields}

pub data StatusCode : Type 0 where
  continue switching_protocols ok created : StatusCode
  accepted non_authoritive_information no_content reset_content : StatusCode
  partial_content multiple_choices moved_permanently found : StatusCode
  see_other not_modified use_proxy temporary_redirect : StatusCode
  bad_request unauthorized payment_required forbidden : StatusCode
  not_found method_not_allowed not_acceptable proxy_authentication_required : StatusCode
  request_time_out conflict gone length_required : StatusCode
  precondition_failed request_entity_too_large request_uri_too_large unsupported_media_type :
      StatusCode
  requested_change_not_satisfiable expectation_failed internal_server_error not_implemented :
      StatusCode
  bad_gateway service_unavailable gateway_time_out http_version_not_supported : StatusCode

-- The value of an enumerator.
unfoldable pub to_number : StatusCode → ℕ
to_number continue = 100
to_number switching_protocols = 101
to_number ok = 200
to_number created = 201
to_number accepted = 202
to_number non_authoritive_information = 203
to_number no_content = 204
to_number reset_content = 205
to_number partial_content = 206
to_number multiple_choices = 300
to_number moved_permanently = 301
to_number found = 302
to_number see_other = 303
to_number not_modified = 304
to_number use_proxy = 305
to_number temporary_redirect = 307
to_number bad_request = 400
to_number unauthorized = 401
to_number payment_required = 402
to_number forbidden = 403
to_number not_found = 404
to_number method_not_allowed = 405
to_number not_acceptable = 406
to_number proxy_authentication_required = 407
to_number request_time_out = 408
to_number conflict = 409
to_number gone = 410
to_number length_required = 411
to_number precondition_failed = 412
to_number request_entity_too_large = 413
to_number request_uri_too_large = 414
to_number unsupported_media_type = 415
to_number requested_change_not_satisfiable = 416
to_number expectation_failed = 417
to_number internal_server_error = 500
to_number not_implemented = 501
to_number bad_gateway = 502
to_number service_unavailable = 503
to_number gateway_time_out = 504
to_number http_version_not_supported = 505

-- The strings of a run of entries.
abbrev reasons : List Bytes → List (Option Bytes)
reasons [] = []
reasons (s ∷ ss) = some s ∷ reasons ss

abbrev blank : ℕ → List (Option Bytes)
blank n = replicate n none

-- The table as the source lays it out: runs of null entries, and runs of strings.
unfoldable pub reason_strings : List (Option Bytes)
reason_strings =
    blank 100
    ++ (reasons (codes "Continue" ∷ codes "Switching Protocols" ∷ [])
        ++ (blank 98
            ++ (reasons (
                  codes "OK"
                  ∷ codes "Created"
                  ∷ codes "Accepted"
                  ∷ codes "Non-Authoritative Information"
                  ∷ codes "No Content"
                  ∷ codes "Reset Content"
                  ∷ codes "Partial Content"
                  ∷ [])
                ++ (blank 93
                    ++ (reasons (
                          codes "Multiple Choices"
                          ∷ codes "Moved Permanently"
                          ∷ codes "Found"
                          ∷ codes "See Other"
                          ∷ codes "Not Modified"
                          ∷ codes "Use Proxy"
                          ∷ codes "Temporary Redirect"
                          ∷ [])
                        ++ (blank 93
                            ++ (reasons (
                                  codes "Bad Request"
                                  ∷ codes "Unauthorized"
                                  ∷ codes "Payment Required"
                                  ∷ codes "Forbidden"
                                  ∷ codes "Not Found"
                                  ∷ codes "Method Not Allowed"
                                  ∷ codes "Not Acceptable"
                                  ∷ codes "Proxy Authentication Required"
                                  ∷ codes "Request Time-out"
                                  ∷ codes "Conflict"
                                  ∷ codes "Gone"
                                  ∷ codes "Length Required"
                                  ∷ codes "Precondition Failed"
                                  ∷ codes "Request Entity Too Large"
                                  ∷ codes "Request-URI Too Large"
                                  ∷ codes "Unsupported Media Type"
                                  ∷ codes "Requested range not satisfiable"
                                  ∷ codes "Expectation Failed"
                                  ∷ [])
                                ++ (blank 82
                                    ++ (reasons (
                                        codes "Internal Server Error"
                                        ∷ codes "Not Implemented"
                                        ∷ codes "Bad Gateway"
                                        ∷ codes "Service Unavailable"
                                        ∷ codes "Gateway Time-out"
                                        ∷ codes "HTTP Version not supported"
                                        ∷ []))))))))))

unfoldable pub reason_string_of : ℕ → Option Bytes
unfolding reason_strings
reason_string_of status_code = get_or reason_strings status_code none

pub record Response : Type 0 where
  pub protocol_and_version : Bytes
  pub status_code : ℕ
  pub reason_string : Bytes
  pub header_fields : HeaderFields
  pub body : Bytes

-- The constructor from a status code with its own reason string.
abbrev pub make_response_with : Bytes → ℕ → Bytes → Response
make_response_with protocol_and_version status_code reason_string = record {
  protocol_and_version = protocol_and_version;
  status_code = status_code;
  reason_string = reason_string;
  header_fields = [];
  body = [];
}

-- The constructor from an enumerator.
unfoldable pub make_response : Bytes → StatusCode → Result Response
unfolding to_number reason_string_of
make_response protocol_and_version status_code = do
  reason ← require null_dereference (reason_string_of (to_number status_code))
  Result.ok (make_response_with protocol_and_version (to_number status_code) reason)

unfoldable pub add_header : Response → Bytes → Bytes → Response
add_header r name value = record r {
  header_fields = r.header_fields ++ (record { name = name; value = value } ∷ []);
}

unfoldable pub set_body : Response → Bytes → Response
set_body r body = record r { body = body }

unfoldable pub has_header : Bytes → HeaderFields → Bool
unfolding str_eq
has_header name [] = false
has_header name (h ∷ hs) = if str_eq h.name name then true else has_header name hs

-- `HeaderAppender` on each header field.
unfoldable pub append_headers : Bytes → HeaderFields → Bytes
append_headers headers [] = headers
append_headers headers (h ∷ hs) =
    append_headers (headers ++ (h.name ++ (codes ": " ++ (h.value ++ codes "\r\n")))) hs

module _ (to_text : ℕ → Bytes) where
  unfoldable pub complete_fields : Response → HeaderFields
  unfolding has_header
  complete_fields response =
      if has_header (codes "Content-Length") response.header_fields
      then response.header_fields
      else response.header_fields
        ++ (record { name = codes "Content-Length"; value = to_text (length response.body) } ∷ [])

  unfoldable pub serialize : Response → Bytes
  unfolding complete_fields append_headers
  serialize response =
      let line =
        response.protocol_and_version
        ++ (codes " "
            ++ (to_text response.status_code
                ++ (codes " " ++ (response.reason_string ++ codes "\r\n")))) in
      (append_headers line (complete_fields response) ++ codes "\r\n") ++ response.body
