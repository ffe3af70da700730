-- ===== src/Damon/Message.antt =====
-- lib/Damon/Details/Header.h and Header.cpp, lib/Damon/Request.h and lib/Damon/Response.h.
use arachnida.Base.{ℕ, List, [], ◌∷◌, ◌++◌, Bytes, codes}
use arachnida.Acari.Base64.{base64encode}

pub record Header : Type 0 where
  pub name : Bytes
  pub value : Bytes

abbrev pub HeaderFields : Type 0
HeaderFields = List Header

unfoldable pub create_basic_authorization_header : Bytes → Bytes → Header
create_basic_authorization_header username password = record {
  name = codes "Authorization";
  value = codes "Basic " ++ base64encode (username ++ (b':' ∷ password));
}

pub data Method : Type 0 where
  options get head post put delete trace connect : Method

pub data AuthorizationMethod : Type 0 where
  no_authorization basic : AuthorizationMethod

pub record Request : Type 0 where
  pub url : Bytes
  pub method : Method
  pub auth_method : AuthorizationMethod
  pub header_fields : HeaderFields
  pub body : Bytes

-- The constructor.
abbrev pub make_request : Bytes → Method → AuthorizationMethod → Request
make_request url method auth_method = record {
  url = url;
  method = method;
  auth_method = auth_method;
  header_fields = [];
  body = [];
}

unfoldable pub add_header : Request → Bytes → Bytes → Request
add_header r name value = record r {
  header_fields = r.header_fields ++ (record { name = name; value = value } ∷ []);
}

unfoldable pub set_body : Request → Bytes → Request
set_body r body = record r { body = body }

pub record Response : Type 0 where
  pub protocol_and_version : Bytes
  pub status_code : ℕ
  pub reason_string : Bytes
  pub header_fields : HeaderFields
  pub body : Bytes
