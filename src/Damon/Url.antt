-- ===== src/Damon/Url.antt =====
-- lib/Damon/Private/parseURL.cpp. The regular expressions are matched by boost: the matchers and
-- `lexical_cast< uint16_t >` are parameters.
use arachnida.Base.{
  ℕ, not, [], Option, none, some, Bytes, codes, str_eq, ◌||◌, if◌then◌else◌, Result, ok, throw,
  ◌>>=◌, require, bad_lexical_cast, runtime_error,
}

-- The capturing groups of the expression of `parseURL`, by their names there.
pub record UrlMatch : Type 0 where
  pub protocol : Option Bytes
  pub username : Option Bytes
  pub password : Option Bytes
  pub host : Bytes
  pub port : Option Bytes
  pub path : Option Bytes

pub record ParsedUrl : Type 0 where
  pub protocol : Bytes
  pub server : Bytes
  pub port : ℕ
  pub resource : Bytes
  pub username : Bytes
  pub password : Bytes

-- A group that did not match is an empty string.
abbrev pub group_or : Bytes → Option Bytes → Bytes
group_or default none = default
group_or default (some s) = s

unfoldable pub path_or_root : Option Bytes → Bytes
path_or_root none = codes "/"
path_or_root (some []) = codes "/"
path_or_root (some path) = path

module _ (lexical_cast : Bytes → Option ℕ) where
  unfoldable pub port_of : Bytes → Option Bytes → Result ℕ
  unfolding str_eq
  port_of protocol none = ok (if str_eq protocol (codes "http") then 80 else 443)
  port_of protocol (some digits) = require bad_lexical_cast (lexical_cast digits)

  unfoldable pub parse_match : UrlMatch → Result ParsedUrl
  unfolding port_of path_or_root
  parse_match mr =
      let protocol = group_or (codes "http") mr.protocol in
      if not (str_eq protocol (codes "http") || str_eq protocol (codes "https"))
      then throw runtime_error
      else do
        port ← port_of protocol mr.port
        ok (record {
          protocol = protocol;
          server = mr.host;
          port = port;
          resource = path_or_root mr.path;
          username = group_or [] mr.username;
          password = group_or [] mr.password;
        })

  module _ (regex_match : Bytes → Option UrlMatch) where
    unfoldable pub parse_url : Bytes → Result ParsedUrl
    unfolding parse_match
    parse_url url = do mr ← require runtime_error (regex_match url); parse_match mr

-- `host_match` gives the fourth group of the expression of `extractHost`.
unfoldable pub extract_host : (Bytes → Option Bytes) → Bytes → Bytes
extract_host host_match url = group_or [] (host_match url)
