-- ===== src/Damon/Tests.antt =====
-- Runs of lib/Damon at concrete inputs, and its theorems at inputs that meet their hypotheses.
pub mod Reception
mod StatusLines
mod Sending
mod Pipelining
use mathlib.Core.List.{map}
use arachnida.Base.{
  true, false, [], ◌∷◌, Option, none, some, Bytes, codes, All, ◌≡◌, ◌⊎◌, ◌≢◌, refl, ok,
}
use arachnida.Base.Check.{all_hold, all_hold_sound}
use arachnida.Acari.ParsingHelpers.{
  is_ignorable_white_space, is_new_line, is_word, is_in_line, before_colon, chomp, drop_while,
}
use arachnida.Acari.ParsingHelpers.RequestLine.{IsWord}
use arachnida.Acari.Base64.{base64encode}
use arachnida.Damon.Message.{post, basic, Request}
use arachnida.Damon.Url.{UrlMatch, ParsedUrl, parse_url}
use arachnida.Damon.Serialize.{has_header, complete_fields, serialize}
use arachnida.Damon.Serialize.RoundTrip.{to_spin, received, sent, on_data_ready-serialize}
use arachnida.Damon.Session.{Cached, ConnectionCache, find_cached, get_connection}
use arachnida.Damon.Session.Cache.{IsCached, get_connection-IsCached, get_connection_first}
use arachnida.Spin.DataHandler.{finished, on_data_ready}
use arachnida.Spin.DataHandler.Fields.{IsField}
use arachnida.Spin.Tests.Decimal.{read_decimal, three_digits}

-- The matches of the expressions at `http://u:p@h/a`.
abbrev pub whole_match : Bytes → Option UrlMatch
whole_match url = some (record {
  protocol = some (codes "http");
  username = some (codes "u");
  password = some (codes "p");
  host = codes "h";
  port = none;
  path = some (codes "/a");
})

abbrev pub host_match : Bytes → Option Bytes
host_match url = some (codes "h")

abbrev pub posted : Request
posted = record {
  url = codes "http://u:p@h/a";
  method = post;
  auth_method = basic;
  header_fields = [];
  body = codes "hi";
}

abbrev pub parsed : ParsedUrl
parsed = record {
  protocol = codes "http";
  server = codes "h";
  port = 80;
  resource = codes "/a";
  username = codes "u";
  password = codes "p";
}

pub parse_url_run : parse_url read_decimal whole_match posted.url ≡ ok parsed
unfolding parse_url
parse_url_run = refl

serialize_run :
    serialize read_decimal whole_match host_match three_digits posted
    ≡ ok (
        codes
          "POST /a HTTP/1.1\r\nHost: h\r\nContent-Length: 002\r\nAuthorization: Basic dTpw\r\n\r\nhi")
unfolding serialize base64encode
serialize_run = refl

pub resource_a : IsWord (codes "/a")
unfolding is_ignorable_white_space all_hold
resource_a = record { ne_nil = λ h. cc; words = all_hold_sound is_word (codes "/a") refl }

pub IsField-of :
    (name value : Bytes)
    → name ≢ []
    → all_hold is_word name ≡ true
    → all_hold before_colon name ≡ true
    → all_hold is_in_line value ≡ true
    → chomp value ≡ value
    → IsField (record { name = name; value = value })
IsField-of name value ne words no_colon in_line trimmed = (
  record {
    ne_nil = ne;
    words = all_hold_sound is_word name words;
    no_colon = all_hold_sound before_colon name no_colon;
  },
  record { in_line = all_hold_sound is_in_line value in_line; trimmed = trimmed },
)

pub sent-IsField :
    All IsField (map to_spin (sent read_decimal whole_match host_match three_digits posted parsed))
unfolding complete_fields is_ignorable_white_space is_new_line all_hold chomp drop_while
    base64encode
sent-IsField = (
  IsField-of (codes "Host") (codes "h") (λ h. cc) refl refl refl refl,
  (
    IsField-of (codes "Content-Length") (codes "002") (λ h. cc) refl refl refl refl,
    (IsField-of (codes "Authorization") (codes "Basic dTpw") (λ h. cc) refl refl refl refl, tt),
  ),
)

pub body_starts : is_ignorable_white_space b'h' ≡ false
unfolding is_ignorable_white_space
body_starts = refl

on_data_ready-serialize_example :
    (text : Bytes) × (serialize read_decimal whole_match host_match three_digits posted ≡ ok text)
    × (on_data_ready read_decimal 7 none text
        ≡ finished (
            received 7 posted parsed
              (sent read_decimal whole_match host_match three_digits posted parsed)
            ∷ []))
on_data_ready-serialize_example =
    on_data_ready-serialize read_decimal whole_match host_match three_digits read_decimal 7 posted
      parsed parse_url_run resource_a (unfold has_header in refl) sent-IsField refl body_starts

abbrev closed : Cached
closed = record { connection = 1; usable = false }

abbrev opened : Cached
opened = record { connection = 2; usable = true }

abbrev cache_before : ConnectionCache
cache_before = (codes "h:80", closed) ∷ (codes "g:80", opened) ∷ []

abbrev cache_after : ConnectionCache
cache_after = (codes "h:80", opened) ∷ (codes "g:80", opened) ∷ []

get_connection_run :
    get_connection (ok opened ∷ []) (codes "h:80") cache_before ≡ some (cache_after, ok opened)
unfolding get_connection
get_connection_run = refl

get_connection-IsCached_example : IsCached (codes "h:80") cache_before cache_after opened
get_connection-IsCached_example =
    get_connection-IsCached (ok opened ∷ []) (codes "h:80") cache_before cache_after opened
      get_connection_run

get_connection_first_run :
    (c : Cached) × (after : ConnectionCache) × (get_connection
        (ok opened ∷ [])
        (codes "h:80")
        cache_before
      ≡ some (after, ok c))
    × ((find_cached (codes "h:80") cache_before ≡ some c) ⊎ (c ≡ opened))
get_connection_first_run = get_connection_first [] (codes "h:80") cache_before opened refl
