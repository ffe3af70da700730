-- ===== src/Acari/Tests.antt =====
-- Runs of lib/Acari at concrete inputs, and its theorems at inputs that meet their hypotheses.
use mathlib.Core.List.{reverse}
use arachnida.Base.{
  ℕ, ◌<◌, Bool, true, false, List, [], ◌∷◌, ◌++◌, some, Bytes, codes, All, IsByte, ◌≡◌, refl, arith,
  ok, throw, bad_alloc, ◌⊎◌, ◌≤◌, ◌%◌, ◌≢◌,
}
use arachnida.Base.Check.{all_hold, all_hold_sound}
use arachnida.Acari.Attributes.{
  max_attribute_count, counter_mod, allocate_attribute, allocated, get_attribute, set_attribute,
}
use arachnida.Acari.Attributes.Allocation.{allocate_attribute_lem, get_attribute-set_attribute}
use arachnida.Acari.Base64.{base64_length, base64encode, base64decode, encode, decode}
use arachnida.Acari.Base64.Groups.{encode_groups}
use arachnida.Acari.Base64.Encoding.{encode-encode_groups}
use arachnida.Acari.Base64.RoundTrip.{base64decode-base64encode}
use arachnida.Acari.UrlCoding.{urlencode, urldecode}
use arachnida.Acari.UrlCoding.RoundTrip.{urldecode-urlencode, IsEncoded, urlencode-IsEncoded}
use arachnida.Acari.ParsingHelpers.{
  is_ignorable_white_space, is_new_line, at_end, is_word, is_in_line, is_supported_protocol,
  find_header_end, split_header, extract_request_header, chomp, drop_while, before_colon,
}
use arachnida.Acari.ParsingHelpers.Spans.{Holds}
use arachnida.Acari.ParsingHelpers.HeaderEnd.{find_header_end_splits, find_header_end_line}
use arachnida.Acari.ParsingHelpers.HeaderLine.{header_line, split_header-header_line}
use arachnida.Acari.ParsingHelpers.RequestLine.{Follows, extract_request_header-line}

abbrev text : Bytes
text = codes "a b/"

text-IsByte : All IsByte text
text-IsByte = (omega arith, (omega arith, (omega arith, (omega arith, tt))))

base64_run : base64encode text ≡ codes "YSBiLw=="
unfolding base64encode
base64_run = refl

base64_run_back : base64decode (codes "YSBiLw") ≡ text
unfolding base64decode
base64_run_back = refl

urlencode_run : urlencode text false ≡ codes "a%20b%2f"
unfolding urlencode
urlencode_run = refl

urldecode_run : urldecode (codes "%4g%2F%") ≡ codes "%4g/%"
unfolding urldecode
urldecode_run = refl

base64decode-base64encode_example :
    (t : Bytes) × (encode text ≡ some t)
    × (base64encode text ≡ t)
    × (decode t ≡ some text)
    × (base64decode (base64encode text) ≡ text)
base64decode-base64encode_example = base64decode-base64encode text text-IsByte (omega arith)

encode-encode_groups_example : encode text ≡ some (encode_groups text)
unfolding base64_length
encode-encode_groups_example = encode-encode_groups text (omega arith) (omega arith)

urldecode-urlencode_example : urldecode (urlencode text true) ≡ text
urldecode-urlencode_example = urldecode-urlencode text true text-IsByte

urlencode-IsEncoded_run : All (IsEncoded false) (urlencode text false)
urlencode-IsEncoded_run = urlencode-IsEncoded text false text-IsByte

abbrev folded : Bytes
folded = codes "A: b\r\n c\r\nD: e"

folded_run : reverse (find_header_end folded).0 ≡ codes "A: b\r\n c"
unfolding find_header_end
folded_run = refl

find_header_end_splits_run :
    reverse (find_header_end folded).0 ++ (find_header_end folded).1 ≡ folded
find_header_end_splits_run = find_header_end_splits folded

line-Holds : Holds is_in_line (codes "A: b")
unfolding is_new_line all_hold
line-Holds = all_hold_sound is_in_line (codes "A: b") refl

crlf-Holds : Holds is_new_line (13 ∷ 10 ∷ [])
unfolding is_new_line all_hold
crlf-Holds = all_hold_sound is_new_line (13 ∷ 10 ∷ []) refl

next_word : is_word b'D' ≡ true
unfolding is_ignorable_white_space
next_word = refl

find_header_end_line_run :
    find_header_end (codes "A: b" ++ ((13 ∷ 10 ∷ []) ++ codes "D: e"))
    ≡ (reverse (codes "A: b"), (13 ∷ 10 ∷ []) ++ codes "D: e")
find_header_end_line_run =
    find_header_end_line (codes "A: b") (13 ∷ 10 ∷ []) (codes "D: e") line-Holds (λ h. cc)
      crlf-Holds (λ h. cc) next_word

name_words : Holds is_word (codes "Host")
unfolding is_ignorable_white_space all_hold
name_words = all_hold_sound is_word (codes "Host") refl

name_no_colon : Holds before_colon (codes "Host")
unfolding all_hold
name_no_colon = all_hold_sound before_colon (codes "Host") refl

host_trimmed : chomp (codes "x y") ≡ codes "x y"
unfolding chomp drop_while
host_trimmed = refl

split_header_run :
    split_header (header_line (codes "Host") (codes "x y")) ≡ ok (codes "Host", codes "x y")
split_header_run =
    split_header-header_line (codes "Host") (codes "x y")
      (record { ne_nil = λ h. cc; words = name_words; no_colon = name_no_colon }) host_trimmed

abbrev triple : Bytes → Bytes → Bytes → Bytes × (Bytes × Bytes)
triple method url protocol = (method, (url, protocol))

abbrev any_method : Bytes → Bool
any_method m = true

method_words : Holds is_word (codes "GET")
unfolding is_ignorable_white_space all_hold
method_words = all_hold_sound is_word (codes "GET") refl

url_words : Holds is_word (codes "/a")
unfolding is_ignorable_white_space all_hold
url_words = all_hold_sound is_word (codes "/a") refl

protocol_words : Holds is_word (codes "HTTP/1.1")
unfolding is_ignorable_white_space all_hold
protocol_words = all_hold_sound is_word (codes "HTTP/1.1") refl

line-Follows : Follows (codes "\r\n")
unfolding is_ignorable_white_space at_end
line-Follows = record { space = refl; more = refl }

protocol_supported : is_supported_protocol (codes "HTTP/1.1") ≡ true
unfolding is_supported_protocol
protocol_supported = refl

extract_request_header_run :
    extract_request_header triple any_method
      (codes "GET" ++ (b' ' ∷ (codes "/a" ++ (b' ' ∷ (codes "HTTP/1.1" ++ codes "\r\n")))))
    ≡ ok (some (triple (codes "GET") (codes "/a") (codes "HTTP/1.1"), codes "\r\n"))
extract_request_header_run =
    extract_request_header-line triple any_method (codes "GET") (codes "/a") (codes "HTTP/1.1")
      (codes "\r\n") (record { ne_nil = λ h. cc; words = method_words })
      (record { ne_nil = λ h. cc; words = url_words })
      (record { ne_nil = λ h. cc; words = protocol_words }) line-Follows refl protocol_supported

allocate_attribute_lem_example :
    ((9 % counter_mod < max_attribute_count)
      × ((allocate_attribute (allocated 9)).1 ≡ ok (9 % counter_mod)))
    ⊎ ((max_attribute_count ≤ 9 % counter_mod)
        × ((allocate_attribute (allocated 9)).1 ≡ throw bad_alloc))
allocate_attribute_lem_example = allocate_attribute_lem 9

abbrev two_attributes : List Bytes
two_attributes = codes "a" ∷ codes "b" ∷ []

get_attribute_run :
    (get_attribute (codes "") (set_attribute two_attributes 1 text) 1 ≡ text)
    × (◌≢◌ {A = ℕ} 0 1
        → get_attribute (codes "") (set_attribute two_attributes 1 text) 0
          ≡ get_attribute (codes "") two_attributes 0)
get_attribute_run = get_attribute-set_attribute (codes "") two_attributes 1 0 text (omega arith)
