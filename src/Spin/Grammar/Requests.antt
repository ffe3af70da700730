-- ===== src/Spin/Grammar/Requests.antt =====
-- The grammar's rule for requests beside the text that the server's data handler reads.
pub mod Whole
use arachnida.Base.{
  ℕ, zero, suc, Bool, true, false, ◌||◌, List, ◌∷◌, [], ◌++◌, append-nil, append_assoc, Option,
  none, some, Bytes, codes, ◌==◌, All, IsByte, ◌≡◌, refl, sym, ap, ◌∙◌, arith, ◌⊎◌, inl, inr,
  Bool-cases, str_eq, within,
}
use mathlib.Core.Path.{subst}
use arachnida.Base.Check.{all_hold, all_hold_sound}
use arachnida.Acari.ParsingHelpers.{is_supported_protocol}
use arachnida.Spin.DataHandler.{supported_methods, contains, is_supported_method}
use arachnida.Spin.DataHandler.Words.{contains-All}
use arachnida.Spin.Grammar.{Parser, str_p, ch_p, ◌>>◌, ◌<|>◌, kleene, positive, optional}
use arachnida.Spin.Grammar.Basic.{digit, sp, crlf, octet, http_version}
use arachnida.Spin.Grammar.Uri.{
  pchar, param, segment, path_segments, abs_path, absoluteuri, authority,
}
use arachnida.Spin.Grammar.Entities.{method}
use arachnida.Spin.Grammar.Messages.{request_uri, request_line, message_body, request}
use arachnida.Spin.Grammar.Spirit.{Outcome, miss, hit, IsSpirit}
use arachnida.Spin.Grammar.Interpreter.{run}
use arachnida.Spin.Grammar.Sound.{run_sound}
use arachnida.Spin.Grammar.Chars.{takes, takes-hit, takes-miss, kleene-takes, positive-takes}

-- What a segment of a path may hold without an escape, as the HTTP and URI specifications list it.
abbrev pub path_characters : Bytes
path_characters =
    codes "ABCDEFGHIJKLMNOPQRSTUVWXYZabcdefghijklmnopqrstuvwxyz0123456789-_.!~*'():@&=+$,"

unfoldable pub occurs : ℕ → Bytes → Bool
occurs c [] = false
occurs c (x ∷ s) = x == c || occurs c s

abbrev pub IsSegment : Bytes → Type 0
IsSegment = All (λ c. occurs c path_characters ≡ true)

-- `/` before each segment, and `rest` behind the last one.
abbrev pub path_text : List Bytes → Bytes → Bytes
path_text [] rest = rest
path_text (s ∷ ss) rest = b'/' ∷ (s ++ path_text ss rest)

pub path_text-append : (ss : List Bytes) (a b : Bytes) → path_text ss a ++ b ≡ path_text ss (a ++ b)
path_text-append [] a b = refl
path_text-append (s ∷ ss) a b =
    ap (λ t. b'/' ∷ t)
      (append_assoc s (path_text ss a) b ∙ ap (λ t. s ++ t) (path_text-append ss a b))

abbrev is_hit : Option Bool → Bool
is_hit none = false
is_hit (some b) = b

is_hit-eq : (o : Option Bool) → is_hit o ≡ true → o ≡ some true
is_hit-eq none e = cc
is_hit-eq (some b) e = ap some e

occurs-All : (P : ℕ → Type 0) (c : ℕ) (s : Bytes) → All P s → occurs c s ≡ true → P c
unfolding occurs
occurs-All P c [] h e = cc
occurs-All P c (x ∷ s) (h, hs) e = elim (Bool-cases (x == c)) [
  | inl t ↦ subst P (ground arith) h
  | inr f ↦ occurs-All P c s hs (rw f at e)
]

pchar-path_characters : All (λ c. is_hit (takes pchar c) ≡ true) path_characters
unfolding takes pchar all_hold
pchar-path_characters = all_hold_sound (λ c. is_hit (takes pchar c)) path_characters refl

IsSegment-takes : (s : Bytes) → IsSegment s → All (λ c. takes pchar c ≡ some true) s
IsSegment-takes [] h = tt
IsSegment-takes (c ∷ s) (h, hs) = (
  is_hit-eq (takes pchar c)
      (occurs-All (λ c. is_hit (takes pchar c) ≡ true) c path_characters pchar-path_characters h),
  IsSegment-takes s hs,
)

module _ {Parses : Parser → ℕ → Bytes → Outcome → Type 0} (spirit : IsSpirit Parses) where
  method-supported :
      (m : Bytes) (k : ℕ) (s : Bytes)
      → is_supported_method m ≡ true
      → Parses method k (m ++ s) (hit k s)
  unfolding is_supported_method run method
  method-supported m k s h =
      contains-All (λ m. Parses method k (m ++ s) (hit k s)) supported_methods m
        (
          run_sound spirit 12 method k _ refl,
          (
            run_sound spirit 12 method k _ refl,
            (
              run_sound spirit 12 method k _ refl,
              (
                run_sound spirit 12 method k _ refl,
                (
                  run_sound spirit 12 method k _ refl,
                  (
                    run_sound spirit 12 method k _ refl,
                    (
                      run_sound spirit 12 method k _ refl,
                      (run_sound spirit 12 method k _ refl, tt),
                    ),
                  ),
                ),
              ),
            ),
          ),
        )
        h

  version-text :
      (c d k : ℕ) (s : Bytes)
      → takes digit c ≡ some true
      → takes digit d ≡ some false
      → Parses http_version k (codes "HTTP/1." ++ c ∷ d ∷ s) (hit k (d ∷ s))
  unfolding http_version
  version-text c d k s h e =
      let start = str_p (codes "HTTP") >> ch_p b'/' >> positive digit >> ch_p b'.' in
      spirit.seq start (positive digit) k k (codes "HTTP/1." ++ c ∷ d ∷ s) (c ∷ d ∷ s)
        (hit k (d ∷ s)) (run_sound spirit 12 start k _ (unfold run digit in refl))
        (positive-takes spirit digit c [] k (d ∷ s) (h, tt) (takes-miss spirit digit d k s e))

  pub http_version-supported :
      (p : Bytes) (d k : ℕ) (s : Bytes)
      → is_supported_protocol p ≡ true
      → takes digit d ≡ some false
      → Parses http_version k (p ++ d ∷ s) (hit k (d ∷ s))
  unfolding is_supported_protocol
  http_version-supported p d k s h e =
      contains-All (λ p. Parses http_version k (p ++ d ∷ s) (hit k (d ∷ s)))
        (codes "HTTP/1.0" ∷ codes "HTTP/1.1" ∷ []) p
        (
          version-text b'0' d k s (unfold takes digit in refl) e,
          (version-text b'1' d k s (unfold takes digit in refl) e, tt),
        )
        (unfold contains in ground arith)

  segment-IsSegment :
      (cs : Bytes) (d k : ℕ) (s : Bytes)
      → IsSegment cs
      → takes pchar d ≡ some false
      → takes (ch_p b';' >> param) d ≡ some false
      → Parses segment k (cs ++ d ∷ s) (hit k (d ∷ s))
  unfolding segment
  segment-IsSegment cs d k s h e q =
      spirit.seq (kleene pchar) (kleene (ch_p b';' >> param)) k k (cs ++ d ∷ s) (d ∷ s)
        (hit k (d ∷ s))
        (kleene-takes spirit pchar cs k (d ∷ s) (IsSegment-takes cs h)
          (takes-miss spirit pchar d k s e))
        (spirit.kleene_end (ch_p b';' >> param) k k (d ∷ s)
          (takes-miss spirit (ch_p b';' >> param) d k s q))

  -- A segment ends where the next one or the space behind the path begins.
  segment-path_text :
      (cs : Bytes) (ss : List Bytes) (k : ℕ) (r : Bytes)
      → IsSegment cs
      → Parses segment k (cs ++ path_text ss (b' ' ∷ r)) (hit k (path_text ss (b' ' ∷ r)))
  unfolding takes pchar
  segment-path_text cs [] k r h = segment-IsSegment cs b' ' k r h refl refl
  segment-path_text cs (s ∷ ss) k r h =
      segment-IsSegment cs b'/' k (s ++ path_text ss (b' ' ∷ r)) h refl refl

  segments-path_text :
      (ss : List Bytes) (k : ℕ) (r : Bytes)
      → All IsSegment ss
      → Parses (kleene (ch_p b'/' >> segment)) k (path_text ss (b' ' ∷ r)) (hit k (b' ' ∷ r))
  segments-path_text [] k r h =
      spirit.kleene_end (ch_p b'/' >> segment) k k (b' ' ∷ r)
        (takes-miss spirit (ch_p b'/' >> segment) b' ' k r (unfold takes in refl))
  segments-path_text (s ∷ ss) k r (h, hs) =
      let behind = path_text ss (b' ' ∷ r) in
      spirit.kleene_more (ch_p b'/' >> segment) k k (b'/' ∷ (s ++ behind)) behind (hit k (b' ' ∷ r))
        (spirit.seq (ch_p b'/') segment k k (b'/' ∷ (s ++ behind)) (s ++ behind) (hit k behind)
          (spirit.ch b'/' k (s ++ behind)) (segment-path_text s ss k r h))
        (segments-path_text ss k r hs)

  abs_path-path_text :
      (s : Bytes) (ss : List Bytes) (k : ℕ) (r : Bytes)
      → All IsSegment (s ∷ ss)
      → Parses abs_path k (path_text (s ∷ ss) (b' ' ∷ r)) (hit k (b' ' ∷ r))
  unfolding abs_path path_segments
  abs_path-path_text s ss k r (h, hs) =
      let behind = path_text ss (b' ' ∷ r) in
      spirit.seq (ch_p b'/') path_segments k k (b'/' ∷ (s ++ behind)) (s ++ behind)
        (hit k (b' ' ∷ r)) (spirit.ch b'/' k (s ++ behind))
        (spirit.listed segment (ch_p b'/') k (s ++ behind) (hit k (b' ' ∷ r)) (
          spirit.seq segment (kleene (ch_p b'/' >> segment)) k k (s ++ behind) behind
            (hit k (b' ' ∷ r)) (segment-path_text s ss k r h) (segments-path_text ss k r hs)))

  request_uri-path_text :
      (s : Bytes) (ss : List Bytes) (k : ℕ) (r : Bytes)
      → All IsSegment (s ∷ ss)
      → Parses request_uri k (path_text (s ∷ ss) (b' ' ∷ r)) (hit k (b' ' ∷ r))
  unfolding request_uri
  request_uri-path_text s ss k r h =
      spirit.first (ch_p b'*' <|> absoluteuri <|> abs_path) authority k k
        (path_text (s ∷ ss) (b' ' ∷ r)) (b' ' ∷ r)
        (spirit.second (ch_p b'*' <|> absoluteuri) abs_path k k (path_text (s ∷ ss) (b' ' ∷ r))
          (hit k (b' ' ∷ r))
          (run_sound spirit 12 (ch_p b'*' <|> absoluteuri) k _ (unfold run absoluteuri in refl))
          (abs_path-path_text s ss k r h))

  pub request_line-text :
      (m : Bytes) (s : Bytes) (ss : List Bytes) (p : Bytes) (k : ℕ) (r : Bytes)
      → is_supported_method m ≡ true
      → All IsSegment (s ∷ ss)
      → is_supported_protocol p ≡ true
      → Parses request_line k (m ++ b' ' ∷ path_text (s ∷ ss) (b' ' ∷ (p ++ 13 ∷ 10 ∷ r))) (hit k r)
  unfolding request_line sp
  request_line-text m s ss p k r hm hs hp =
      let line = 13 ∷ 10 ∷ r in
      let version = p ++ line in
      let target = path_text (s ∷ ss) (b' ' ∷ version) in
      let whole = m ++ b' ' ∷ target in
      spirit.seq (method >> sp >> request_uri >> sp >> http_version) crlf k k whole line (hit k r)
        (spirit.seq (method >> sp >> request_uri >> sp) http_version k k whole version (hit k line)
          (spirit.seq (method >> sp >> request_uri) sp k k whole (b' ' ∷ version) (hit k version)
            (spirit.seq (method >> sp) request_uri k k whole target (hit k (b' ' ∷ version))
              (spirit.seq method sp k k whole (b' ' ∷ target) (hit k target)
                (method-supported m k (b' ' ∷ target) hm) (spirit.ch b' ' k target))
              (request_uri-path_text s ss k version hs))
            (spirit.ch b' ' k version))
          (http_version-supported p 13 k (10 ∷ r) hp (unfold takes digit in refl)))
        (run_sound spirit 4 crlf k line (unfold run crlf in refl))
