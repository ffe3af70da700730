-- ===== src/Damon/Reception/Spinning.antt =====
-- `getResponse` of lib/Damon/Request.cpp on a response whose header fields are cut.
use mathlib.Core.List.{map}
use arachnida.Base.{
  ℕ, zero, suc, Bool, true, false, List, ◌∷◌, Option, some, Bytes, length, All, ◌≡◌, refl, sym, ap,
  ◌∙◌, arith, Result, ok, throw, out_of_fuel,
}
use arachnida.Damon.Message.{HeaderFields, Response}
use arachnida.Damon.Reading.{Progress, read_headers, read_headers_of}
use arachnida.Damon.Reception.{
  Attribute, no_attribute, four, Reply, get_start, go_on, attempts, get_response,
}
use arachnida.Damon.Reception.Loops.{
  to_spin, seen, seen_of, with_fields_of, as_client, read_headers_same,
}
use arachnida.Damon.Reception.Fields.{
  status_text, IsStatus, bare, parse_new-status_text, seen_of-ok, map-of_spin-to_spin, blank,
}
use arachnida.Damon.Reception.Whole.{Delivers, get_response-Delivers}
use arachnida.Spin.Connection.{ReadResult}
use arachnida.Spin.DataHandler as Server
use arachnida.Spin.DataHandler.Fields.{IsField, with_fields}
use arachnida.Spin.DataHandler.Fragment.{
  length-cut_text, cut_text-Stops, IsFragment, cut_text, stopped, read_headers-fragment,
  read_headers-cut_text,
}
use arachnida.Spin.Message as Spin

abbrev of_fields : HeaderFields → Spin.Request
of_fields hs = record blank { header_fields = map to_spin hs }

with_fields_of-of_fields : (r : Response) → with_fields_of r (of_fields r.header_fields) ≡ r
with_fields_of-of_fields r =
    ap (λ (hs : HeaderFields). record r { header_fields = hs })
      (map-of_spin-to_spin r.header_fields)

-- Where the server's loop stops without the end of the headers, the client's does.
Stopped : ℕ → Response → Bytes → Bytes → Type 0
Stopped fuel r where_ s =
    (q : Progress) × (x : Response) × (read_headers fuel r where_ false ≡ ok q)
    × (seen q ≡ (some x, (s, false)))

read_headers-Stopped :
    (fuel : ℕ) (r : Response) (where_ s : Bytes) (q : Spin.Request)
    → Server.read_headers fuel (of_fields r.header_fields) where_ false ≡ ok (stopped q s)
    → Stopped fuel r where_ s
unfolding Stopped
read_headers-Stopped fuel r where_ s q e =
    let (p, read, same) =
      seen_of-ok (read_headers fuel r where_ false) (some (with_fields_of r q), (s, false))
        (ap (λ (t : Response). seen_of (read_headers fuel t where_ false))
            (sym (with_fields_of-of_fields r))
          ∙ read_headers_same fuel r (of_fields r.header_fields) where_ false
          ∙ ap (as_client r) e) in
    (p, with_fields_of r q, read, same)

-- The header fields before the fragment are read, and from the fragment nothing more.
read_headers-cut :
    (r : Response) (hs : List Spin.Header) (s : Bytes)
    → All IsField hs
    → IsFragment s
    → Stopped (suc (length (cut_text hs s))) r (cut_text hs s) s
read_headers-cut r hs s fields h =
    read_headers-Stopped (suc (length (cut_text hs s))) r (cut_text hs s) s
      (with_fields (of_fields r.header_fields) hs)
      (read_headers-cut_text hs (suc (length (cut_text hs s))) (of_fields r.header_fields) s fields
        h (omega (arith, length-cut_text hs s)))

read_headers_again : (r : Response) (s : Bytes) → IsFragment s → Stopped (suc (length s)) r s s
read_headers_again r s h =
    read_headers-Stopped (suc (length s)) r s s (of_fields r.header_fields)
      (read_headers-fragment (length s) (of_fields r.header_fields) s h)

module _ (cast_code cast_size : Bytes → Option ℕ) where
  -- Where the second loop does not find the end of the headers, the call starts again.
  go_on-retry :
      (retry : Attribute → List (Result ReadResult) → Reply) (p q : Progress) (x : Response)
      (s : Bytes) (a : Attribute) (reads : List (Result ReadResult))
      → read_headers_of p.response p ≡ ok q
      → seen q ≡ (some x, (s, false))
      → go_on cast_code cast_size retry (some (ok p)) a reads
        ≡ retry (four (some x) s false q.end_of_buffer_found) reads
  unfolding go_on
  go_on-retry retry p q x s a reads e same = ground arith

  -- Without a read it ends only when the fuel does.
  abbrev pub Spins : Reply → List (Result ReadResult) → Type 0
  Spins reply reads = (reply.result ≡ some (throw out_of_fuel)) × (reply.reads ≡ reads)

  attempts-Spins :
      (fuel : ℕ) (poll retrying end_of_buffer : Bool) (r : Response) (s : Bytes)
      (reads : List (Result ReadResult))
      → IsFragment s
      → Spins
          (attempts cast_code cast_size fuel poll retrying
            (four (some r) s false end_of_buffer)
            reads)
          reads
  unfolding attempts get_start Stopped
  attempts-Spins zero poll retrying end_of_buffer r s reads h = (refl, refl)
  attempts-Spins (suc fuel) poll retrying end_of_buffer r s reads h =
      let (q, x, read, same) = read_headers_again r s h in
      rw
        (go_on-retry (attempts cast_code cast_size fuel poll true)
          (record {
            response = some r;
            rest = s;
            end_of_headers_found = false;
            end_of_buffer_found = end_of_buffer;
          })
          q x s no_attribute reads (unfold read_headers_of in read) same)
        (attempts-Spins fuel poll true q.end_of_buffer_found x s reads h)

  -- If a read brings the status line and the header fields only up to the middle of one, then
  -- `getResponse` never returns, whatever the server sends later: it goes back to `retry` for ever, as
  -- it does with any fuel, and never reads again. The fragment is not empty, starts with no white space
  -- and has no line end.
  pub get_response-Spins :
      (to_text : ℕ → Bytes) (fuel : ℕ) (poll : Bool) (r : Response) (hs : List Spin.Header)
      (s : Bytes) (d : ReadResult) (reads : List (Result ReadResult))
      → Delivers d (status_text to_text r (cut_text hs s))
      → IsStatus to_text cast_code cast_size r
      → All IsField hs
      → IsFragment s
      → Spins (get_response cast_code cast_size (suc fuel) poll no_attribute (ok d ∷ reads)) reads
  unfolding Stopped
  get_response-Spins to_text fuel poll r hs s d reads arrives status fields h =
      let text = status_text to_text r (cut_text hs s) in
      let fresh = bare to_text cast_code cast_size r in
      let stops = cut_text-Stops hs s in
      let (q, x, read, same) = read_headers-cut fresh hs s fields h in
      rw (get_response-Delivers to_text cast_code cast_size fuel poll d text reads arrives) (
        rw
          (parse_new-status_text to_text cast_code cast_size r (cut_text hs s) status stops.0
            stops.1)
          (rw
            (go_on-retry (attempts cast_code cast_size fuel poll true)
              (record {
                response = some fresh;
                rest = cut_text hs s;
                end_of_headers_found = false;
                end_of_buffer_found = false;
              })
              q x s no_attribute reads (unfold read_headers_of in read) same)
            (attempts-Spins fuel poll true q.end_of_buffer_found x s reads h)))
