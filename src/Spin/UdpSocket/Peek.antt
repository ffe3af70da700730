-- ===== src/Spin/UdpSocket/Peek.antt =====
-- peek, recv and clearPeekBuffer together.
use arachnida.Base.{
  ℕ, Bool, true, false, [], ◌∷◌, Option, none, some, Bytes, replicate, ◌≡◌, ◌≢◌, refl, ap, ◌∙◌,
  arith, Result, ok, throw, socket_error, Exception, Result-cases, Option-cases, inl, inr,
}
use arachnida.Acari.ParsingHelpers.{at_end}
use arachnida.Spin.UdpSocket.{
  Peeked, UdpSocket, Answers, Received, recv_block_size, time_out, recv_socket, with_buffer, recv,
  store_peeked, peek, clear_peek_buffer,
}

abbrev peeked : Received → Peeked
peeked r = record { address = r.address; port = r.port; size = r.size; buffer = r.buffer }

record Holds (t : UdpSocket) (r : Received) : Type 0 where
  open_fd : t.fd ≢ none
  held : t.peek_buffer ≡ peeked r

Option-cases' : (o : Option ℕ) → o ≢ none → (n : ℕ) × (o ≡ some n)
Option-cases' none h = absurd (h refl)
Option-cases' (some n) h = (n, refl)

peek-Holds :
    (s t : UdpSocket) (has_timeout : Bool) (answers : Answers) (r : Received)
    → peek s has_timeout answers ≡ (t, ok r)
    → Holds t r
peek-Holds s t has_timeout answers r e = unfold peek in ground arith

not_at_end : (s : Bytes) → s ≢ [] → at_end s ≡ false
unfolding at_end
not_at_end [] h = absurd (h refl)
not_at_end (c ∷ s) h = refl

peek_again :
    (t : UdpSocket) (r : Received) (later : Bool) (others : Answers)
    → Holds t r
    → r.buffer ≢ []
    → peek t later others ≡ (t, ok r)
peek_again t r later others h ne =
    let more = not_at_end r.buffer ne in unfold peek in ground (arith, more, h.open_fd, h.held)

recv_again :
    (t : UdpSocket) (r : Received) (buffer : Bytes) (later : Bool) (others : Answers)
    → Holds t r
    → r.buffer ≢ []
    → recv t buffer later others ≡ (clear_peek_buffer t, ok r)
recv_again t r buffer later others h ne =
    let more = not_at_end r.buffer ne in
    unfold recv clear_peek_buffer in ground (arith, more, h.open_fd, h.held)

-- After a `peek` that has received at least one byte, whatever the system answers later: another
-- `peek` returns the same and leaves the socket as it is, `recv` returns the same once, into whatever
-- buffer, and empties the peek buffer, and `clearPeekBuffer` empties it too.
pub peek_then :
    (s t : UdpSocket) (has_timeout : Bool) (answers : Answers) (r : Received)
    → peek s has_timeout answers ≡ (t, ok r)
    → r.buffer ≢ []
    → ((later : Bool) (others : Answers) → peek t later others ≡ (t, ok r))
      × ((buffer : Bytes) (later : Bool) (others : Answers)
          → recv t buffer later others ≡ (clear_peek_buffer t, ok r))
      × (at_end (clear_peek_buffer t).peek_buffer.buffer ≡ true)
peek_then s t has_timeout answers r e ne =
    let h = peek-Holds s t has_timeout answers r e in
    (
      λ later others. peek_again t r later others h ne,
      λ buffer later others. recv_again t r buffer later others h ne,
      unfold clear_peek_buffer at_end in refl,
    )

ok_ne_throw {ℓ} : {A : Type ℓ} {a : A} {e : Exception} → ok a ≢ throw e
ok_ne_throw h = cc

fails_left :
    (has_timeout : Bool) (answers : Answers) (e : Exception)
    → (recv_socket [] has_timeout answers).1 ≡ throw e
    → (recv_socket [] has_timeout answers).0 ≡ replicate recv_block_size 0
unfolding recv_socket at_end
fails_left has_timeout answers e fails =
    elim (Result-cases (time_out has_timeout answers.selected)) [
      | inl (x, t) ↦ rw (t, recv_socket) refl
      | inr (true, t) ↦ absurd (ok_ne_throw (rw (t, recv_socket) at fails))
      | inr (false, t) ↦ elim (Option-cases answers.received) [
        | inl none_left ↦ rw (t, recv_socket) (rw none_left refl)
        | inr (d, received) ↦ absurd (ok_ne_throw (rw received at (rw (t, recv_socket) at fails)))
      ]
    ]

store_failed :
    (s : UdpSocket) (p : Bytes × Result Received) (e : Exception)
    → p.1 ≡ throw e
    → store_peeked s p ≡ (with_buffer s p.0, throw e)
unfolding store_peeked
store_failed s (left, throw x) e h = ap (λ y. (with_buffer s left, y)) h
store_failed s (left, ok r) e h = absurd (ok_ne_throw h)

peek_asks :
    (s : UdpSocket) (fd : ℕ) (has_timeout : Bool) (answers : Answers)
    → s.fd ≡ some fd
    → s.peek_buffer.buffer ≡ []
    → peek s has_timeout answers ≡ store_peeked s (recv_socket [] has_timeout answers)
unfolding at_end
peek_asks s fd has_timeout answers e empty = unfold peek in ground (arith, e, empty)

recv_held :
    (s : UdpSocket) (fd : ℕ) (held buffer : Bytes) (later : Bool) (others : Answers)
    → s.fd ≡ some fd
    → at_end held ≡ false
    → (recv (with_buffer s held) buffer later others).1
      ≡ ok (record {
        buffer = held;
        address = s.peek_buffer.address;
        port = s.peek_buffer.port;
        size = s.peek_buffer.size;
      })
unfolding recv
recv_held s fd held buffer later others e h = rw e (rw h refl)

zeros_ne_nil : replicate {A = ℕ} recv_block_size 0 ≢ []
zeros_ne_nil h = cc

-- On an open socket whose peek buffer is empty, a `peek` that fails while it waits or receives leaves a
-- full block of zero bytes in the peek buffer, and the next `recv`, which asks the system for nothing,
-- returns them as data, with the address, the port and the size that were there before.
pub peek_fails :
    (s : UdpSocket) (fd : ℕ) (has_timeout : Bool) (answers : Answers)
    → s.fd ≡ some fd
    → s.peek_buffer.buffer ≡ []
    → (recv_socket [] has_timeout answers).1 ≡ throw socket_error
    → (buffer : Bytes) (later : Bool) (others : Answers)
    → (recv (peek s has_timeout answers).0 buffer later others).1
      ≡ ok (record {
        buffer = replicate recv_block_size 0;
        address = s.peek_buffer.address;
        port = s.peek_buffer.port;
        size = s.peek_buffer.size;
      })
peek_fails s fd has_timeout answers e empty fails buffer later others =
    let zeros = replicate recv_block_size 0 in
    let asked = peek_asks s fd has_timeout answers e empty in
    let left = fails_left has_timeout answers socket_error fails in
    ap (λ (t : UdpSocket × Result Received). (recv t.0 buffer later others).1)
      (asked ∙ store_failed s _ socket_error fails)
    ∙ ap (λ b. (recv (with_buffer s b) buffer later others).1) left
    ∙ recv_held s fd zeros buffer later others e (not_at_end zeros zeros_ne_nil)
