-- ===== src/Scorpion/ProtocolError/Moves.antt =====
-- What SSL errors say after they are copied and assigned.
use arachnida.Base.{
  Bool, ◌++◌, true, Option, some, Bytes, codes, ◌≡◌, refl, Option-cases, inl, inr, ap, ◌∙◌, sym, ℕ,
}
use arachnida.Scorpion.ProtocolError.{
  ProtocolError, copy, assign, what, swap, sentence, protocol_error, further,
}

-- The text without the data of OpenSSL
abbrev pub bare : (ℕ → Bytes) → Bytes → ProtocolError → Bytes
bare to_text message e =
    message
    ++ (codes ": "
        ++ (e.filename
            ++ (codes " (" ++ (to_text e.line ++ (codes "): " ++ codes "no further information")))))

abbrev with_formatted : ProtocolError → Option Bytes → ProtocolError
with_formatted e kept = record {
  message = e.message;
  error_code = e.error_code;
  filename = e.filename;
  line = e.line;
  error_line_data = e.error_line_data;
  error_line_data_flags = e.error_line_data_flags;
  formatted = kept;
}

module _ (is_text : ℕ → Bool) (to_text : ℕ → Bytes) where
  abbrev pub says : ProtocolError → Bytes × ProtocolError
  says = what is_text to_text true

  said : (e : ProtocolError) → (t : Bytes) × (says e ≡ (t, with_formatted e (some t)))
  unfolding what
  said e = elim (Option-cases e.formatted) [
    | inl h ↦ (sentence is_text to_text true e, rw h refl)
    | inr (t, h) ↦
        let kept : says e ≡ (t, e) = rw h refl in (t, kept ∙ ap (λ o. (t, with_formatted e o)) h)
  ]

  -- Where formatting succeeds, `what` answers the same when it is called again. What an error says
  -- moves to its copy, whether `what` was called on it before or not, and the error that was copied
  -- says no more than its message, file and line. An error that is assigned to says what the argument
  -- did when `what` was called on the argument before; when the argument has nothing formatted, as
  -- after a copy of it, it says the argument's file and line after its own message.
  pub what-copy :
      (a e : ProtocolError)
      → ((says (says e).1).0 ≡ (says e).0)
        × ((says (copy e).0).0 ≡ (says e).0)
        × ((says (copy e).1).0 ≡ bare to_text e.message e)
        × ((says (copy (says e).1).0).0 ≡ (says e).0)
        × ((says (copy (says e).1).1).0 ≡ bare to_text e.message e)
        × ((says (assign a (says e).1).0).0 ≡ (says e).0)
        × ((says (assign a (copy e).1).0).0 ≡ bare to_text a.message e)
  unfolding copy assign swap what protocol_error further
  what-copy a e =
      let (t, same) = said e in
      let answer : (says e).0 ≡ t = ap (λ p. p.0) same in
      (
        ap (λ p. (says p.1).0) same ∙ sym answer,
        refl,
        refl,
        ap (λ p. (says (copy p.1).0).0) same ∙ sym answer,
        ap (λ p. (says (copy p.1).1).0) same,
        ap (λ p. (says (assign a p.1).0).0) same ∙ sym answer,
        refl,
      )
