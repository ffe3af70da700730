-- ===== src/Scorpion/Context/Failures.antt =====
-- What `Context::getContext` of lib/Scorpion/Context.cpp returns, the first time and later, and when a
-- call of OpenSSL fails.
use arachnida.Base.{
  codes, Bytes, ◌++◌, ℕ, Bool, true, false, List, [], ◌∷◌, Option, none, some, ◌≡◌, refl, sym, ◌∙◌,
  ap, arith, All, Bool-cases, inl, inr, ok, throw, ssl_context_setup_error,
}
use arachnida.Scorpion.Flags.{ssl_method}
use arachnida.Scorpion.Context.{
  Context, Call, SslContext, calls, new_context, setup_calls, perform, goes_on, is_checked,
  set_cipher_list, Heap, put, get_context,
}

pub put-same : (h : ℕ) (v : Option SslContext) (heap : Heap) → (put h v heap).holder h ≡ v
put-same h v heap = ground arith

pub get_context-full :
    (answers : Call → Bool) (c : Context) (heap : Heap) (s : SslContext)
    → heap.holder c.ssl_context ≡ some s
    → get_context answers c heap ≡ (ok s, heap)
unfolding get_context
get_context-full answers c heap s full = rw (full, get_context)

perform_all :
    (answers : Call → Bool) (xs : List Call)
    → ((call : Call) → answers call ≡ true)
    → perform answers xs ≡ (xs, true)
unfolding perform
perform_all answers [] succeed = refl
perform_all answers (call ∷ later) succeed =
    rw (goes answers call (succeed call), perform_all answers later succeed)
  where
    goes : (answers : Call → Bool) (call : Call) → answers call ≡ true → goes_on answers call ≡ true
    goes answers call e = ground arith

pub get_context-empty :
    (answers : Call → Bool) (c : Context) (heap : Heap)
    → heap.holder c.ssl_context ≡ none
    → ((call : Call) → answers call ≡ true)
    → get_context answers c heap ≡ (ok (calls c), put c.ssl_context (some (calls c)) heap)
unfolding get_context calls
get_context-empty answers c heap empty succeed = rw (
  get_context,
  empty,
  succeed (new_context (ssl_method c.flags)),
  perform_all answers (setup_calls c) succeed,
  calls,
)

perform-goes :
    (answers : Call → Bool) (call : Call) (later : List Call)
    → goes_on answers call ≡ true
    → perform answers (call ∷ later) ≡ (call ∷ (perform answers later).0, (perform answers later).1)
unfolding perform
perform-goes answers call later u = rw u

-- The last element.
abbrev pub last : List Call → Option Call
last [] = none
last (call ∷ []) = some call
last (call ∷ next ∷ later) = last (next ∷ later)

last-append : (xs : List Call) (y : Call) (ys : List Call) → last (xs ++ y ∷ ys) ≡ last (y ∷ ys)
last-append [] y ys = refl
last-append (x ∷ []) y ys = refl
last-append (x ∷ x' ∷ xs) y ys = last-append (x' ∷ xs) y ys

abbrev pub ciphers : Bytes
ciphers = codes "ALL:!ADH:!LOW:!EXP:!MD5:@STRENGTH"

last-setup_calls : (c : Context) → last (setup_calls c) ≡ some (set_cipher_list ciphers)
unfolding setup_calls
last-setup_calls c = rw last-append

-- The calls from the refused one on.
abbrev pub StopsAt : (Call → Bool) → List Call → List Call → Type 0
StopsAt answers done whole =
    (refused : Call) × (later : List Call) × (is_checked refused ≡ true)
    × (answers refused ≡ false)
    × (whole ≡ done ++ refused ∷ later)

perform-StopsAt :
    (answers : Call → Bool) (xs : List Call)
    → (perform answers xs).1 ≡ false
    → StopsAt answers (perform answers xs).0 xs
unfolding perform
perform-StopsAt answers [] stops = absurd (ground arith)
perform-StopsAt answers (call ∷ later) stops = elim (Bool-cases (goes_on answers call)) [
  | inl u ↦
      let (refused, missing, checked, no_answer, e) =
        perform-StopsAt answers later
          (sym (ap (λ r. r.1) (perform-goes answers call later u)) ∙ stops) in
      rw (perform-goes answers call later u)
        (refused, missing, checked, no_answer, ap (λ t. call ∷ t) e)
  | inr u ↦ rw u (call, later, ground arith, ground arith, refl)
]

get_context-stops :
    (answers : Call → Bool) (c : Context) (heap : Heap)
    → heap.holder c.ssl_context ≡ none
    → answers (new_context (ssl_method c.flags)) ≡ true
    → (perform answers (setup_calls c)).1 ≡ false
    → get_context answers c heap ≡ (
      throw ssl_context_setup_error,
      put c.ssl_context
          (some (new_context (ssl_method c.flags) ∷ (perform answers (setup_calls c)).0))
          heap,
    )
unfolding get_context
get_context-stops answers c heap empty works stops = rw (get_context, empty, works, stops)

-- No call that went through was refused with its result checked.
perform-went_on :
    (answers : Call → Bool) (xs : List Call)
    → All (λ call. goes_on answers call ≡ true) (perform answers xs).0
unfolding perform
perform-went_on answers [] = tt
perform-went_on answers (call ∷ later) = elim (Bool-cases (goes_on answers call)) [
  | inl went ↦ rw went (went, perform-went_on answers later)
  | inr refused ↦ rw refused tt
]

-- If OpenSSL allocates the context but refuses one of the later calls whose result is checked, then
-- `getContext` throws, but what is configured so far stays: every later `getContext` returns it as if
-- it were complete, whatever OpenSSL would answer now. Of the calls that the settings make it went
-- through those before the first refused one; that one and all behind it are missing, and the last of
-- them is that of the cipher list.
pub get_context_after_failure :
    (answers later : Call → Bool) (c : Context) (heap : Heap)
    → heap.holder c.ssl_context ≡ none
    → answers (new_context (ssl_method c.flags)) ≡ true
    → (perform answers (setup_calls c)).1 ≡ false
    → (s : SslContext) × (refused : Call) × (missing : List Call) × ((get_context answers c heap).0
        ≡ throw ssl_context_setup_error)
      × ((get_context later c (get_context answers c heap).1).0 ≡ ok s)
      × All (λ call. goes_on answers call ≡ true) s
      × (is_checked refused ≡ true)
      × (answers refused ≡ false)
      × (calls c ≡ s ++ refused ∷ missing)
      × (last (refused ∷ missing) ≡ some (set_cipher_list ciphers))
unfolding calls
get_context_after_failure answers later c heap empty works stops =
    let done = (perform answers (setup_calls c)).0 in
    let method = new_context (ssl_method c.flags) in
    let s : SslContext = method ∷ done in
    let (refused, missing, checked, no_answer, e) = perform-StopsAt answers (setup_calls c) stops in
    rw (get_context-stops answers c heap empty works stops) (
      s,
      refused,
      missing,
      refl,
      ap (λ r. r.0)
          (get_context-full later c (put c.ssl_context (some s) heap) s
            (put-same c.ssl_context (some s) heap)),
      (works, perform-went_on answers (setup_calls c)),
      checked,
      no_answer,
      ap (λ t. method ∷ t) e,
      sym (last-append done refused missing) ∙ ap last (sym e) ∙ last-setup_calls c,
    )
