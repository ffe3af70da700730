-- ===== src/Scorpion/Program/Coherence.antt =====
-- lib/Scorpion/Context.cpp gives each context value semantics, as long as only contexts that have been
-- asked for their `SSL_CTX` are copied.
use arachnida.Base.{
  ℕ, Bool, true, false, List, [], ◌∷◌, none, some, ◌≡◌, refl, sym, ◌∙◌, ap, arith, Option-cases,
  Bool-cases, inl, inr,
}
use arachnida.Scorpion.Flags.{ssl_method}
use arachnida.Scorpion.Context.{
  Context, Call, SslContext, calls, new_context, setup_calls, perform, goes_on, put, new_holder,
  get_context, construct, copy, copy_on_write, Setting, assign, set,
}
use arachnida.Scorpion.Program.{
  no_contexts, run_all, World, store, transposed, Command, constructs, copies, swaps, sets, gets,
  destroys, run,
}
use arachnida.Scorpion.Program.Places.{
  assign-ssl_context, IsPrefix, IsCoherent, IsGood, store-none, store-IsGood, none-some,
  store_new-IsGood, put-IsGood,
}

perform-IsPrefix : (answers : Call → Bool) (xs : List Call) → IsPrefix (perform answers xs).0 xs
unfolding perform
perform-IsPrefix answers [] = ([], refl)
perform-IsPrefix answers (call ∷ later) = elim (Bool-cases (goes_on answers call)) [
  | inl u ↦ let (rest, e) = perform-IsPrefix answers later in rw u (rest, ap (call ∷◌) e)
  | inr u ↦ rw u (call ∷ later, refl)
]

destroys-IsGood : (w : World) (i : ℕ) → IsGood w → IsGood (run (destroys i) w)
unfolding run
destroys-IsGood w i (allocated, coherent, apart) = (
  λ k c e. allocated k c (store-none i k c w.object e),
  λ k c s e. coherent k c s (store-none i k c w.object e),
  λ k l c d e f. apart k l c d (store-none i k c w.object e) (store-none i l d w.object f),
)

swaps-IsGood : (w : World) (i j : ℕ) → IsGood w → IsGood (run (swaps i j) w)
unfolding run
swaps-IsGood w i j (allocated, coherent, apart) = (
  λ k. allocated (transposed i j k),
  λ k. coherent (transposed i j k),
  λ k l c d ec ed e n.
      let same = apart (transposed i j k) (transposed i j l) c d ec ed e n in ground arith,
)

sets-missing :
    (w : World) (i : ℕ) (setting : Setting) → w.object i ≡ none → run (sets i setting) w ≡ w
unfolding run
sets-missing w i setting missing = rw (missing, run)

sets-empty :
    (w : World) (i : ℕ) (setting : Setting) (c : Context)
    → w.object i ≡ some c
    → w.heap.holder c.ssl_context ≡ none
    → run (sets i setting) w ≡ record w { object = store i (some (assign setting c)) w.object }
unfolding run set copy_on_write
sets-empty w i setting c is empty = rw (is, run, set, copy_on_write, empty)

sets-full :
    (w : World) (i : ℕ) (setting : Setting) (c : Context) (s : SslContext)
    → w.object i ≡ some c
    → w.heap.holder c.ssl_context ≡ some s
    → run (sets i setting) w ≡ record {
      object = store i (some (assign setting (record c { ssl_context = w.heap.next }))) w.object;
      heap = new_holder w.heap;
    }
unfolding run set copy_on_write
sets-full w i setting c s is full = rw (is, run, set, copy_on_write, full)

sets-IsGood : (w : World) (i : ℕ) (setting : Setting) → IsGood w → IsGood (run (sets i setting) w)
sets-IsGood w i setting good = elim (Option-cases (w.object i)) [
  | inl missing ↦ rw (sets-missing w i setting missing) good
  | inr (c, is) ↦ elim (Option-cases (w.heap.holder c.ssl_context)) [
    | inl empty ↦
        let own = assign-ssl_context setting c in
        rw (sets-empty w i setting c is empty) (
          store-IsGood w i (assign setting c) (rw own (good.0 i c is))
            (λ s h. absurd (none-some (sym empty ∙ sym (ap w.heap.holder own) ∙ h)))
            (λ j d other was same n.
              other (good.2 j i d c was is (same ∙ own) (ap w.heap.holder same ∙ n)))
            good)
    | inr (s, full) ↦ rw (sets-full w i setting c s is full) (
        store_new-IsGood w i (assign setting (record c { ssl_context = w.heap.next }))
          (assign-ssl_context setting (record c { ssl_context = w.heap.next })) good)
  ]
]

copies-missing : (w : World) (i j : ℕ) → w.object i ≡ none → run (copies i j) w ≡ w
unfolding run
copies-missing w i j missing = rw (missing, run)

copies-some :
    (w : World) (i j : ℕ) (c : Context)
    → w.object i ≡ some c
    → run (copies i j) w ≡ record w { object = store j (some c) w.object }
unfolding run copy
copies-some w i j c is = rw (is, run, copy)

copies-IsGood :
    (w : World) (i j : ℕ)
    → ((c : Context) → w.object i ≡ some c → ¬ (w.heap.holder c.ssl_context ≡ none))
    → IsGood w
    → IsGood (run (copies i j) w)
copies-IsGood w i j built good = elim (Option-cases (w.object i)) [
  | inl missing ↦ rw (copies-missing w i j missing) good
  | inr (c, is) ↦ rw (copies-some w i j c is) (
      store-IsGood w j c (good.0 i c is) (λ s h. good.1 i c s is h)
        (λ k d other was same n. built c is n) good)
]

constructs-IsGood :
    (w : World) (i flags depth : ℕ) → IsGood w → IsGood (run (constructs i flags depth) w)
unfolding run construct
constructs-IsGood w i flags depth good =
    store_new-IsGood w i ((construct flags depth w.heap).0) refl good

gets-missing :
    (w : World) (i : ℕ) (answers : Call → Bool) → w.object i ≡ none → run (gets i answers) w ≡ w
unfolding run
gets-missing w i answers missing = rw (missing, run)

gets-full :
    (w : World) (i : ℕ) (answers : Call → Bool) (c : Context) (s : SslContext)
    → w.object i ≡ some c
    → w.heap.holder c.ssl_context ≡ some s
    → run (gets i answers) w ≡ w
unfolding run get_context
gets-full w i answers c s is full = rw (is, run, get_context, full)

gets-fails :
    (w : World) (i : ℕ) (answers : Call → Bool) (c : Context)
    → w.object i ≡ some c
    → w.heap.holder c.ssl_context ≡ none
    → answers (new_context (ssl_method c.flags)) ≡ false
    → run (gets i answers) w ≡ w
unfolding run get_context
gets-fails w i answers c is empty fails = rw (is, run, get_context, empty, fails)

gets-empty :
    (w : World) (i : ℕ) (answers : Call → Bool) (c : Context)
    → w.object i ≡ some c
    → w.heap.holder c.ssl_context ≡ none
    → answers (new_context (ssl_method c.flags)) ≡ true
    → run (gets i answers) w ≡ record w {
      heap =
          put c.ssl_context
            (some (new_context (ssl_method c.flags) ∷ (perform answers (setup_calls c)).0))
            w.heap;
    }
unfolding run get_context
gets-empty w i answers c is empty works = rw (is, run, get_context, empty, works)

built-IsPrefix :
    (answers : Call → Bool) (c : Context)
    → IsPrefix (new_context (ssl_method c.flags) ∷ (perform answers (setup_calls c)).0) (calls c)
unfolding calls
built-IsPrefix answers c =
    let (rest, e) = perform-IsPrefix answers (setup_calls c) in
    (rest, ap (new_context (ssl_method c.flags) ∷◌) e)

same_object :
    (w : World) (k i : ℕ) (d c : Context)
    → w.object k ≡ some d
    → w.object i ≡ some c
    → k ≡ i
    → d ≡ c
same_object w k i d c was is here = ground arith

gets-IsGood :
    (w : World) (i : ℕ) (answers : Call → Bool) → IsGood w → IsGood (run (gets i answers) w)
gets-IsGood w i answers good = elim (Option-cases (w.object i)) [
  | inl missing ↦ rw (gets-missing w i answers missing) good
  | inr (c, is) ↦ elim (Option-cases (w.heap.holder c.ssl_context)) [
    | inr (s, full) ↦ rw (gets-full w i answers c s is full) good
    | inl empty ↦ elim (Bool-cases (answers (new_context (ssl_method c.flags)))) [
      | inr fails ↦ rw (gets-fails w i answers c is empty fails) good
      | inl works ↦ rw (gets-empty w i answers c is empty works) (
          put-IsGood w c.ssl_context
            (new_context (ssl_method c.flags) ∷ (perform answers (setup_calls c)).0)
            (λ k d was same.
              let here = good.2 k i d c was is same (ap w.heap.holder same ∙ empty) in
              rw (same_object w k i d c was is here) (built-IsPrefix answers c))
            good)
    ]
  ]
]

no_object : {c : Context} → none ≡ some c → ⊥
no_object e = ground arith

-- What the invariant asks of a command: the context that is copied has its `SSL_CTX` already.
abbrev pub CopiesBuilt : Command → World → Type 0
CopiesBuilt (copies i j) w =
    (c : Context) → w.object i ≡ some c → ¬ (w.heap.holder c.ssl_context ≡ none)
CopiesBuilt _ w = Unit {0}

run-IsGood :
    (command : Command) (w : World) → CopiesBuilt command w → IsGood w → IsGood (run command w)
run-IsGood (constructs i flags depth) w b good = constructs-IsGood w i flags depth good
run-IsGood (copies i j) w b good = copies-IsGood w i j b good
run-IsGood (swaps i j) w b good = swaps-IsGood w i j good
run-IsGood (sets i setting) w b good = sets-IsGood w i setting good
run-IsGood (gets i answers) w b good = gets-IsGood w i answers good
run-IsGood (destroys i) w b good = destroys-IsGood w i good

abbrev pub AllCopiesBuilt : List Command → World → Type 0
AllCopiesBuilt [] w = Unit {0}
AllCopiesBuilt (command ∷ later) w = CopiesBuilt command w × AllCopiesBuilt later (run command w)

run_all-IsGood :
    (commands : List Command) (w : World)
    → AllCopiesBuilt commands w
    → IsGood w
    → IsGood (run_all commands w)
unfolding run_all
run_all-IsGood [] w b good = good
run_all-IsGood (command ∷ later) w (b, bs) good =
    run_all-IsGood later (run command w) bs (run-IsGood command w b good)

-- A program that starts without contexts and copies only contexts that have been asked for their
-- `SSL_CTX` never sees one that does not fit: whatever it constructs, copies, swaps, sets, destroys and
-- asks for, in whatever order, and whichever calls of OpenSSL fail, the `SSL_CTX` of every context went
-- through a first part of the calls that the present settings of that context make.
pub run_all-IsCoherent :
    (commands : List Command)
    → AllCopiesBuilt commands no_contexts
    → IsCoherent (run_all commands no_contexts)
run_all-IsCoherent commands b =
    (run_all-IsGood commands no_contexts b (
      λ i c e. absurd (no_object e),
      λ i c s e. absurd (no_object e),
      λ i j c d e. absurd (no_object e),
    )).1
