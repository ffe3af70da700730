-- ===== src/Scorpion/Program/Places.antt =====
-- The invariant of the contexts of lib/Scorpion/Context.cpp that share holders, and what keeps it: a
-- variable that gets a context, a new holder, and a holder that is filled.
use arachnida.Base.{
  ℕ, ◌<◌, List, ◌++◌, Option, none, some, ◌≡◌, refl, sym, ◌∙◌, ap, arith, inl, inr, ◌⊎◌,
}
use arachnida.Scorpion.Context.{
  set_server_certificate_filename, set_certificate_chain_filename,
  set_trusted_ca_certificates_filename, set_trusted_ca_certificates_directory_name,
  set_private_key_filename, set_flags, set_password_getter, set_certificate_verification_depth,
  Context, Call, SslContext, calls, Heap, put, new_holder, Setting, assign,
}
use arachnida.Scorpion.Program.{World, store}

abbrev pub IsPrefix : SslContext → List Call → Type 0
IsPrefix xs ys = (rest : List Call) × (xs ++ rest ≡ ys)

-- Every holder that a context points to is there; what is in it was built from the settings that the
-- context has now; and one that is still empty belongs to one context only.
abbrev pub IsAllocated : World → Type 0
IsAllocated w = (i : ℕ) (c : Context) → w.object i ≡ some c → c.ssl_context < w.heap.next

abbrev pub IsCoherent : World → Type 0
IsCoherent w =
    (i : ℕ) (c : Context) (s : SslContext)
    → w.object i ≡ some c
    → w.heap.holder c.ssl_context ≡ some s
    → IsPrefix s (calls c)

abbrev pub IsApart : World → Type 0
IsApart w =
    (i j : ℕ) (c d : Context)
    → w.object i ≡ some c
    → w.object j ≡ some d
    → c.ssl_context ≡ d.ssl_context
    → w.heap.holder c.ssl_context ≡ none
    → i ≡ j

abbrev pub IsGood : World → Type 0
IsGood w = IsAllocated w × IsCoherent w × IsApart w

-- What a variable holds behind `store`.
pub store-cases :
    (i k : ℕ) (v : Option Context) (object : ℕ → Option Context)
    → ((k ≡ i) × (store i v object k ≡ v)) ⊎ (¬ (k ≡ i) × (store i v object k ≡ object k))
store-cases i k v object = ground arith

pub store-none :
    (i k : ℕ) (c : Context) (object : ℕ → Option Context)
    → store i none object k ≡ some c
    → object k ≡ some c
store-none i k c object e = ground arith

pub store-some :
    (i k : ℕ) (c d : Context) (object : ℕ → Option Context)
    → store i (some c) object k ≡ some d
    → ((k ≡ i) × (d ≡ c)) ⊎ (¬ (k ≡ i) × (object k ≡ some d))
store-some i k c d object e = ground arith

-- A context is put into a variable.
pub store-IsGood :
    (w : World) (i : ℕ) (c : Context)
    → c.ssl_context < w.heap.next
    → ((s : SslContext) → w.heap.holder c.ssl_context ≡ some s → IsPrefix s (calls c))
    → ((j : ℕ) (d : Context)
        → ¬ (j ≡ i)
        → w.object j ≡ some d
        → d.ssl_context ≡ c.ssl_context
        → w.heap.holder c.ssl_context ≡ none
        → ⊥)
    → IsGood w
    → IsGood (record w { object = store i (some c) w.object })
store-IsGood w i c below built alone (allocated, coherent, apart) = (
  λ k d e. elim (store-some i k c d w.object e) [
    | inl (_, same) ↦ rw same below
    | inr (_, was) ↦ allocated k d was
  ],
  λ k d s e. elim (store-some i k c d w.object e) [
    | inl (_, same) ↦ rw same (built s)
    | inr (_, was) ↦ coherent k d s was
  ],
  λ k l d b e f same_holder n. elim (store-some i k c d w.object e) [
    | inl (at_i, same) ↦ elim (store-some i l c b w.object f) [
      | inl (at_i_too, _) ↦ at_i ∙ sym at_i_too
      | inr (other, was) ↦ absurd (
          alone l b other was (sym same_holder ∙ ap (λ x. x.ssl_context) same)
            (ap (λ x. w.heap.holder x.ssl_context) (sym same) ∙ n))
    ]
    | inr (other, was) ↦ elim (store-some i l c b w.object f) [
      | inl (_, same) ↦ absurd (
          alone k d other was (same_holder ∙ ap (λ x. x.ssl_context) same)
            (ap w.heap.holder (ap (λ x. x.ssl_context) (sym same) ∙ sym same_holder) ∙ n))
      | inr (_, was_too) ↦ apart k l d b was was_too same_holder n
    ]
  ],
)

-- A new holder leaves the others as they are.
pub new_holder-other :
    (heap : Heap) (h : ℕ) → h < heap.next → (new_holder heap).holder h ≡ heap.holder h
new_holder-other heap h below = ground arith

pub new_holder-IsGood : (w : World) → IsGood w → IsGood (record w { heap = new_holder w.heap })
new_holder-IsGood w (allocated, coherent, apart) = (
  λ k c e. let below = allocated k c e in omega arith,
  λ k c s e h. coherent k c s e (sym (new_holder-other w.heap c.ssl_context (allocated k c e)) ∙ h),
  λ k l c d e f same n.
      apart k l c d e f same (sym (new_holder-other w.heap c.ssl_context (allocated k c e)) ∙ n),
)

pub new_holder-empty : (heap : Heap) → (new_holder heap).holder heap.next ≡ none
new_holder-empty heap = ground arith

pub none-some : {s : SslContext} → none ≡ some s → ⊥
none-some e = ground arith

-- A context with a new holder of its own is put into a variable.
pub store_new-IsGood :
    (w : World) (i : ℕ) (c : Context)
    → c.ssl_context ≡ w.heap.next
    → IsGood w
    → IsGood (record { object = store i (some c) w.object; heap = new_holder w.heap })
store_new-IsGood w i c new good =
    let empty = ap (new_holder w.heap).holder new ∙ new_holder-empty w.heap in
    store-IsGood (record w { heap = new_holder w.heap }) i c (omega arith)
      (λ s h. absurd (none-some (sym empty ∙ h)))
      (λ j d other was same n. let below = good.0 j d was in omega arith) (new_holder-IsGood w good)

pub put-some :
    (h k : ℕ) (s t : SslContext) (heap : Heap)
    → (put h (some s) heap).holder k ≡ some t
    → ((k ≡ h) × (t ≡ s)) ⊎ (heap.holder k ≡ some t)
put-some h k s t heap e = ground arith

pub put-none :
    (h k : ℕ) (s : SslContext) (heap : Heap)
    → (put h (some s) heap).holder k ≡ none
    → heap.holder k ≡ none
put-none h k s heap e = ground arith

-- A holder is filled with what was built from the settings of every context that points to it.
pub put-IsGood :
    (w : World) (h : ℕ) (s : SslContext)
    → ((i : ℕ) (c : Context) → w.object i ≡ some c → c.ssl_context ≡ h → IsPrefix s (calls c))
    → IsGood w
    → IsGood (record w { heap = put h (some s) w.heap })
put-IsGood w h s built (allocated, coherent, apart) = (
  allocated,
  λ k c t e f. elim (put-some h c.ssl_context s t w.heap f) [
    | inl (at_h, same) ↦ rw same (built k c e at_h)
    | inr was ↦ coherent k c t e was
  ],
  λ k l c d e f same n. apart k l c d e f same (put-none h c.ssl_context s w.heap n),
)

pub assign-ssl_context :
    (setting : Setting) (c : Context) → (assign setting c).ssl_context ≡ c.ssl_context
assign-ssl_context (set_server_certificate_filename p) c = refl
assign-ssl_context (set_certificate_chain_filename p) c = refl
assign-ssl_context (set_trusted_ca_certificates_filename p) c = refl
assign-ssl_context (set_trusted_ca_certificates_directory_name p) c = refl
assign-ssl_context (set_private_key_filename p) c = refl
assign-ssl_context (set_flags n) c = refl
assign-ssl_context (set_password_getter g) c = refl
assign-ssl_context (set_certificate_verification_depth n) c = refl
