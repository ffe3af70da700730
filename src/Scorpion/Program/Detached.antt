-- ===== src/Scorpion/Program/Detached.antt =====
-- lib/Scorpion/Context.cpp, `copyOnWrite`: a copy of a context that nobody has asked for its `SSL_CTX`
-- is not detached from it.
use arachnida.Base.{Bool, true, none, some, ◌≡◌, sym, ◌∙◌, ap, ok}
use arachnida.Scorpion.Context.{
  put, Context, Call, calls, Heap, get_context, copy, copy_on_write, Setting, assign, set,
}
use arachnida.Scorpion.Context.Failures.{put-same, get_context-full, get_context-empty}
use arachnida.Scorpion.Program.Places.{assign-ssl_context}

-- After a copy, a setting on the copy, and a `getContext` of the original.
abbrev pub copied : Context → Heap → Setting → Context × Heap
copied c heap setting = set setting (copy c) heap

copied-empty :
    (c : Context) (heap : Heap) (setting : Setting)
    → heap.holder c.ssl_context ≡ none
    → copied c heap setting ≡ (assign setting c, heap)
unfolding set copy copy_on_write
copied-empty c heap setting empty = rw (empty, set, copy, copy_on_write)

-- The second of two contexts with one empty holder gets what was built for the first.
get_context-shared :
    (answers : Call → Bool) (c d : Context) (heap : Heap)
    → c.ssl_context ≡ d.ssl_context
    → heap.holder c.ssl_context ≡ none
    → ((call : Call) → answers call ≡ true)
    → (get_context answers d (get_context answers c heap).1).0 ≡ ok (calls c)
get_context-shared answers c d heap same empty succeed =
    let filled = put c.ssl_context (some (calls c)) heap in
    rw (get_context-empty answers c heap empty succeed) (
      ap (λ r. r.0)
        (get_context-full answers d filled (calls c)
          (ap filled.holder (sym same) ∙ put-same c.ssl_context (some (calls c)) heap)))

-- If a context is copied before it has an `SSL_CTX`, then whatever is set on the copy, and whichever
-- of the two is asked first: the other one gets the `SSL_CTX` that was built from the settings of the
-- one that was asked. All calls of OpenSSL succeed.
pub get_context-copied :
    (c : Context) (heap : Heap) (setting : Setting) (answers : Call → Bool)
    → heap.holder c.ssl_context ≡ none
    → ((call : Call) → answers call ≡ true)
    → (let (changed, after) = copied c heap setting in
        ((get_context answers changed (get_context answers c after).1).0 ≡ ok (calls c))
        × ((get_context answers c (get_context answers changed after).1).0 ≡ ok (calls changed)))
get_context-copied c heap setting answers empty succeed =
    let own = assign-ssl_context setting c in
    rw (copied-empty c heap setting empty) (
      get_context-shared answers c (assign setting c) heap (sym own) empty succeed,
      get_context-shared answers (assign setting c) c heap own (ap heap.holder own ∙ empty) succeed,
    )
