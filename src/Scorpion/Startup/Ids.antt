-- ===== src/Scorpion/Startup/Ids.antt =====
-- The ids of threads.
use mathlib.Core.Path.{subst}
use mathlib.Core.Logic.{◌↔◌}
use arachnida.Base.{
  ℕ, suc, ◌+◌, ◌%◌, ◌^◌, ◌<◌, ◌≤◌, List, [], ◌∷◌, none, some, Option-cases, All, ◌==◌, ◌≡◌, ◌≢◌,
  refl, sym, ap, ◌∙◌, arith, length, ok, throw, inl, inr, Bool-cases, Exception, logic_error,
  bad_alloc, ◌⊎◌,
}
use arachnida.Acari.ThreadLocal.{Values, get_value, set_value}
use arachnida.Scorpion.Startup.{ThreadIds, no_ids, get_thread_id}

-- A call of `getThreadId`: the thread, and what `pthread_setspecific` returns.
abbrev pub Asked : Type 0
Asked = ℕ × ℕ

abbrev pub after : ℕ → List Asked → ThreadIds → ThreadIds
after einval [] ids = ids
after einval ((thread, rv) ∷ calls) ids = after einval calls (get_thread_id einval rv thread ids).1

-- Every id that is kept is below the next one, and no two threads have the same.
abbrev Fresh : ℕ → Values → Type 0
Fresh next = All (λ p. p.1 < next)

abbrev Apart : Values → Type 0
Apart [] = Unit {0}
Apart ((t, v) ∷ values) = All (λ p. p.1 ≢ v) values × Apart values

abbrev IsKept : ThreadIds → Type 0
IsKept ids = Fresh ids.next_thread_id ids.values × Apart ids.values

set_value-cases :
    (einval rv thread value : ℕ) (values : Values)
    → ((e : Exception) × (set_value einval rv thread value values ≡ throw e))
      ⊎ (set_value einval rv thread value values ≡ ok ((thread, value) ∷ values))
unfolding set_value
set_value-cases einval rv thread value values = elim (Bool-cases (rv == einval)) [
  | inl e ↦ inl (logic_error, rw e refl)
  | inr n ↦ elim (Bool-cases (rv == 0)) [
    | inl z ↦ inr (rw (n, z) refl)
    | inr z ↦ inl (bad_alloc, rw (n, z) refl)
  ]
]

abbrev passed : ThreadIds → ThreadIds
passed ids = record ids { next_thread_id = (ids.next_thread_id + 1) % 2 ^ 32 }

abbrev took : ℕ → ThreadIds → ThreadIds
took thread ids = record {
  values = (thread, ids.next_thread_id) ∷ ids.values;
  next_thread_id = (ids.next_thread_id + 1) % 2 ^ 32;
}

-- The three ways a call may go.
data Way (einval rv thread : ℕ) (ids : ThreadIds) : Type 0 where
  kept :
      (v : ℕ)
      → get_value thread ids.values ≡ some v
      → get_thread_id einval rv thread ids ≡ (ok v, ids)
      → Way einval rv thread ids
  fails :
      (e : Exception)
      → get_value thread ids.values ≡ none
      → get_thread_id einval rv thread ids ≡ (throw e, passed ids)
      → Way einval rv thread ids
  takes :
      get_value thread ids.values ≡ none
      → get_thread_id einval rv thread ids ≡ (ok ids.next_thread_id, took thread ids)
      → Way einval rv thread ids

way : (einval rv thread : ℕ) (ids : ThreadIds) → Way einval rv thread ids
unfolding get_thread_id
way einval rv thread ids = elim (Option-cases (get_value thread ids.values)) [
  | inr (v, h) ↦ kept v h (rw (h, get_thread_id) refl)
  | inl h ↦ elim (set_value-cases einval rv thread ids.next_thread_id ids.values) [
    | inl (e, s) ↦ fails e h (rw (h, s, get_thread_id) refl)
    | inr s ↦ takes h (rw (h, s, get_thread_id) refl)
  ]
]

Fresh-suc : (next : ℕ) (values : Values) → Fresh next values → Fresh (suc next) values
Fresh-suc next [] h = tt
Fresh-suc next (p ∷ values) (l, h) = (omega arith, Fresh-suc next values h)

Fresh-Apart : (next : ℕ) (values : Values) → Fresh next values → All (λ p. p.1 ≢ next) values
Fresh-Apart next [] h = tt
Fresh-Apart next (p ∷ values) (l, h) = (omega arith, Fresh-Apart next values h)

next_lem : (n : ℕ) → suc n < 2 ^ 32 → (n + 1) % 2 ^ 32 ≡ suc n
next_lem n lt = omega arith

IsKept-passed :
    (ids : ThreadIds) → suc ids.next_thread_id < 2 ^ 32 → IsKept ids → IsKept (passed ids)
IsKept-passed ids lt (f, a) = (
  subst (λ n. Fresh n ids.values) (sym (next_lem ids.next_thread_id lt))
      (Fresh-suc ids.next_thread_id ids.values f),
  a,
)

IsKept-took :
    (thread : ℕ) (ids : ThreadIds)
    → suc ids.next_thread_id < 2 ^ 32
    → IsKept ids
    → IsKept (took thread ids)
IsKept-took thread ids lt (f, a) = (
  subst (λ n. Fresh n ((thread, ids.next_thread_id) ∷ ids.values))
      (sym (next_lem ids.next_thread_id lt))
      (omega arith, Fresh-suc ids.next_thread_id ids.values f),
  (Fresh-Apart ids.next_thread_id ids.values f, a),
)

-- What a call keeps: the invariant, the ids that threads have, and the bound on the next id.
record Keeps (before after : ThreadIds) : Type 0 where
  kept : IsKept after
  bound : after.next_thread_id ≤ suc before.next_thread_id
  values : (t v : ℕ) → get_value t before.values ≡ some v → get_value t after.values ≡ some v

get_value-other :
    (t v thread value : ℕ) (values : Values)
    → get_value thread values ≡ none
    → get_value t values ≡ some v
    → get_value t ((thread, value) ∷ values) ≡ some v
unfolding get_value
get_value-other t v thread value values absent h = elim (Bool-cases (thread == t)) [
  | inl e ↦
      let same : thread ≡ t = grind arith in
      let found : get_value thread values ≡ some v = ap (λ x. get_value x values) same ∙ h in cc
  | inr n ↦ rw n h
]

step-Keeps :
    (einval rv thread : ℕ) (ids : ThreadIds)
    → suc ids.next_thread_id < 2 ^ 32
    → IsKept ids
    → Keeps ids (get_thread_id einval rv thread ids).1
step-Keeps einval rv thread ids lt k = elim (way einval rv thread ids) [
  | kept v h e ↦
      subst (λ r. Keeps ids r.1) (sym e)
        (record { kept = k; bound = omega arith; values = λ t w g. g })
  | fails x h e ↦
      subst (λ r. Keeps ids r.1) (sym e)
        (record {
          kept = IsKept-passed ids lt k;
          bound = omega (arith, next_lem ids.next_thread_id lt);
          values = λ t w g. g;
        })
  | takes h e ↦
      subst (λ r. Keeps ids r.1) (sym e)
        (record {
          kept = IsKept-took thread ids lt k;
          bound = omega (arith, next_lem ids.next_thread_id lt);
          values = λ t w g. get_value-other t w thread ids.next_thread_id ids.values h g;
        })
]

after-Keeps :
    (einval : ℕ) (calls : List Asked) (ids : ThreadIds)
    → ids.next_thread_id + length calls < 2 ^ 32
    → IsKept ids
    → IsKept (after einval calls ids)
      × ((after einval calls ids).next_thread_id ≤ ids.next_thread_id + length calls)
      × ((t v : ℕ)
          → get_value t ids.values ≡ some v
          → get_value t (after einval calls ids).values ≡ some v)
after-Keeps einval [] ids lt k = (k, omega arith, λ t v g. g)
after-Keeps einval ((thread, rv) ∷ calls) ids lt k =
    let step = step-Keeps einval rv thread ids (omega arith) k in
    let next = (get_thread_id einval rv thread ids).1 in
    let bound : next.next_thread_id ≤ suc ids.next_thread_id = step.bound in
    let (k2, b2, v2) = after-Keeps einval calls next (omega (arith, bound)) step.kept in
    (k2, omega (arith, b2, bound), λ t v g. v2 t v (step.values t v g))

get_value-own : (t v : ℕ) (values : Values) → get_value t ((t, v) ∷ values) ≡ some v
unfolding get_value
get_value-own t v values = ground arith

-- What a call returns is kept for the thread.
returned-kept :
    (einval rv thread a : ℕ) (ids : ThreadIds)
    → (get_thread_id einval rv thread ids).0 ≡ ok a
    → get_value thread (get_thread_id einval rv thread ids).1.values ≡ some a
unfolding get_value
returned-kept einval rv thread a ids h = elim (way einval rv thread ids) [
  | kept v g e ↦
      let same : v ≡ a = grind (arith, e, h) in
      ap (λ r. get_value thread r.1.values) e ∙ g ∙ ap some same
  | fails x g e ↦ let no : throw x ≡ ok a = sym (ap (λ r. r.0) e) ∙ h in cc
  | takes g e ↦
      let same : ids.next_thread_id ≡ a = grind (arith, e, h) in
      ap (λ r. get_value thread r.1.values) e
      ∙ get_value-own thread ids.next_thread_id ids.values
      ∙ ap some same
]

get_value-absent :
    (t v : ℕ) (values : Values) → All (λ p. p.1 ≢ v) values → get_value t values ≢ some v
unfolding get_value
get_value-absent t v [] l h = cc
get_value-absent t v ((x, w) ∷ values) (ne, l) h = ground (arith, get_value-absent t v values l)

get_value-same :
    (t u a : ℕ) (values : Values)
    → Apart values
    → get_value t values ≡ some a
    → get_value u values ≡ some a
    → t ≡ u
unfolding get_value
get_value-same t u a [] apart ht hu = cc
get_value-same t u a ((x, v) ∷ values) (l, apart) ht hu =
    let absent_t = get_value-absent t v values l in
    let absent_u = get_value-absent u v values l in
    ground (arith, get_value-same t u a values apart, absent_t, absent_u)

get_value-below :
    (t a next : ℕ) (values : Values) → Fresh next values → get_value t values ≡ some a → a < next
unfolding get_value
get_value-below t a next [] f h = cc
get_value-below t a next ((x, v) ∷ values) (l, f) h =
    ground (arith, get_value-below t a next values f)

-- From the start, with fewer than 2^32 calls in all: when a thread asks for its id and later a thread
-- asks, and both get one, the ids are the same exactly if the threads are.
pub get_thread_id-tells :
    (einval : ℕ) (before between : List Asked) (t rv u rv2 a b : ℕ)
    → length before + suc (suc (length between)) < 2 ^ 32
    → (get_thread_id einval rv t (after einval before no_ids)).0 ≡ ok a
    → (get_thread_id einval rv2 u
        (after einval between (get_thread_id einval rv t (after einval before no_ids)).1)).0
      ≡ ok b
    → (a ≡ b) ↔ (t ≡ u)
get_thread_id-tells einval before between t rv u rv2 a b lt first second =
    let s1 = after einval before no_ids in
    let (k1, n1, v1) = after-Keeps einval before no_ids (omega arith) (tt, tt) in
    let step = step-Keeps einval rv t s1 (omega arith) k1 in
    let s2 = (get_thread_id einval rv t s1).1 in
    let low : s2.next_thread_id ≤ suc s1.next_thread_id = step.bound in
    let (k3, n3, v3) = after-Keeps einval between s2 (omega (arith, low, n1)) step.kept in
    let s3 = after einval between s2 in
    let known : get_value t s3.values ≡ some a = v3 t a (returned-kept einval rv t a s1 first) in
    elim (way einval rv2 u s3) [
      | kept v g e ↦
          let same : v ≡ b = grind (arith, e, second) in
          let found : get_value u s3.values ≡ some b = g ∙ ap some same in
          (
            (λ ab. get_value-same t u a s3.values k3.1 known (found ∙ ap some (sym ab))),
            (λ tu.
                let again : get_value t s3.values ≡ some b =
                  ap (λ x. get_value x s3.values) tu ∙ found in
                let both : some a ≡ some b = sym known ∙ again in grind arith),
          )
      | fails x g e ↦ let no : throw x ≡ ok b = sym (ap (λ r. r.0) e) ∙ second in cc
      | takes g e ↦
          let same : s3.next_thread_id ≡ b = grind (arith, e, second) in
          let below : a < s3.next_thread_id =
            get_value-below t a s3.next_thread_id s3.values k3.0 known in
          (
            (λ ab. absurd (omega arith)),
            (λ tu.
                let absent : get_value t s3.values ≡ none =
                  ap (λ x. get_value x s3.values) tu ∙ g in
                let no : some a ≡ none = sym known ∙ absent in cc),
          )
    ]
