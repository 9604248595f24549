-- ===== src/Sequences/Repository/WellFormed.antt =====
-- packages/automation/src/sequences.ts: which enrollments may stand together in a store, and each
-- operation on it.
use listmonk_ops.Prelude.{
  ℕ, String, some, Bool, true, false, Result, ok, err, if◌then◌else◌, List, [], ◌∷◌, ◌++◌, same,
  holds, String_discrete, ◌||◌, not, find, any, filter, All, All-imp, ◌≡◌, refl, sym, arith,
  Bool-cases, Result-cases, Option-cases, inl, inr,
}
use listmonk_ops.Sequences.{
  SequenceDefinition, SequenceDefinitionStatus, SequenceEnrollment, SequenceStore, SequenceError,
}
use listmonk_ops.Sequences.Repository.{
  get_file_definition, blocks, create_enrollment, replace_definition,
}
use listmonk_ops.Sequences.Repository.Definitions.{
  is_live_for, add_definition, parse_sequence_definition, create_definition, delete_definition,
  set_definition_status, same_status,
}

-- No enrollment keeps out a later one: identifiers differ, and of two enrollments of a subscriber in
-- a sequence the earlier is terminal.
abbrev pub IsCompatible : List SequenceEnrollment → Type 0
IsCompatible [] = Unit
IsCompatible (e ∷ rest) = All (λ f. blocks e f ≡ false) rest × IsCompatible rest

-- Every enrollment is of a stored definition.
abbrev pub IsReferential : List SequenceDefinition → List SequenceEnrollment → Type 0
IsReferential definitions = All (λ e. any (λ d. same d.id e.sequence_id) definitions ≡ true)

abbrev pub IsWellFormed : SequenceStore → Type 0
IsWellFormed store =
    IsCompatible store.enrollments × IsReferential store.definitions store.enrollments

-- A result that is a store is well formed.
abbrev pub Keeps : {A : Type 0} → Result SequenceError (SequenceStore × A) → Type 0
Keeps (err e) = Unit
Keeps (ok (store, a)) = IsWellFormed store

All-append :
    (P : SequenceEnrollment → Type 0) (es : List SequenceEnrollment) (e : SequenceEnrollment)
    → All P es
    → P e
    → All P (es ++ (e ∷ []))
All-append P [] e h p = (p, tt)
All-append P (x ∷ rest) e h p = (h.0, All-append P rest e h.1 p)

IsCompatible-append :
    (es : List SequenceEnrollment) (e : SequenceEnrollment)
    → any (λ c. blocks c e) es ≡ false
    → IsCompatible es
    → IsCompatible (es ++ (e ∷ []))
IsCompatible-append [] e n h = (tt, tt)
IsCompatible-append (x ∷ rest) e n h = elim (Bool-cases (blocks x e)) [
  | inl b ↦ absurd (ground arith)
  | inr b ↦ (
    All-append (λ f. blocks x f ≡ false) rest e h.0 b,
    IsCompatible-append rest e (ground arith) h.1,
  )
]

IsCompatible-filter :
    (p : SequenceEnrollment → Bool) (es : List SequenceEnrollment)
    → IsCompatible es
    → IsCompatible (filter p es)
IsCompatible-filter p [] h = tt
IsCompatible-filter p (x ∷ rest) h = elim (Bool-cases (p x)) [
  | inl b ↦ rw b (All-filter p (λ f. blocks x f ≡ false) rest h.0, IsCompatible-filter p rest h.1)
  | inr b ↦ rw b (IsCompatible-filter p rest h.1)
]
  where
    All-filter :
        (p : SequenceEnrollment → Bool) (P : SequenceEnrollment → Type 0)
        (es : List SequenceEnrollment)
        → All P es
        → All P (filter p es)
    All-filter p P [] h = tt
    All-filter p P (x ∷ rest) h = elim (Bool-cases (p x)) [
      | inl b ↦ rw b (h.0, All-filter p P rest h.1)
      | inr b ↦ rw b (All-filter p P rest h.1)
    ]

found_any :
    (id : String) (ds : List SequenceDefinition) (d : SequenceDefinition)
    → find (λ x. same x.id id) ds ≡ some d
    → any (λ x. same x.id id) ds ≡ true
found_any id [] d h = absurd (ground arith)
found_any id (x ∷ rest) d h = elim (Bool-cases (same x.id id)) [
  | inl b ↦ ground arith
  | inr b ↦ ground (arith, found_any id rest d (ground arith))
]

-- Creating an enrollment keeps a store well formed.
pub create_enrollment-Keeps :
    (e : SequenceEnrollment) (store : SequenceStore)
    → IsWellFormed store
    → Keeps (create_enrollment e store)
unfolding create_enrollment get_file_definition
create_enrollment-Keeps e store (compatible, referential) =
    elim (Option-cases (find (λ d. same d.id e.sequence_id) store.definitions)) [
      | inl n ↦ rw (n, create_enrollment, get_file_definition) tt
      | inr (d, s) ↦ elim (Bool-cases (any (λ c. blocks c e) store.enrollments)) [
        | inl b ↦ rw (s, b, create_enrollment, get_file_definition) tt
        | inr b ↦
            rw (s, b, create_enrollment, get_file_definition)
              (
                IsCompatible-append store.enrollments e b compatible,
                All-append (λ x. any (λ d. same d.id x.sequence_id) store.definitions ≡ true)
                    store.enrollments e referential (found_any e.sequence_id store.definitions d s),
              )
      ]
    ]

not_live_gone :
    (id : String) (ds : List SequenceDefinition) (es : List SequenceEnrollment)
    → IsReferential ds es
    → IsReferential
        (filter (λ d. not (same d.id id)) ds)
        (filter (λ e. not (same e.sequence_id id)) es)
not_live_gone id ds [] h = tt
not_live_gone id ds (e ∷ rest) h = elim (Bool-cases (same e.sequence_id id)) [
  | inl b ↦ rw b (not_live_gone id ds rest h.1)
  | inr b ↦ rw b (any_filtered id e.sequence_id ds b h.0, not_live_gone id ds rest h.1)
]
  where
    any_filtered :
        (id other : String) (ds : List SequenceDefinition)
        → same other id ≡ false
        → any (λ d. same d.id other) ds ≡ true
        → any (λ d. same d.id other) (filter (λ d. not (same d.id id)) ds) ≡ true
    any_filtered id other [] n h = h
    any_filtered id other (d ∷ ds) n h = elim (Bool-cases (same d.id id)) [
      | inl b ↦ rw b (any_filtered id other ds n (ground arith))
      | inr b ↦ elim (Bool-cases (same d.id other)) [
        | inl c ↦ rw b (ground arith)
        | inr c ↦ rw b (ground (arith, any_filtered id other ds n (ground arith)))
      ]
    ]

pub delete_definition-Keeps :
    (id : String) (store : SequenceStore) → IsWellFormed store → Keeps (delete_definition id store)
unfolding delete_definition get_file_definition
delete_definition-Keeps id store (compatible, referential) =
    elim (Option-cases (find (λ d. same d.id id) store.definitions)) [
      | inl n ↦ rw (n, delete_definition, get_file_definition) tt
      | inr (d, s) ↦ elim (Option-cases (find (is_live_for id) store.enrollments)) [
        | inl n ↦
            rw (s, n, delete_definition, get_file_definition)
              (
                IsCompatible-filter (λ e. not (same e.sequence_id id)) store.enrollments compatible,
                not_live_gone id store.definitions store.enrollments referential,
              )
        | inr (e, l) ↦ rw (s, l, delete_definition, get_file_definition) tt
      ]
    ]

any_append :
    (p : SequenceDefinition → Bool) (ds : List SequenceDefinition) (d : SequenceDefinition)
    → any p ds ≡ true
    → any p (ds ++ (d ∷ [])) ≡ true
any_append p [] d h = absurd (ground arith)
any_append p (x ∷ ds) d h = elim (Bool-cases (p x)) [
  | inl b ↦ ground arith
  | inr b ↦ ground (arith, any_append p ds d (ground arith))
]

add_definition-Keeps :
    (to_lower_case : String → String) (d : SequenceDefinition) (store : SequenceStore)
    → IsWellFormed store
    → Keeps (add_definition to_lower_case d store)
unfolding add_definition
add_definition-Keeps to_lower_case d store (compatible, referential) =
    elim (Bool-cases (
      any (λ x. same x.id d.id || same (to_lower_case x.name) (to_lower_case d.name))
        store.definitions)) [
          | inl b ↦ rw (b, add_definition) tt
          | inr b ↦
              rw (b, add_definition)
                (
                  compatible,
                  All-imp (λ e. any (λ x. same x.id e.sequence_id) store.definitions ≡ true)
                      (λ e.
                        any (λ x. same x.id e.sequence_id) (store.definitions ++ (d ∷ [])) ≡ true)
                      store.enrollments
                      (λ e h. any_append (λ x. same x.id e.sequence_id) store.definitions d h)
                      referential,
                )
        ]

pub create_definition-Keeps :
    (parse : SequenceDefinition → Result SequenceError SequenceDefinition)
    (to_lower_case : String → String) (d : SequenceDefinition) (store : SequenceStore)
    → IsWellFormed store
    → Keeps (create_definition parse to_lower_case d store)
unfolding create_definition
create_definition-Keeps parse to_lower_case d store w =
    elim (Result-cases (parse_sequence_definition parse d)) [
      | inl (x, e) ↦ rw (e, create_definition) tt
      | inr (v, e) ↦ rw (e, create_definition) (add_definition-Keeps to_lower_case v store w)
    ]

kept_id : (x v : SequenceDefinition) → (if same x.id v.id then v else x).id ≡ x.id
kept_id x v = elim (String_discrete x.id v.id) as (λ b. (if holds b then v else x).id ≡ x.id) [
  | yes b ↦ sym b
  | no b ↦ refl
]

any_replaced :
    (id : String) (ds : List SequenceDefinition) (v : SequenceDefinition)
    → any (λ x. same x.id id) ds ≡ true
    → any (λ x. same x.id id) (replace_definition ds v) ≡ true
unfolding replace_definition
any_replaced id [] v h = h
any_replaced id (x ∷ ds) v h = rw (kept_id x v) (elim (Bool-cases (same x.id id)) [
  | inl b ↦ ground arith
  | inr b ↦ ground (arith, any_replaced id ds v (ground arith))
])

pub set_definition_status-Keeps :
    (id : String) (status : SequenceDefinitionStatus) (now : ℕ) (store : SequenceStore)
    → IsWellFormed store
    → Keeps (set_definition_status id status now store)
unfolding set_definition_status get_file_definition
set_definition_status-Keeps id status now store (compatible, referential) =
    elim (Option-cases (find (λ d. same d.id id) store.definitions)) [
      | inl n ↦ rw (n, set_definition_status, get_file_definition) tt
      | inr (d, s) ↦ elim (Bool-cases (same_status d.status status)) [
        | inl b ↦ rw (s, b, set_definition_status, get_file_definition) (compatible, referential)
        | inr b ↦
            rw (s, b, set_definition_status, get_file_definition)
              (
                compatible,
                All-imp (λ e. any (λ x. same x.id e.sequence_id) store.definitions ≡ true)
                    (λ e.
                      any (λ x. same x.id e.sequence_id)
                        (replace_definition store.definitions
                          (record d { status = status; updated_at = now }))
                      ≡ true)
                    store.enrollments
                    (λ e h.
                      any_replaced e.sequence_id store.definitions
                        (record d { status = status; updated_at = now }) h)
                    referential,
              )
      ]
    ]
