-- ===== src/Sequences/Resolution.antt =====
-- The reconciliation of an ambiguous enrollment and the record of its message agree.
use listmonk_ops.Prelude.{
  ℕ, String, Option, none, some, Result, ok, err, AfterOk, same, find, ◌==◌, ◌≡◌, ap, sym, ◌∙◌,
  subst, arith, Bool-cases, Option-cases, Result-cases, inl, inr,
}
use listmonk_ops.JsonStore.{read_json_file_store}
use listmonk_ops.Idempotency.{Document, TransactionalSendRecord, StoreError, transactional_store}
use listmonk_ops.Idempotency.Records.{get_own_record}
use listmonk_ops.Idempotency.Files.{contents, IsWellFormedFile}
use listmonk_ops.Sequences.{SequenceEnrollment, SequenceError, SequenceRevision, step_id}
use listmonk_ops.Sequences.Execute.{deterministic_send_key}
use listmonk_ops.Sequences.Repository.{
  get_file_enrollment, get_file_definition, is_ambiguous, resolve_ambiguous,
}
use listmonk_ops.Sequences.Reconciliation.{
  SequenceAmbiguousResolution, ReconcileError, Stores, check_record, is_send, resolve_found,
  resolved_enrollment, settle_record, read_ambiguous, write_resolution,
  reconcile_ambiguous_sequence_enrollment,
}
use listmonk_ops.Sequences.Settlement.{Settles, settle_record-Settles}

-- What the reads establish on a readable file.
abbrev IsFound :
    String
    → SequenceAmbiguousResolution
    → Stores
    → SequenceEnrollment × SequenceRevision × TransactionalSendRecord
    → Type 0
IsFound id resolution seen (e, revision, r) =
    (get_file_enrollment seen.sequences id ≡ ok e)
    × (get_own_record (contents seen.sends) (deterministic_send_key e) ≡ some r)
    × (check_record r.status resolution ≡ ok tt)

read_contents :
    (file : Option Document) (d : Document)
    → read_json_file_store {E = StoreError} transactional_store file ≡ ok d
    → contents file ≡ d
unfolding read_json_file_store
read_contents none d h = ground arith
read_contents (some f) d h = elim (Bool-cases (transactional_store.valid f)) [
  | inl b ↦ ground arith
  | inr b ↦ absurd (ground arith)
]

read_ambiguous-IsFound :
    (id : String) (resolution : SequenceAmbiguousResolution) (seen : Stores)
    → AfterOk (IsFound id resolution seen) (read_ambiguous id resolution seen)
unfolding read_ambiguous
read_ambiguous-IsFound id resolution seen =
    elim (Result-cases (get_file_enrollment seen.sequences id)) [
      | inl (x, n) ↦ rw (n, read_ambiguous) tt
      | inr (e, n) ↦ elim (Bool-cases (is_ambiguous e.status)) [
        | inr b ↦ rw (n, b, read_ambiguous) tt
        | inl b ↦ elim (Result-cases (get_file_definition seen.sequences e.sequence_id)) [
          | inl (x, m) ↦ rw (n, b, m, read_ambiguous) tt
          | inr (d, m) ↦ elim (Option-cases (find (λ r. r.revision == e.revision) d.revisions)) [
            | inl f ↦ rw (n, b, m, f, read_ambiguous) tt
            | inr (v, f) ↦
                elim (Bool-cases
                  (is_send (find (λ s. same (step_id s) e.current_step_id) v.steps))) [
                    | inr c ↦ rw (n, b, m, f, c, read_ambiguous) tt
                    | inl c ↦
                        elim (Result-cases
                          (read_json_file_store {E = StoreError} transactional_store seen.sends)) [
                            | inl (x, g) ↦ rw (n, b, m, f, c, g, read_ambiguous) tt
                            | inr (doc, g) ↦
                                elim (Option-cases
                                  (get_own_record doc (deterministic_send_key e))) [
                                    | inl h ↦ rw (n, b, m, f, c, g, h, read_ambiguous) tt
                                    | inr (r, h) ↦
                                        elim (Result-cases (check_record r.status resolution)) [
                                          | inl (x, k) ↦
                                              rw (n, b, m, f, c, g, h, k, read_ambiguous) tt
                                          | inr (u, k) ↦
                                              rw (n, b, m, f, c, g, h, k, read_ambiguous)
                                                (
                                                  n,
                                                  ap
                                                        (λ y.
                                                          get_own_record y
                                                            (deterministic_send_key e))
                                                        (read_contents seen.sends doc g)
                                                      ∙ h,
                                                  k,
                                                )
                                        ]
                                  ]
                          ]
                  ]
          ]
        ]
      ]
    ]

-- A reconciliation that succeeds settles the record of the enrollment's message, if that is still the
-- one that was read.
abbrev IsReconciled :
    String
    → SequenceAmbiguousResolution
    → ℕ
    → Stores
    → Stores
    → Stores × Result ReconcileError SequenceEnrollment
    → Type 0
IsReconciled id resolution now seen stores (after, err e) = Unit
IsReconciled id resolution now seen stores (after, ok resolved) =
    (e : SequenceEnrollment) × (get_file_enrollment seen.sequences id ≡ ok e)
    × (get_own_record (contents stores.sends) (deterministic_send_key e)
          ≡ get_own_record (contents seen.sends) (deterministic_send_key e)
        → Settles resolution (deterministic_send_key e) now stores.sends after.sends)

write-IsReconciled :
    (id : String) (resolution : SequenceAmbiguousResolution) (now : ℕ) (seen stores : Stores)
    (found : SequenceEnrollment × SequenceRevision × TransactionalSendRecord)
    → IsWellFormedFile stores.sends
    → IsFound id resolution seen found
    → IsReconciled id resolution now seen stores (write_resolution resolution now found stores)
unfolding write_resolution
write-IsReconciled id resolution now seen stores (e, revision, r) w (at, own, allowed) =
    elim (Result-cases (resolved_enrollment resolution revision e now)) [
      | inl (x, n) ↦ rw (n, write_resolution) tt
      | inr (next, n) ↦ elim (Result-cases (resolve_ambiguous e next stores.sequences)) [
        | inl (x, m) ↦ rw (n, m, write_resolution) tt
        | inr ((sequences, resolved), m) ↦
            elim (Result-cases
              (settle_record resolution (deterministic_send_key e) r now stores.sends).1) [
                | inl (x, k) ↦ rw (n, m, k, write_resolution) tt
                | inr (u, k) ↦
                    rw (n, m, k, write_resolution)
                      (
                        e,
                        at,
                        λ same.
                            settle_record-Settles resolution (deterministic_send_key e) r now
                              stores.sends w (same ∙ own),
                      )
              ]
      ]
    ]

found-IsReconciled :
    (id : String) (resolution : SequenceAmbiguousResolution) (now : ℕ) (seen stores : Stores)
    (found : Result ReconcileError
      (SequenceEnrollment × SequenceRevision × TransactionalSendRecord))
    → IsWellFormedFile stores.sends
    → AfterOk (IsFound id resolution seen) found
    → IsReconciled id resolution now seen stores (resolve_found resolution now stores found)
unfolding resolve_found
found-IsReconciled id resolution now seen stores (err e) w h = tt
found-IsReconciled id resolution now seen stores (ok found) w h =
    write-IsReconciled id resolution now seen stores found w h

-- A reconciliation of an ambiguous enrollment that succeeds settles the record of its message, and no
-- other live record, where between its reads and its writes nobody changed the record of the key. Said
-- to be sent, a record of the key that is live is still there and accepted; said not to be sent, no
-- live record of the key is left. The document of the sends that is written to is well-formed.
pub reconcile_ambiguous_lem :
    (id : String) (resolution : SequenceAmbiguousResolution) (now : ℕ) (seen stores after : Stores)
    (e resolved : SequenceEnrollment)
    → IsWellFormedFile stores.sends
    → get_file_enrollment seen.sequences id ≡ ok e
    → get_own_record (contents stores.sends) (deterministic_send_key e)
      ≡ get_own_record (contents seen.sends) (deterministic_send_key e)
    → reconcile_ambiguous_sequence_enrollment id resolution now seen stores ≡ (after, ok resolved)
    → Settles resolution (deterministic_send_key e) now stores.sends after.sends
unfolding reconcile_ambiguous_sequence_enrollment
reconcile_ambiguous_lem id resolution now seen stores after e resolved w at unchanged done =
    let (e', at', settles) = subst (IsReconciled id resolution now seen stores) done (
      found-IsReconciled id resolution now seen stores (read_ambiguous id resolution seen) w
        (read_ambiguous-IsFound id resolution seen)) in
    let is_e : e' ≡ e = same_enrollment (sym at' ∙ at) in
    subst
      (λ x.
        get_own_record (contents stores.sends) (deterministic_send_key x)
          ≡ get_own_record (contents seen.sends) (deterministic_send_key x)
        → Settles resolution (deterministic_send_key x) now stores.sends after.sends)
      is_e settles unchanged
  where
    same_enrollment :
        {x y : SequenceEnrollment}
        → ◌≡◌ {A = Result SequenceError SequenceEnrollment} (ok x) (ok y)
        → x ≡ y
    same_enrollment h = ground arith
