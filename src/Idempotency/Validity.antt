-- ===== src/Idempotency/Validity.antt =====
-- Every document that the store writes passes its own schema.
use listmonk_ops.Prelude.{
  ℕ, ◌≤◌, String, Option, none, some, Bool, true, ◌≡◌, ◌≢◌, refl, [], ◌∷◌, same, length, arith, ok,
  Option-cases, inl, inr, subst, Bool-cases, ◌∙◌,
}
use listmonk_ops.Idempotency.{
  Document, TransactionalSendRecord, TransactionalSendStatus, pending, accepted, failed, unknown,
  is_stored_transactional_send_record, is_stored_transactional_document, sweep_expired_records,
  ClaimOptions, CommitOptions, ReleaseOptions, TransactionalClaimResult, claim_update,
  commit_update, release_update, committed_record, pending_record, status_matches_sent,
  committed_sent, transactional_store_max_records,
}
use listmonk_ops.Idempotency.Records.{
  get_own_record, set_record, delete_record, Distinct, set-Distinct, delete-Distinct, length-set-le,
  length-delete-le,
}
use listmonk_ops.Idempotency.Sweep.{sweep-Distinct, length-sweep-le}

abbrev pub IsStored : Document → Type 0
IsStored d = is_stored_transactional_document d ≡ true

pub sweep-IsStored : (d : Document) (now : ℕ) → IsStored d → IsStored (sweep_expired_records d now)
unfolding is_stored_transactional_document sweep_expired_records
sweep-IsStored [] now h = refl
sweep-IsStored ((i, r) ∷ rest) now h = ground (arith, sweep-IsStored rest now)

-- A stored record is valid and holds its own key.
pub get-IsStored :
    (d : Document) (k : String) (r : TransactionalSendRecord)
    → IsStored d
    → get_own_record d k ≡ some r
    → (is_stored_transactional_send_record r ≡ true) × (r.key ≡ k)
unfolding is_stored_transactional_document get_own_record
get-IsStored [] k r h e = ground arith
get-IsStored ((i, r') ∷ rest) k r h e = ground (arith, get-IsStored rest k r)

set-IsStored :
    (d : Document) (k : String) (r : TransactionalSendRecord)
    → IsStored d
    → is_stored_transactional_send_record r ≡ true
    → r.key ≡ k
    → IsStored (set_record d k r)
unfolding is_stored_transactional_document set_record
set-IsStored [] k r h v e = ground arith
set-IsStored ((i, r') ∷ rest) k r h v e = ground (arith, set-IsStored rest k r)

delete-IsStored : (d : Document) (k : String) → IsStored d → IsStored (delete_record d k)
unfolding is_stored_transactional_document delete_record
delete-IsStored [] k h = refl
delete-IsStored ((i, r') ∷ rest) k h = ground (arith, delete-IsStored rest k)

committed_sent_matches :
    (s : TransactionalSendStatus) (sent : Option Bool)
    → status_matches_sent s (committed_sent s sent) ≡ true
committed_sent_matches pending sent = ground arith
committed_sent_matches accepted sent = refl
committed_sent_matches failed none = refl
committed_sent_matches failed (some b) = ground arith
committed_sent_matches unknown sent = ground arith

committed_record-IsStored :
    (o : CommitOptions) (r : TransactionalSendRecord)
    → is_stored_transactional_send_record r ≡ true
    → is_stored_transactional_send_record (committed_record o r) ≡ true
unfolding committed_record is_stored_transactional_send_record
committed_record-IsStored o r h = ground (arith, committed_sent_matches o.status o.sent)

-- The document is one that the store can hold: distinct keys, valid records, within the cap.
pub record IsWellFormed (d : Document) : Type 0 where
  pub distinct : Distinct d
  pub stored : IsStored d
  pub bounded : length d ≤ transactional_store_max_records

pub sweep-IsWellFormed :
    (d : Document) (now : ℕ) → IsWellFormed d → IsWellFormed (sweep_expired_records d now)
sweep-IsWellFormed d now w = record {
  distinct = sweep-Distinct d now w.distinct;
  stored = sweep-IsStored d now w.stored;
  bounded = omega (arith, length-sweep-le d now, w.bounded);
}

-- A record may be written under its key while there is room, or where the key already stands.
set-IsWellFormed :
    (d : Document) (k : String) (r : TransactionalSendRecord)
    → IsWellFormed d
    → is_stored_transactional_send_record r ≡ true
    → r.key ≡ k
    → length (set_record d k r) ≤ transactional_store_max_records
    → IsWellFormed (set_record d k r)
set-IsWellFormed d k r w v e b = record {
  distinct = set-Distinct d k r w.distinct;
  stored = set-IsStored d k r w.stored v e;
  bounded = b;
}

delete-IsWellFormed :
    (d : Document) (k : String) → IsWellFormed d → IsWellFormed (delete_record d k)
delete-IsWellFormed d k w = record {
  distinct = delete-Distinct d k w.distinct;
  stored = delete-IsStored d k w.stored;
  bounded = omega (arith, length-delete-le d k, w.bounded);
}

length-set_existing :
    (d : Document) (k : String) (r : TransactionalSendRecord) (v : TransactionalSendRecord)
    → get_own_record d k ≡ some v
    → length (set_record d k r) ≡ length d
unfolding get_own_record set_record
length-set_existing [] k r v e = cc
length-set_existing ((i, w) ∷ rest) k r v e = ground (arith, length-set_existing rest k r v)

-- The arguments of a claim that the schema accepts.
pub record IsSendable (o : ClaimOptions) : Type 0 where
  pub key : o.key ≢ ""
  pub payload : o.payload_hash ≢ ""
  pub target : o.target_hash ≢ ""
  pub token : o.new_claim_token ≢ ""

pending_record-IsStored :
    (o : ClaimOptions)
    → IsSendable o
    → is_stored_transactional_send_record (pending_record o) ≡ true
unfolding is_stored_transactional_send_record pending_record
pending_record-IsStored o s = ground arith

pending_record-key : (o : ClaimOptions) → (pending_record o).key ≡ o.key
unfolding pending_record
pending_record-key o = refl

committed_record-key :
    (o : CommitOptions) (r : TransactionalSendRecord) → (committed_record o r).key ≡ r.key
unfolding committed_record
committed_record-key o r = refl

claim_swept-IsWellFormed :
    (o : ClaimOptions) (d : Document) (m : Option TransactionalSendRecord) {d' : Document}
    {answer : TransactionalClaimResult}
    → IsWellFormed (sweep_expired_records d o.now)
    → IsSendable o
    → get_own_record (sweep_expired_records d o.now) o.key ≡ m
    → claim_update o d ≡ ok (d', answer)
    → IsWellFormed d'
unfolding claim_update
claim_swept-IsWellFormed o d none w s g e = subst IsWellFormed (ground arith) (
    set-IsWellFormed (sweep_expired_records d o.now) o.key (pending_record o) w
      (pending_record-IsStored o s) (pending_record-key o)
      (ground (arith, length-set-le (sweep_expired_records d o.now) o.key (pending_record o))))
claim_swept-IsWellFormed o d (some r) w s g e = subst IsWellFormed (ground arith) w

-- A successful claim leaves a document that the store accepts.
pub claim_update-IsWellFormed :
    (o : ClaimOptions) (d d' : Document) (answer : TransactionalClaimResult)
    → IsWellFormed d
    → IsSendable o
    → claim_update o d ≡ ok (d', answer)
    → IsWellFormed d'
claim_update-IsWellFormed o d d' answer w s e =
    claim_swept-IsWellFormed o d _ (sweep-IsWellFormed d o.now w) s refl e

pub commit_update-IsWellFormed :
    (o : CommitOptions) (d d' : Document) (u : Unit {0})
    → IsWellFormed d
    → commit_update o d ≡ ok (d', u)
    → IsWellFormed d'
unfolding commit_update
commit_update-IsWellFormed o d d' u w e =
    elim (Option-cases (get_own_record (sweep_expired_records d o.now) o.key)) [
      | inl g ↦ subst IsWellFormed (ground arith) swept
      | inr (r, g) ↦ elim (Bool-cases (same r.claim_token o.claim_token)) [
        | inr f ↦ subst IsWellFormed (ground arith) swept
        | inl f ↦
            let (v, k) = get-IsStored (sweep_expired_records d o.now) o.key r swept.stored g in
            subst IsWellFormed (ground arith) (
              set-IsWellFormed (sweep_expired_records d o.now) o.key (committed_record o r) swept
                (committed_record-IsStored o r v) (committed_record-key o r ∙ k)
                (omega (
                  arith,
                  swept.bounded,
                  length-set_existing (sweep_expired_records d o.now) o.key (committed_record o r) r
                      g,
                )))
      ]
    ]
  where
    swept : IsWellFormed (sweep_expired_records d o.now)
    swept = sweep-IsWellFormed d o.now w

pub release_update-IsWellFormed :
    (o : ReleaseOptions) (d d' : Document) (u : Unit {0})
    → IsWellFormed d
    → release_update o d ≡ ok (d', u)
    → IsWellFormed d'
unfolding release_update
release_update-IsWellFormed o d d' u w e =
    elim (Option-cases (get_own_record (sweep_expired_records d o.now) o.key)) [
      | inl g ↦ subst IsWellFormed (ground arith) swept
      | inr (r, g) ↦ elim (Bool-cases (same r.claim_token o.claim_token)) [
        | inr f ↦ subst IsWellFormed (ground arith) swept
        | inl f ↦
            subst IsWellFormed (ground arith)
              (delete-IsWellFormed (sweep_expired_records d o.now) o.key swept)
      ]
    ]
  where
    swept : IsWellFormed (sweep_expired_records d o.now)
    swept = sweep-IsWellFormed d o.now w
