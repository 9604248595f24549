-- ===== src/Idempotency/Tests.antt =====
-- The store on concrete calls, and its guarantees at inputs that meet their hypotheses.
use listmonk_ops.Prelude.{
  Option, none, some, true, ◌≡◌, refl, inr, ok, err, [], ◌∷◌, arith, String_discrete,
}
use listmonk_ops.JsonStore.{threw, read_json_file_store}
use listmonk_ops.Idempotency.{
  Document, TransactionalSendRecord, ClaimOptions, CommitOptions, ReleaseOptions, new, replay,
  pending, accepted, invalid_ttl, is_stored_transactional_document,
  is_stored_transactional_send_record, sweep_expired_records, claim_existing,
  claim_transactional_send, commit_transactional_send, release_transactional_send,
}
use listmonk_ops.Idempotency.Records.{get_own_record, set_record, delete_record}
use listmonk_ops.Idempotency.Validity.{IsSendable}
use listmonk_ops.Idempotency.Refinement.{Sets, committed, released, view}
use listmonk_ops.Idempotency.Files.{contents, IsWellFormedFile}
use listmonk_ops.Idempotency.Window.{claims, commits, releases, run, step, SameClaim}
use listmonk_ops.Idempotency.Guarantees.{claim_once, run-IsWellFormedFile, commit_release_refine}

store_runs : Unit {0}
unfolding claim_transactional_send commit_transactional_send release_transactional_send
    read_json_file_store is_stored_transactional_document is_stored_transactional_send_record
    sweep_expired_records get_own_record set_record delete_record String_discrete run step
store_runs = tt

abbrev first_claim : ClaimOptions
first_claim = record {
  key = "order-7";
  payload_hash = "p1";
  target_hash = "t1";
  ttl_ms = some 1000;
  now = 10;
  new_claim_token = "c1";
}

abbrev later_claim : ClaimOptions
later_claim = record first_claim { now = 900; new_claim_token = "c2" }

abbrev first_record : TransactionalSendRecord
first_record = record {
  key = "order-7";
  payload_hash = "p1";
  target_hash = "t1";
  status = pending;
  sent = none;
  error_message = none;
  claim_token = "c1";
  created_at = 10;
  updated_at = 10;
  expires_at = 1010;
}

abbrev acknowledge : CommitOptions
acknowledge = record {
  key = "order-7";
  claim_token = "c1";
  status = accepted;
  sent = none;
  error_message = none;
  now = 20;
}

abbrev give_up : ReleaseOptions
give_up = record { key = "order-7"; claim_token = "stale"; now = 30 }

abbrev first_file : Option Document
first_file = some (("order-7", first_record) ∷ [])

first_claim_is_new : claim_transactional_send first_claim none ≡ (first_file, ok (new first_record))
unfolding store_runs
first_claim_is_new = refl

replayed_after_commit :
    (claim_transactional_send later_claim (commit_transactional_send acknowledge first_file).0).1
    ≡ ok (replay (record first_record { status = accepted; sent = some true; updated_at = 20 }))
unfolding store_runs
replayed_after_commit = refl

expired_is_new :
    (claim_transactional_send (record later_claim { now = 1011 }) first_file).1
    ≡ ok (
        new (record first_record {
          claim_token = "c2";
          created_at = 1011;
          updated_at = 1011;
          expires_at = 2011;
        }))
unfolding store_runs
expired_is_new = refl

no_ttl :
    (claim_transactional_send (record first_claim { ttl_ms = some 0 }) none).1
    ≡ err (threw invalid_ttl)
unfolding store_runs
no_ttl = refl

empty_file-IsWellFormedFile : IsWellFormedFile none
unfolding store_runs
empty_file-IsWellFormedFile = record { distinct = tt; stored = refl; bounded = omega arith }

first_file-IsWellFormedFile : IsWellFormedFile first_file
unfolding store_runs
first_file-IsWellFormedFile = record { distinct = (refl, tt); stored = refl; bounded = omega arith }

first_claim-IsSendable : IsSendable first_claim
first_claim-IsSendable = record {
  key = λ e. cc;
  payload = λ e. cc;
  target = λ e. cc;
  token = λ e. cc;
}

claim_once_example :
    (s : TransactionalSendRecord) × SameClaim s first_record
    × ((claim_transactional_send later_claim
          (run first_file (commits acknowledge ∷ releases give_up ∷ []))).1
        ≡ ok (claim_existing later_claim s))
claim_once_example =
    claim_once first_claim none first_file first_record
      (commits acknowledge ∷ releases give_up ∷ []) later_claim empty_file-IsWellFormedFile
      first_claim-IsSendable first_claim_is_new (omega arith, ((omega arith, inr (λ e. cc)), tt))
      (record { key = λ e. cc; payload = λ e. cc; target = λ e. cc; token = λ e. cc }) refl
      (omega arith) refl

run-IsWellFormedFile_example :
    IsWellFormedFile (run none (claims first_claim ∷ commits acknowledge ∷ []))
run-IsWellFormedFile_example =
    run-IsWellFormedFile (claims first_claim ∷ commits acknowledge ∷ [])
      (first_claim-IsSendable, (tt, tt))

commit_release_refine_example :
    Sets
      (contents first_file)
      (contents (commit_transactional_send acknowledge first_file).0)
      20
      "order-7"
      (committed acknowledge (view (contents first_file) 20 "order-7"))
    × Sets
        (contents first_file)
        (contents (release_transactional_send give_up first_file).0)
        30
        "order-7"
        (released give_up (view (contents first_file) 30 "order-7"))
commit_release_refine_example =
    commit_release_refine first_file acknowledge give_up first_file-IsWellFormedFile
