-- ===== src/Idempotency.antt =====
-- packages/common/src/transactional-idempotency-store.ts: the file-backed store of idempotency
-- records for transactional sends. Times are milliseconds; `now` and the fresh claim token, which
-- the source takes from the clock and a hash, are arguments of each call.
pub mod Records
pub mod Sweep
pub mod Validity
pub mod Refinement
pub mod Files
pub mod Window
pub mod Guarantees
mod Tests
use listmonk_ops.Prelude.{
  ℕ, ◌+◌, String, Option, none, some, Bool, true, false, ◌≡◌, refl, Result, ok, err, if◌then◌else◌,
  List, [], ◌∷◌, ◌&&◌, not, same, leb, ltb, length, all, ◌==◌,
}
use listmonk_ops.JsonStore.{JsonFileStore, UpdateError, update_json_file_store}
use Records.{OwnRecords, get_own_record, set_record, delete_record}

pub data TransactionalSendStatus : Type 0 where
  pending accepted failed unknown : TransactionalSendStatus

pub record TransactionalSendRecord : Type 0 where
  pub key : String
  pub payload_hash : String
  pub target_hash : String
  pub status : TransactionalSendStatus
  pub sent : Option Bool
  pub error_message : Option String
  pub claim_token : String
  pub created_at : ℕ
  pub updated_at : ℕ
  pub expires_at : ℕ

-- `records` of `StoredTransactionalDocument`, whose `version` is always 1.
abbrev pub Document : Type 0
Document = OwnRecords TransactionalSendRecord

pub data TransactionalClaimResult : Type 0 where
  new : TransactionalSendRecord → TransactionalClaimResult
  replay : TransactionalSendRecord → TransactionalClaimResult
  conflict : TransactionalSendRecord → TransactionalClaimResult

pub data StoreError : Type 0 where
  capacity : StoreError
  invalid_ttl : StoreError

abbrev pub default_transactional_ttl_ms : ℕ
default_transactional_ttl_ms = 86_400_000

abbrev pub transactional_store_max_records : ℕ
transactional_store_max_records = 10_000

-- Accepted requires `sent: true`, failed forbids it.
abbrev pub status_matches_sent : TransactionalSendStatus → Option Bool → Bool
status_matches_sent accepted (some true) = true
status_matches_sent accepted _ = false
status_matches_sent failed (some true) = false
status_matches_sent _ _ = true

unfoldable pub is_stored_transactional_send_record : TransactionalSendRecord → Bool
is_stored_transactional_send_record r =
    not (same r.key "")
    && not (same r.payload_hash "")
    && not (same r.target_hash "")
    && status_matches_sent r.status r.sent
    && not (same r.claim_token "")

-- `parseStoredTransactionalDocument` accepts the document.
unfoldable pub is_stored_transactional_document : Document → Bool
is_stored_transactional_document [] = true
is_stored_transactional_document ((key, record') ∷ rest) =
    is_stored_transactional_send_record record'
    && same record'.key key
    && is_stored_transactional_document rest

abbrev pub transactional_store : JsonFileStore Document
transactional_store = record { create_default = []; valid = is_stored_transactional_document }

-- Live records are those that expire at `now` or later.
unfoldable pub sweep_expired_records : Document → ℕ → Document
sweep_expired_records [] now = []
sweep_expired_records ((key, r) ∷ rest) now =
    if leb now r.expires_at
    then (key, r) ∷ sweep_expired_records rest now
    else sweep_expired_records rest now

pub record ClaimOptions : Type 0 where
  pub key : String
  pub payload_hash : String
  pub target_hash : String
  pub ttl_ms : Option ℕ
  pub now : ℕ
  pub new_claim_token : String

abbrev pub resolve_ttl : Option ℕ → ℕ
resolve_ttl none = default_transactional_ttl_ms
resolve_ttl (some ttl) = ttl

unfoldable pub pending_record : ClaimOptions → TransactionalSendRecord
pending_record o = record {
  key = o.key;
  payload_hash = o.payload_hash;
  target_hash = o.target_hash;
  status = pending;
  sent = none;
  error_message = none;
  claim_token = o.new_claim_token;
  created_at = o.now;
  updated_at = o.now;
  expires_at = o.now + resolve_ttl o.ttl_ms;
}

-- An existing live record is never replaced: it is replayed, or it conflicts.
unfoldable pub claim_existing : ClaimOptions → TransactionalSendRecord → TransactionalClaimResult
claim_existing o existing =
    if same existing.payload_hash o.payload_hash && same existing.target_hash o.target_hash
    then replay existing
    else conflict existing

-- The callback of `updateJsonFileStore` in `claimTransactionalSend`.
unfoldable pub claim_update :
    ClaimOptions → Document → Result StoreError (Document × TransactionalClaimResult)
claim_update o document =
    let records = sweep_expired_records document o.now in
    elim (get_own_record records o.key) [
      | some existing ↦ ok (records, claim_existing o existing)
      | none ↦
          if leb transactional_store_max_records (length records)
          then err capacity
          else ok (set_record records o.key (pending_record o), new (pending_record o))
    ]

unfoldable pub claim_transactional_send :
    ClaimOptions
    → Option Document
    → Option Document × Result (UpdateError StoreError) TransactionalClaimResult
unfolding claim_update claim_existing pending_record update_json_file_store
claim_transactional_send o file =
    if resolve_ttl o.ttl_ms == 0
    then (file, err (UpdateError.threw invalid_ttl))
    else update_json_file_store transactional_store (claim_update o) file

pub record CommitOptions : Type 0 where
  pub key : String
  pub claim_token : String
  pub status : TransactionalSendStatus
  pub sent : Option Bool
  pub error_message : Option String
  pub now : ℕ

-- The `sent` that is persisted with each status.
abbrev pub committed_sent : TransactionalSendStatus → Option Bool → Option Bool
committed_sent accepted sent = some true
committed_sent failed (some true) = some false
committed_sent _ sent = sent

unfoldable pub committed_record : CommitOptions → TransactionalSendRecord → TransactionalSendRecord
committed_record o existing = record existing {
  status = o.status;
  sent = committed_sent o.status o.sent;
  error_message = o.error_message;
  updated_at = o.now;
}

unfoldable pub commit_update : CommitOptions → Document → Result StoreError (Document × Unit {0})
commit_update o document =
    let records = sweep_expired_records document o.now in
    elim (get_own_record records o.key) [
      | none ↦ ok (records, tt)
      | some existing ↦
          if same existing.claim_token o.claim_token
          then ok (set_record records o.key (committed_record o existing), tt)
          else ok (records, tt)
    ]

unfoldable pub commit_transactional_send :
    CommitOptions → Option Document → Option Document × Result (UpdateError StoreError) (Unit {0})
unfolding commit_update committed_record update_json_file_store
commit_transactional_send o = update_json_file_store transactional_store (commit_update o)

pub record ReleaseOptions : Type 0 where
  pub key : String
  pub claim_token : String
  pub now : ℕ

unfoldable pub release_update : ReleaseOptions → Document → Result StoreError (Document × Unit {0})
release_update o document =
    let records = sweep_expired_records document o.now in
    elim (get_own_record records o.key) [
      | none ↦ ok (records, tt)
      | some existing ↦
          if same existing.claim_token o.claim_token
          then ok (delete_record records o.key, tt)
          else ok (records, tt)
    ]

unfoldable pub release_transactional_send :
    ReleaseOptions → Option Document → Option Document × Result (UpdateError StoreError) (Unit {0})
unfolding release_update update_json_file_store
release_transactional_send o = update_json_file_store transactional_store (release_update o)
