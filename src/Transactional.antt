-- ===== src/Transactional.antt =====
-- packages/operations/src/transactional.ts: sending a transactional message with an optional
-- idempotency key. The store is an interface of three operations; each reads its time and token
-- from the environment of the call. The world keeps the store and a log of the requests made.
pub mod Failures
pub mod Once
mod Tests
use listmonk_ops.Prelude.{
  ℕ, String, Option, none, some, Bool, true, false, Result, ok, err, if◌then◌else◌, List, [], ◌∷◌,
}
use listmonk_ops.Idempotency.{
  TransactionalSendRecord, TransactionalSendStatus, pending, accepted, failed, unknown,
  ClaimOptions, CommitOptions, ReleaseOptions, TransactionalClaimResult, new, replay, conflict,
}
use Failures.{Failure, Response, ClientResult, dispatch_to_listmonk}

-- `TransactionalIdempotencyStore` over a state `S`, whose operations may throw an `E`.
pub record TransactionalIdempotencyStore (S E : Type 0) : Type 0 where
  pub claim : ClaimOptions → S → S × Result E TransactionalClaimResult
  pub commit : CommitOptions → S → S × Result E (Unit {0})
  pub release : ReleaseOptions → S → S × Result E (Unit {0})

-- The context: the store and the payload hash are both optional. `definitive` is
-- `isDefinitivePreDispatchError`, `target_hash` the hash of the target.
pub record Context (S E P : Type 0) : Type 0 where
  pub idempotency_store : Option (TransactionalIdempotencyStore S E)
  pub hash_payload : Option (P → String)
  pub target_hash : String
  pub definitive : Failure → Bool

pub record SendInput (P : Type 0) : Type 0 where
  pub payload : P
  pub idempotency_key : Option String

-- What the outside supplies to one call: the clock at the claim and at its end, a fresh token, the
-- client's answer if it is asked, and whether the store can be written at the end.
pub record Environment : Type 0 where
  pub claim_now : ℕ
  pub finish_now : ℕ
  pub new_claim_token : String
  pub answer : ClientResult
  pub store_writable : Bool

pub record World (S P : Type 0) : Type 0 where
  pub store : S
  pub requests : List (SendInput P)

pub data OutputStatus : Type 0 where
  accepted_output replayed_output failed_output : OutputStatus

pub record SendOutput : Type 0 where
  pub sent : Bool
  pub status : OutputStatus
  pub duplicate : Option Bool
  pub idempotency_key : Option String
  pub expires_at : Option ℕ

pub data SendError (E : Type 0) : Type 0 where
  no_store : SendError E
  key_conflict : SendError E
  reconcile : TransactionalSendStatus → SendError E
  dispatch_failed : Failure → SendError E
  store_failed : E → SendError E

abbrev outcome_status : Bool → OutputStatus
outcome_status true = accepted_output
outcome_status false = failed_output

abbrev committed_status : Bool → TransactionalSendStatus
committed_status true = accepted
committed_status false = failed

abbrev or_false : Option Bool → Bool
or_false none = false
or_false (some b) = b

-- `recordToOutput(record, "replayed")`.
unfoldable pub record_to_output : TransactionalSendRecord → SendOutput
record_to_output r = record {
  sent = or_false r.sent;
  status = replayed_output;
  duplicate = some true;
  idempotency_key = some r.key;
  expires_at = some r.expires_at;
}

-- `commitBestEffort`: an error of the store is swallowed.
unfoldable pub commit_best_effort :
    {S E : Type 0} → TransactionalIdempotencyStore S E → Environment → CommitOptions → S → S
commit_best_effort store env o s = if env.store_writable then (store.commit o s).0 else s

unfoldable pub release_best_effort :
    {S E : Type 0} → TransactionalIdempotencyStore S E → Environment → ReleaseOptions → S → S
release_best_effort store env o s = if env.store_writable then (store.release o s).0 else s

-- The answer to a key that is already claimed with the same payload and target.
unfoldable pub replayed :
    {E : Type 0}
    → TransactionalSendRecord
    → TransactionalSendStatus
    → Result (SendError E) SendOutput
replayed r accepted = ok (record_to_output r)
replayed r failed = ok (record_to_output r)
replayed r pending = err (reconcile pending)
replayed r unknown = err (reconcile unknown)

abbrev bare_output : {E : Type 0} → Result Failure Bool → Result (SendError E) SendOutput
bare_output (err f) = err (dispatch_failed f)
bare_output (ok sent) = ok (record {
  sent = sent;
  status = outcome_status sent;
  duplicate = none;
  idempotency_key = none;
  expires_at = none;
})

module _ {S E P : Type 0} where
  -- After a fresh claim: what the dispatch gave decides what is persisted.
  unfoldable pub finish :
      Context S E P
      → TransactionalIdempotencyStore S E
      → Environment
      → String
      → TransactionalSendRecord
      → Result Failure Bool
      → S
      → S × Result (SendError E) SendOutput
  unfolding commit_best_effort release_best_effort
  finish context store env key r (ok sent) s = (
    commit_best_effort store env
        (record {
          key = key;
          claim_token = r.claim_token;
          status = committed_status sent;
          sent = some sent;
          error_message = none;
          now = env.finish_now;
        })
        s,
    ok (record {
      sent = sent;
      status = outcome_status sent;
      duplicate = some false;
      idempotency_key = some key;
      expires_at = some r.expires_at;
    }),
  )
  finish context store env key r (err f) s =
      if context.definitive f
      then (
        release_best_effort store env
            (record { key = key; claim_token = r.claim_token; now = env.finish_now }) s,
        err (dispatch_failed f),
      )
      else (
        commit_best_effort store env
            (record {
              key = key;
              claim_token = r.claim_token;
              status = unknown;
              sent = none;
              error_message = some f.message;
              now = env.finish_now;
            })
            s,
        err (reconcile unknown),
      )

  -- The branches on the claim. Only a fresh claim makes a request.
  unfoldable pub after_claim :
      Context S E P
      → TransactionalIdempotencyStore S E
      → Environment
      → SendInput P
      → String
      → World S P
      → S × Result E TransactionalClaimResult
      → World S P × Result (SendError E) SendOutput
  unfolding replayed
  after_claim context store env input key w (s, err e) =
      (record w { store = s }, err (store_failed e))
  after_claim context store env input key w (s, ok (conflict r)) =
      (record w { store = s }, err key_conflict)
  after_claim context store env input key w (s, ok (replay r)) =
      (record w { store = s }, replayed r r.status)
  after_claim context store env input key w (s, ok (new r)) =
      let (s', result) = finish context store env key r (dispatch_to_listmonk env.answer) s in
      (record { store = s'; requests = input ∷ w.requests }, result)

  unfoldable pub send_with_key :
      Context S E P
      → Option (TransactionalIdempotencyStore S E)
      → Option (P → String)
      → Environment
      → SendInput P
      → String
      → World S P
      → World S P × Result (SendError E) SendOutput
  send_with_key context none hash env input key w = (w, err no_store)
  send_with_key context (some store) none env input key w = (w, err no_store)
  send_with_key context (some store) (some hash) env input key w =
      after_claim context store env input key w (
        store.claim
          (record {
            key = key;
            payload_hash = hash input.payload;
            target_hash = context.target_hash;
            ttl_ms = none;
            now = env.claim_now;
            new_claim_token = env.new_claim_token;
          })
          w.store)

  -- Without a key the request is made at once.
  unfoldable pub send_keyed :
      Context S E P
      → Environment
      → SendInput P
      → Option String
      → World S P
      → World S P × Result (SendError E) SendOutput
  send_keyed context env input none w =
      (record w { requests = input ∷ w.requests }, bare_output (dispatch_to_listmonk env.answer))
  send_keyed context env input (some key) w =
      send_with_key context context.idempotency_store context.hash_payload env input key w

  unfoldable pub send_transactional_message :
      Context S E P
      → Environment
      → SendInput P
      → World S P
      → World S P × Result (SendError E) SendOutput
  send_transactional_message context env input w =
      send_keyed context env input input.idempotency_key w
