-- ===== src/Transactional/Tests.antt =====
-- Sends against the file-backed store, and the guarantee at inputs that meet its hypotheses.
use listmonk_ops.Prelude.{
  String, Option, none, some, Bool, true, ◌≡◌, refl, ok, err, [], ◌∷◌, arith, String_discrete,
  subst, ◌≢◌,
}
use listmonk_ops.JsonStore.{read_json_file_store}
use listmonk_ops.Idempotency.{
  Document, claim_transactional_send, commit_transactional_send, release_transactional_send,
  is_stored_transactional_document, is_stored_transactional_send_record, sweep_expired_records,
  unknown,
}
use listmonk_ops.Idempotency.Records.{get_own_record, set_record, delete_record}
use listmonk_ops.Idempotency.Validity.{IsSendable}
use listmonk_ops.Idempotency.Files.{IsWellFormedFile}
use listmonk_ops.Transactional.Failures.{
  Failure, throws, returns, boolean, other, dispatch_to_listmonk, is_definitive_pre_dispatch_error,
}
use listmonk_ops.Transactional.{
  SendInput, Environment, World, replayed_output, reconcile, send_transactional_message, send_keyed,
  send_with_key, after_claim, finish, record_to_output,
}
use listmonk_ops.Transactional.Once.{
  FileContext, file_store, claim_of, InWindow, requests_for, send_all, dispatched_once,
}

sends : Unit {0}
unfolding send_transactional_message send_keyed send_with_key after_claim finish record_to_output
    file_store dispatch_to_listmonk claim_transactional_send commit_transactional_send
    release_transactional_send read_json_file_store is_stored_transactional_document
    is_stored_transactional_send_record sweep_expired_records get_own_record set_record
    delete_record String_discrete is_definitive_pre_dispatch_error
sends = tt

abbrev text_hash : String → String
text_hash s = s

abbrev lower : String → String
lower s = s

abbrev definitive : Failure → Bool
definitive = is_definitive_pre_dispatch_error lower

abbrev welcome : SendInput String
welcome = record { payload = "welcome"; idempotency_key = some "k1" }

abbrev acknowledged : Environment
acknowledged = record {
  claim_now = 5;
  finish_now = 6;
  new_claim_token = "t1";
  answer = returns (record { error = none; status = some 200; body = some (boolean true) });
  store_writable = true;
}

abbrev timed_out : Environment
timed_out = record acknowledged {
  answer = throws (record {
    is_error = true;
    message = "timeout";
    http_status = none;
    code = none;
    cause = none;
  });
}

abbrev refused : Environment
refused = record acknowledged {
  answer = throws (record {
    is_error = true;
    message = "fetch failed";
    http_status = none;
    code = none;
    cause = some (some "ECONNREFUSED", none);
  });
}

abbrev again : Environment
again = record acknowledged { claim_now = 100; finish_now = 101; new_claim_token = "t2" }

abbrev empty_world : World (Option Document) String
empty_world = record { store = none; requests = [] }

abbrev after_first : World (Option Document) String
after_first =
    (send_transactional_message (FileContext text_hash "prod" definitive) acknowledged welcome
      empty_world).0

replays :
    (send_transactional_message
      (FileContext text_hash "prod" definitive)
      again
      welcome
      after_first).1
    ≡ ok (record {
      sent = true;
      status = replayed_output;
      duplicate = some true;
      idempotency_key = some "k1";
      expires_at = some 86_400_005;
    })
unfolding sends
replays = refl

timeout_blocks :
    (send_transactional_message
      (FileContext text_hash "prod" definitive)
      timed_out
      welcome
      empty_world).1
    ≡ err (reconcile unknown)
unfolding sends
timeout_blocks = refl

refused_is_free :
    (send_transactional_message
      (FileContext text_hash "prod" definitive)
      refused
      welcome
      empty_world).0.store
    ≡ some []
unfolding sends
refused_is_free = refl

non_boolean :
    dispatch_to_listmonk
      (returns (record { error = none; status = some 200; body = some (other "x") }))
    ≢ ok true
unfolding sends
non_boolean e = cc

empty_store-IsWellFormedFile : IsWellFormedFile none
unfolding sends
empty_store-IsWellFormedFile = record { distinct = tt; stored = refl; bounded = omega arith }

welcome-IsSendable :
    (env : Environment)
    → env.new_claim_token ≢ ""
    → IsSendable (claim_of text_hash "prod" env welcome "k1")
welcome-IsSendable env t = record { key = λ e. cc; payload = λ e. cc; target = λ e. cc; token = t }

some_key : (key : String) → welcome.idempotency_key ≡ some key → "k1" ≡ key
some_key key e = ground arith

again-InWindow : InWindow text_hash "prod" definitive 86_400_005 (again, welcome)
again-InWindow = (
  λ key e.
      subst (λ k. IsSendable (claim_of text_hash "prod" again welcome k)) (some_key key e)
        (welcome-IsSendable again (λ e. cc)),
  omega arith,
  omega arith,
)

dispatched_once_example :
    requests_for "k1"
      (send_all text_hash "prod" definitive after_first ((again, welcome) ∷ [])).requests
    ≡ requests_for "k1" after_first.requests
unfolding sends
dispatched_once_example =
    dispatched_once text_hash "prod" definitive empty_world acknowledged welcome "k1"
      ((again, welcome) ∷ []) empty_store-IsWellFormedFile refl
      (welcome-IsSendable acknowledged (λ e. cc)) (omega arith) refl (λ f e. cc)
      (again-InWindow, tt)
