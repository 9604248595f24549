-- ===== src/Transactional/Once.antt =====
-- With the file-backed store: once a request for a key may have reached Listmonk, no later send
-- makes another one for that key while its claim lives.
use listmonk_ops.Prelude.{
  ℕ, ◌+◌, ◌≤◌, String, Option, none, some, Bool, true, false, Result, ok, err, List, [], ◌∷◌,
  length, ◌≡◌, ◌≢◌, refl, sym, ◌∙◌, ap, subst, same, filter, arith, All, inl, inr, Bool-cases, ◌⊎◌,
  ◌&&◌,
}
use listmonk_ops.JsonStore.{UpdateError}
use listmonk_ops.Idempotency.{
  Document, TransactionalSendRecord, ClaimOptions, CommitOptions, ReleaseOptions,
  TransactionalClaimResult, new, replay, conflict, StoreError, claim_existing,
  claim_transactional_send, commit_transactional_send, release_transactional_send,
  default_transactional_ttl_ms,
}
use listmonk_ops.Idempotency.Validity.{IsSendable}
use listmonk_ops.Idempotency.Files.{IsWellFormedFile}
use listmonk_ops.Idempotency.Window.{
  claims, commits, releases, step, Holds, step-Holds, String-cases,
}
use listmonk_ops.Idempotency.Guarantees.{claim_held, claim_new_ok}
use listmonk_ops.Transactional.Failures.{Failure, dispatch_to_listmonk}
use listmonk_ops.Transactional.{
  TransactionalIdempotencyStore, Context, SendInput, Environment, World, SendOutput, SendError,
  dispatch_failed, send_transactional_message, send_keyed, send_with_key, after_claim, finish,
  commit_best_effort, release_best_effort,
}

-- `createFileBackedTransactionalIdempotencyStore`.
unfoldable pub file_store : TransactionalIdempotencyStore (Option Document) (UpdateError StoreError)
file_store = record {
  claim = claim_transactional_send;
  commit = commit_transactional_send;
  release = release_transactional_send;
}

abbrev pub has_key : String → Option String → Bool
has_key key none = false
has_key key (some k) = same k key

module _ {P : Type 0} where
  -- The requests that were made for a key.
  abbrev pub requests_for : String → List (SendInput P) → List (SendInput P)
  requests_for key = filter (λ i. has_key key i.idempotency_key)

  abbrev pub FileContext :
      (P → String)
      → String
      → (Failure → Bool)
      → Context (Option Document) (UpdateError StoreError) P
  FileContext hash target definitive = record {
    idempotency_store = some file_store;
    hash_payload = some hash;
    target_hash = target;
    definitive = definitive;
  }

  -- The claim that a send makes.
  abbrev pub claim_of : (P → String) → String → Environment → SendInput P → String → ClaimOptions
  claim_of hash target env input key = record {
    key = key;
    payload_hash = hash input.payload;
    target_hash = target;
    ttl_ms = none;
    now = env.claim_now;
    new_claim_token = env.new_claim_token;
  }

claim_existing_cases :
    (o : ClaimOptions) (t : TransactionalSendRecord)
    → (claim_existing o t ≡ replay t) ⊎ (claim_existing o t ≡ conflict t)
unfolding claim_existing
claim_existing_cases o t =
    elim (Bool-cases (same t.payload_hash o.payload_hash && same t.target_hash o.target_hash)) [
      | inl e ↦ inl (rw e)
      | inr e ↦ inr (rw e)
    ]

module _ {P : Type 0} (hash : P → String) (target : String) (definitive : Failure → Bool) where
  abbrev ctx : Context (Option Document) (UpdateError StoreError) P
  ctx = FileContext hash target definitive

  -- The hypotheses on one call: its key, hashes and token are not empty, and it runs to its end
  -- before the deadline.
  abbrev pub InWindow : ℕ → Environment × SendInput P → Type 0
  InWindow deadline (env, input) =
      ((key : String)
        → input.idempotency_key ≡ some key
        → IsSendable (claim_of hash target env input key))
      × (env.claim_now ≤ deadline)
      × (env.finish_now ≤ deadline)

  true_ne : ◌≡◌ {A = Bool} true false → ⊥
  true_ne e = cc e

  finish_committed-Holds :
      (r : TransactionalSendRecord) (s : Option Document) (env : Environment) (o : CommitOptions)
      → Holds r s
      → o.now ≤ r.expires_at
      → Holds r (commit_best_effort file_store env o s)
  unfolding commit_best_effort file_store step
  finish_committed-Holds r s env o h le = elim (Bool-cases env.store_writable) [
    | inl y ↦ rw (y, commit_best_effort) (step-Holds r s (commits o) h le)
    | inr n ↦ rw (n, commit_best_effort) h
  ]

  finish_released-Holds :
      (r : TransactionalSendRecord) (s : Option Document) (env : Environment) (o : ReleaseOptions)
      → Holds r s
      → o.now ≤ r.expires_at
      → o.key ≢ r.key
      → Holds r (release_best_effort file_store env o s)
  unfolding release_best_effort file_store step
  finish_released-Holds r s env o h le ne = elim (Bool-cases env.store_writable) [
    | inl y ↦ rw (y, release_best_effort) (step-Holds r s (releases o) h (le, inl ne))
    | inr n ↦ rw (n, release_best_effort) h
  ]

  -- A send ends by a commit, or by a release if its request was proved not to be made.
  finish-Holds :
      (r r' : TransactionalSendRecord) (s : Option Document) (env : Environment) (key : String)
      (res : Result Failure Bool)
      → Holds r s
      → env.finish_now ≤ r.expires_at
      → (key ≢ r.key) ⊎ ((f : Failure) → res ≡ err f → definitive f ≡ false)
      → Holds r (finish ctx file_store env key r' res s).0
  unfolding finish
  finish-Holds r r' s env key (ok sent) h le c = finish_committed-Holds r s env _ h le
  finish-Holds r r' s env key (err f) h le c = elim (Bool-cases (definitive f)) [
    | inr may ↦ rw (may, finish) (finish_committed-Holds r s env _ h le)
    | inl def ↦ elim c [
      | inl ne ↦ rw (def, finish) (finish_released-Holds r s env _ h le ne)
      | inr reached ↦ absurd (true_ne (sym def ∙ reached f refl))
    ]
  ]

  -- A world in which the claim of `r` is held and the requests for its key are `sent`.
  abbrev Keeps : TransactionalSendRecord → List (SendInput P) → World (Option Document) P → Type 0
  Keeps r sent w = Holds r w.store × (requests_for r.key w.requests ≡ sent)

  other_key-Keeps :
      (r : TransactionalSendRecord) (w : World (Option Document) P) (env : Environment)
      (input : SendInput P) (key : String) (s : Option Document)
      (res : Result (UpdateError StoreError) TransactionalClaimResult)
      → Holds r s
      → env.finish_now ≤ r.expires_at
      → input.idempotency_key ≡ some key
      → key ≢ r.key
      → Keeps r
          (requests_for r.key w.requests)
          (after_claim ctx file_store env input key w (s, res)).0
  unfolding after_claim
  other_key-Keeps r w env input key s (err e) h le k ne = (h, refl)
  other_key-Keeps r w env input key s (ok (conflict r')) h le k ne = (h, refl)
  other_key-Keeps r w env input key s (ok (replay r')) h le k ne = (h, refl)
  other_key-Keeps r w env input key s (ok (new r')) h le k ne = (
    finish-Holds r r' s env key (dispatch_to_listmonk env.answer) h le (inl ne),
    rw k (ground arith),
  )

  same_key-Keeps :
      (r : TransactionalSendRecord) (w : World (Option Document) P) (env : Environment)
      (input : SendInput P) (s : Option Document) (o : ClaimOptions) (t : TransactionalSendRecord)
      → Holds r s
      → Keeps r
          (requests_for r.key w.requests)
          (after_claim ctx file_store env input r.key w (s, ok (claim_existing o t))).0
  unfolding after_claim
  same_key-Keeps r w env input s o t h = elim (claim_existing_cases o t) [
    | inl e ↦
        subst
          (λ a.
            Keeps r (requests_for r.key w.requests)
              (after_claim ctx file_store env input r.key w (s, ok a)).0)
          (sym e) (h, refl)
    | inr e ↦
        subst
          (λ a.
            Keeps r (requests_for r.key w.requests)
              (after_claim ctx file_store env input r.key w (s, ok a)).0)
          (sym e) (h, refl)
  ]

  -- The key of the claim, sent again: the claim answers, and nothing is requested.
  held_key-Keeps :
      (r : TransactionalSendRecord) (w : World (Option Document) P) (env : Environment)
      (input : SendInput P)
      → Holds r w.store
      → IsSendable (claim_of hash target env input r.key)
      → env.claim_now ≤ r.expires_at
      → Keeps r
          (requests_for r.key w.requests)
          (after_claim ctx file_store env input r.key w
            (claim_transactional_send (claim_of hash target env input r.key) w.store)).0
  unfolding step
  held_key-Keeps r w env input h s le =
      let o = claim_of hash target env input r.key in
      let (t, _, e) = claim_held r w.store o h s refl le refl in
      subst
        (λ a.
          Keeps r (requests_for r.key w.requests)
            (after_claim ctx file_store env input r.key w
              ((claim_transactional_send o w.store).0, a)).0)
        (sym e) (same_key-Keeps r w env input _ o t (step-Holds r w.store (claims o) h (le, s)))

  keyed-Keeps :
      (r : TransactionalSendRecord) (w : World (Option Document) P) (env : Environment)
      (input : SendInput P) (m : Option String)
      → Holds r w.store
      → input.idempotency_key ≡ m
      → InWindow r.expires_at (env, input)
      → Keeps r (requests_for r.key w.requests) (send_keyed ctx env input m w).0
  unfolding send_keyed send_with_key file_store step
  keyed-Keeps r w env input none h k b = (h, rw k refl)
  keyed-Keeps r w env input (some key) h k (s, le, le') = elim (String-cases key r.key) [
    | inl e ↦
        subst (λ j. Keeps r (requests_for r.key w.requests) (send_keyed ctx env input (some j) w).0)
          (sym e) (held_key-Keeps r w env input h (s r.key (k ∙ ap some e)) le)
    | inr ne ↦
        other_key-Keeps r w env input key _ _
          (step-Holds r w.store (claims (claim_of hash target env input key)) h (le, s key k)) le' k
          ne
  ]

  -- The sends that follow, each in its environment.
  pub send_all :
      World (Option Document) P → List (Environment × SendInput P) → World (Option Document) P
  send_all w [] = w
  send_all w ((env, input) ∷ rest) = send_all (send_transactional_message ctx env input w).0 rest

  send_all-Keeps :
      (r : TransactionalSendRecord) (w : World (Option Document) P)
      (calls : List (Environment × SendInput P))
      → Holds r w.store
      → All (InWindow r.expires_at) calls
      → Keeps r (requests_for r.key w.requests) (send_all w calls)
  unfolding send_all send_transactional_message
  send_all-Keeps r w [] h b = (h, refl)
  send_all-Keeps r w ((env, input) ∷ rest) h b =
      let (h', same_requests) = keyed-Keeps r w env input input.idempotency_key h refl b.0 in
      let (h'', later) =
        send_all-Keeps r (send_transactional_message ctx env input w).0 rest h' b.1 in
      (h'', later ∙ same_requests)

  finish_reached :
      (r : TransactionalSendRecord) (s : Option Document) (env : Environment) (key : String)
      (res : Result Failure Bool)
      → ((f : Failure) → (finish ctx file_store env key r res s).1 ≢ err (dispatch_failed f))
      → (f : Failure) → res ≡ err f
      → definitive f ≡ false
  unfolding finish
  finish_reached r s env key (ok sent) n f e = cc
  finish_reached r s env key (err g) n f e = elim (Bool-cases (definitive g)) [
    | inr b ↦ ground (arith, b)
    | inl b ↦ absurd (n g (rw (b, finish)))
  ]

  -- The first send, by what its claim answered: only a fresh claim makes the request.
  first-Holds :
      (w : World (Option Document) P) (env : Environment) (input : SendInput P) (key : String)
      (p : Option Document × Result (UpdateError StoreError) TransactionalClaimResult)
      → IsWellFormedFile w.store
      → IsSendable (claim_of hash target env input key)
      → env.finish_now ≤ env.claim_now + default_transactional_ttl_ms
      → claim_transactional_send (claim_of hash target env input key) w.store ≡ p
      → (after_claim ctx file_store env input key w p).0.requests ≡ input ∷ w.requests
      → ((f : Failure) → (after_claim ctx file_store env input key w p).1 ≢ err (dispatch_failed f))
      → (r : TransactionalSendRecord) × Holds r
          (after_claim ctx file_store env input key w p).0.store
        × (r.key ≡ key)
        × (r.expires_at ≡ env.claim_now + default_transactional_ttl_ms)
  unfolding after_claim
  first-Holds w env input key (s, err e) v q le c g n = absurd (omega (arith, ap length g))
  first-Holds w env input key (s, ok (conflict r)) v q le c g n =
      absurd (omega (arith, ap length g))
  first-Holds w env input key (s, ok (replay r)) v q le c g n = absurd (omega (arith, ap length g))
  first-Holds w env input key (s, ok (new r)) v q le c g n =
      let (h, (k, e)) = claim_new_ok (claim_of hash target env input key) w.store s r v q c in
      (
        r,
        finish-Holds r r s env key (dispatch_to_listmonk env.answer) h (omega arith)
            (inr (finish_reached r s env key (dispatch_to_listmonk env.answer) n)),
        k,
        e,
      )

  abbrev Sent : Type 0
  Sent = World (Option Document) P × Result (SendError (UpdateError StoreError)) SendOutput

  -- What is proved of a send, by the world and the answer that it ends in.
  abbrev IsOnly :
      World (Option Document) P
      → SendInput P
      → String
      → List (Environment × SendInput P)
      → Sent
      → Type 0
  IsOnly w input key calls p =
      p.0.requests ≡ input ∷ w.requests
      → ((f : Failure) → p.1 ≢ err (dispatch_failed f))
      → requests_for key (send_all p.0 calls).requests ≡ requests_for key p.0.requests

  send_claimed :
      (w : World (Option Document) P) (env : Environment) (input : SendInput P) (key : String)
      → input.idempotency_key ≡ some key
      → send_transactional_message ctx env input w
        ≡ after_claim ctx file_store env input key w
            (claim_transactional_send (claim_of hash target env input key) w.store)
  unfolding send_transactional_message send_keyed send_with_key file_store
  send_claimed w env input key k = ap (λ m. send_keyed ctx env input m w) k

  claimed_once :
      (w : World (Option Document) P) (env : Environment) (input : SendInput P) (key : String)
      (calls : List (Environment × SendInput P))
      → IsWellFormedFile w.store
      → IsSendable (claim_of hash target env input key)
      → env.finish_now ≤ env.claim_now + default_transactional_ttl_ms
      → All (InWindow (env.claim_now + default_transactional_ttl_ms)) calls
      → IsOnly w input key calls (
          after_claim ctx file_store env input key w
            (claim_transactional_send (claim_of hash target env input key) w.store))
  claimed_once w env input key calls v q le b g n =
      let (r, h, rk, re) = first-Holds w env input key _ v q le refl g n in
      let p =
        after_claim ctx file_store env input key w
          (claim_transactional_send (claim_of hash target env input key) w.store) in
      subst (λ j. requests_for j (send_all p.0 calls).requests ≡ requests_for j p.0.requests) rk
        (send_all-Keeps r p.0 calls h (rw re b)).1

-- A send with a key that made its request, and whose error (if it ends in one) is not a proof that
-- nothing was sent, is the only one: no sequence of later sends, of this or other keys, that runs
-- within 24 hours of its claim makes another request for the key, even if the store could not be
-- written at the end of any of them. Texts of the claims are not empty.
pub dispatched_once :
    {P : Type 0} (hash : P → String) (target : String) (definitive : Failure → Bool)
    (w : World (Option Document) P) (env : Environment) (input : SendInput P) (key : String)
    (calls : List (Environment × SendInput P))
    → let p = send_transactional_message (FileContext hash target definitive) env input w in
      IsWellFormedFile w.store
      → input.idempotency_key ≡ some key
      → IsSendable (claim_of hash target env input key)
      → env.finish_now ≤ env.claim_now + default_transactional_ttl_ms
      → p.0.requests ≡ input ∷ w.requests
      → ((f : Failure) → p.1 ≢ err (dispatch_failed f))
      → All (InWindow hash target definitive (env.claim_now + default_transactional_ttl_ms)) calls
      → requests_for key (send_all hash target definitive p.0 calls).requests
        ≡ requests_for key p.0.requests
unfolding send_transactional_message
dispatched_once hash target definitive w env input key calls v k q le g n b =
    subst (IsOnly hash target definitive w input key calls)
      (sym (send_claimed hash target definitive w env input key k))
      (claimed_once hash target definitive w env input key calls v q le b) g n
