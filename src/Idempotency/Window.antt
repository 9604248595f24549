-- ===== src/Idempotency/Window.antt =====
-- Sequences of calls on the store: while a claimed record is live, nobody is told to dispatch again.
use listmonk_ops.Prelude.{
  Result-cases, ℕ, ◌≤◌, String, Option, none, some, true, ◌≡◌, ◌≢◌, refl, if◌then◌else◌, same,
  arith, ok, Bool-cases, inl, inr, ◌⊎◌, sym, ◌∙◌, subst, List, [], ◌∷◌, All, String_discrete, ◌==◌,
}
use listmonk_ops.Idempotency.{
  Document, TransactionalSendRecord, ClaimOptions, CommitOptions, ReleaseOptions,
  TransactionalClaimResult, new, claim_update, committed_record, pending_record, claim_existing,
  resolve_ttl, claim_transactional_send, commit_transactional_send, release_transactional_send,
}
use listmonk_ops.Idempotency.Validity.{
  IsSendable, claim_update-IsWellFormed, commit_update-IsWellFormed, release_update-IsWellFormed,
}
use listmonk_ops.Idempotency.Refinement.{
  view, claim_answer, claimed, Sets, claim_update_refines, commit_update_lem, release_update_lem,
  commit-Sets, release-Sets,
}
use listmonk_ops.Idempotency.Sweep.{live}
use listmonk_ops.Idempotency.Files.{
  contents, IsWellFormedFile, update_lem, update_err, claim_no_ttl, claim_ttl,
}

pub String-cases : (s t : String) → (s ≡ t) ⊎ (s ≢ t)
String-cases s t = elim (String_discrete s t) [ yes e ↦ inl e | no n ↦ inr n ]

-- The three calls, with the time that each reads.
pub data Call : Type 0 where
  claims : ClaimOptions → Call
  commits : CommitOptions → Call
  releases : ReleaseOptions → Call

-- The file after a call, which may have thrown.
unfoldable pub step : Option Document → Call → Option Document
step file (claims o) = (claim_transactional_send o file).0
step file (commits o) = (commit_transactional_send o file).0
step file (releases o) = (release_transactional_send o file).0

unfoldable pub run : Option Document → List Call → Option Document
run file [] = file
run file (c ∷ cs) = run (step file c) cs

-- A call keeps the claim of `r` if it comes before the record expires and is no release by its
-- owner; its arguments pass the schema.
abbrev pub IsBenign : TransactionalSendRecord → Call → Type 0
IsBenign r (claims o) = (o.now ≤ r.expires_at) × IsSendable o
IsBenign r (commits o) = o.now ≤ r.expires_at
IsBenign r (releases o) =
    (o.now ≤ r.expires_at) × ((o.key ≢ r.key) ⊎ (o.claim_token ≢ r.claim_token))

-- Two records stand for one claim.
pub record SameClaim (r s : TransactionalSendRecord) : Type 0 where
  pub token : r.claim_token ≡ s.claim_token
  pub payload : r.payload_hash ≡ s.payload_hash
  pub target : r.target_hash ≡ s.target_hash
  pub expiry : r.expires_at ≡ s.expires_at

-- The file is well formed and holds the claim of `r`.
pub record Holds (r : TransactionalSendRecord) (file : Option Document) : Type 0 where
  pub well_formed : IsWellFormedFile file
  pub stored : TransactionalSendRecord
  pub found : view (contents file) r.expires_at r.key ≡ some stored
  pub same_claim : SameClaim stored r

pub view_earlier :
    (d : Document) (k : String) (r s : TransactionalSendRecord) (now : ℕ)
    → now ≤ r.expires_at
    → view d r.expires_at k ≡ some s
    → view d now k ≡ some s
view_earlier d k r s now le e = ground arith

-- A step on the abstract map keeps a claim if it leaves one record of the claim at its key.
keep_claim :
    (r : TransactionalSendRecord) (d d' : Document) (now : ℕ) (key : String)
    (after : Option TransactionalSendRecord) (s s' : TransactionalSendRecord)
    → now ≤ r.expires_at
    → Sets d d' now key after
    → view d r.expires_at r.key ≡ some s
    → SameClaim s r
    → SameClaim s' r
    → ((key ≡ r.key) → after ≡ some s')
    → (t : TransactionalSendRecord) × (view d' r.expires_at r.key ≡ some t) × SameClaim t r
keep_claim r d d' now key after s s' le sets e q q' here = elim (String-cases key r.key) [
  | inl k ↦ (s', sets r.expires_at r.key le ∙ ground (arith, here k, q'.expiry), q')
  | inr k ↦ (s, sets r.expires_at r.key le ∙ ground arith, q)
]

claim_answer-replay :
    (o : ClaimOptions) (s : TransactionalSendRecord) (m : Option TransactionalSendRecord)
    → m ≡ some s
    → claimed o m ≡ some s
claim_answer-replay o s m e = rw e

-- The commit of a record is a record of the same claim.
committed_record-SameClaim :
    (o : CommitOptions) (s r : TransactionalSendRecord)
    → SameClaim s r
    → SameClaim (committed_record o s) r
unfolding committed_record
committed_record-SameClaim o s r q = record {
  token = q.token;
  payload = q.payload;
  target = q.target;
  expiry = q.expiry;
}

module _ (r : TransactionalSendRecord) (file : Option Document) (h : Holds r file) where
  abbrev d : Document
  d = contents file

  claim_ok-Holds :
      (o : ClaimOptions) (d' : Document) (answer : TransactionalClaimResult)
      → o.now ≤ r.expires_at
      → IsSendable o
      → claim_update o d ≡ ok (d', answer)
      → Holds r (some d')
  claim_ok-Holds o d' answer le s e =
      let (t, found, q) =
        keep_claim r d d' o.now o.key _ h.stored h.stored le
          (claim_update_refines o d d' answer h.well_formed.distinct e).1 h.found h.same_claim
          h.same_claim
          (λ k.
            claim_answer-replay o h.stored _
              (view_earlier d o.key r h.stored o.now le (rw k h.found))) in
      record {
        well_formed = claim_update-IsWellFormed o d d' answer h.well_formed s e;
        stored = t;
        found = found;
        same_claim = q;
      }

  claims-Holds :
      (o : ClaimOptions) → o.now ≤ r.expires_at → IsSendable o → Holds r (step file (claims o))
  unfolding step
  claims-Holds o le s = elim (Bool-cases (resolve_ttl o.ttl_ms == 0)) [
    | inl z ↦ subst (λ p. Holds r p.0) (sym (claim_no_ttl o file z)) h
    | inr nz ↦ elim (Result-cases (claim_update o d)) [
      | inl (x, e) ↦
          subst (λ p. Holds r p.0) (sym (claim_ttl o file nz ∙ update_err _ file x h.well_formed e))
            h
      | inr ((d', answer), e) ↦
          subst (λ p. Holds r p.0)
            (sym (
              claim_ttl o file nz
              ∙ update_lem _ file d' answer h.well_formed e
                  (claim_update-IsWellFormed o d d' answer h.well_formed s e).stored))
            (claim_ok-Holds o d' answer le s e)
    ]
  ]

  commits-Holds : (o : CommitOptions) → o.now ≤ r.expires_at → Holds r (step file (commits o))
  unfolding step commit_transactional_send
  commits-Holds o le =
      let e = commit_update_lem o d h.well_formed.distinct in
      let w = commit_update-IsWellFormed o d _ tt h.well_formed e in
      let (t, found, q) =
        keep_claim r d _ o.now o.key _ h.stored
          (if same h.stored.claim_token o.claim_token
            then committed_record o h.stored
            else h.stored)
          le (commit-Sets o d _ h.well_formed.distinct refl) h.found h.same_claim
          (elim (Bool-cases (same h.stored.claim_token o.claim_token)) [
            | inl b ↦ rw b (committed_record-SameClaim o h.stored r h.same_claim)
            | inr b ↦ rw b h.same_claim
          ])
          (λ k. rw (view_earlier d o.key r h.stored o.now le (rw k h.found)) (ground arith)) in
      subst (λ p. Holds r p.0) (sym (update_lem _ file _ tt h.well_formed e w.stored))
        (record { well_formed = w; stored = t; found = found; same_claim = q })

  releases-Holds :
      (o : ReleaseOptions)
      → o.now ≤ r.expires_at
      → (o.key ≢ r.key) ⊎ (o.claim_token ≢ r.claim_token)
      → Holds r (step file (releases o))
  unfolding step release_transactional_send
  releases-Holds o le other =
      let e = release_update_lem o d h.well_formed.distinct in
      let w = release_update-IsWellFormed o d _ tt h.well_formed e in
      let (t, found, q) =
        keep_claim r d _ o.now o.key _ h.stored h.stored le
          (release-Sets o d _ h.well_formed.distinct refl) h.found h.same_claim h.same_claim
          (λ k.
            rw (view_earlier d o.key r h.stored o.now le (rw k h.found))
              (ground (arith, k, h.same_claim.token))) in
      subst (λ p. Holds r p.0) (sym (update_lem _ file _ tt h.well_formed e w.stored))
        (record { well_formed = w; stored = t; found = found; same_claim = q })

pub step-Holds :
    (r : TransactionalSendRecord) (file : Option Document) (c : Call)
    → Holds r file
    → IsBenign r c
    → Holds r (step file c)
step-Holds r file (claims o) h b = claims-Holds r file h o b.0 b.1
step-Holds r file (commits o) h b = commits-Holds r file h o b
step-Holds r file (releases o) h b = releases-Holds r file h o b.0 b.1

-- While a claim is live, no sequence of other calls loses it.
pub run-Holds :
    (r : TransactionalSendRecord) (file : Option Document) (cs : List Call)
    → Holds r file
    → All (IsBenign r) cs
    → Holds r (run file cs)
unfolding run
run-Holds r file [] h b = h
run-Holds r file (c ∷ cs) h b = run-Holds r (step file c) cs (step-Holds r file c h b.0) b.1

new_answer :
    (o : ClaimOptions) (m : Option TransactionalSendRecord) (r : TransactionalSendRecord)
    → new r ≡ claim_answer o m
    → (m ≡ none) × (r ≡ pending_record o)
unfolding claim_existing
new_answer o none r e = (refl, cc)
new_answer o (some s) r e = ground arith

pending_record_expiry : (o : ClaimOptions) → o.now ≤ (pending_record o).expires_at
unfolding pending_record
pending_record_expiry o = omega arith

pending_record_key : (o : ClaimOptions) → same o.key (pending_record o).key ≡ true
unfolding pending_record
pending_record_key o = ground arith

live-pending_record :
    (o : ClaimOptions)
    → live (pending_record o).expires_at (some (pending_record o)) ≡ some (pending_record o)
live-pending_record o = ground arith

-- A fresh claim is held by the file that it leaves.
pub new_claim-Holds :
    (o : ClaimOptions) (file : Option Document) (d' : Document) (r : TransactionalSendRecord)
    → IsWellFormedFile file
    → IsSendable o
    → claim_update o (contents file) ≡ ok (d', new r)
    → Holds r (some d')
new_claim-Holds o file d' r w s e =
    let (answer, sets) = claim_update_refines o (contents file) d' (new r) w.distinct e in
    let (fresh, p) = new_answer o _ r answer in
    record {
      well_formed = claim_update-IsWellFormed o (contents file) d' (new r) w s e;
      stored = r;
      found = rw p (
          sets _ _ (pending_record_expiry o)
          ∙ rw (fresh, pending_record_key o) (live-pending_record o));
      same_claim = record { token = refl; payload = refl; target = refl; expiry = refl };
    }
