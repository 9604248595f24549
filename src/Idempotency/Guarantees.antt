-- ===== src/Idempotency/Guarantees.antt =====
-- What callers of the store rely on: one fresh claim for a key while its record is live, writes
-- that pass the schema, and tokens that bind commits and releases to their claim.
use listmonk_ops.Prelude.{
  Result-cases, ◌+◌, ◌≤◌, Option, none, some, false, ◌≡◌, refl, arith, Result, ok, err, Bool-cases,
  inl, inr, sym, ◌∙◌, subst, ap, List, [], ◌∷◌, All, ◌==◌,
}
use listmonk_ops.JsonStore.{UpdateError, invalid_value, invalid_file, threw}
use listmonk_ops.Idempotency.{
  Document, TransactionalSendRecord, ClaimOptions, CommitOptions, ReleaseOptions,
  TransactionalClaimResult, new, StoreError, claim_update, pending_record, claim_existing,
  sweep_expired_records, is_stored_transactional_document, resolve_ttl, claim_transactional_send,
  commit_transactional_send, release_transactional_send,
}
use listmonk_ops.Idempotency.Validity.{
  IsWellFormed, IsSendable, IsStored, claim_update-IsWellFormed, commit_update-IsWellFormed,
  release_update-IsWellFormed,
}
use listmonk_ops.Idempotency.Refinement.{
  view, claim_answer, committed, released, Sets, claim_update_refines, commit_update_lem,
  release_update_lem, commit-Sets, release-Sets,
}
use listmonk_ops.Idempotency.Sweep.{get-sweep}
use listmonk_ops.Idempotency.Files.{
  contents, IsWellFormedFile, update_lem, update_err, claim_no_ttl, claim_ttl,
}
use listmonk_ops.Idempotency.Window.{
  Call, claims, commits, releases, step, run, IsBenign, SameClaim, Holds, run-Holds, view_earlier,
  new_claim-Holds,
}

ok_ne :
    {A : Type 0} {file file' : Option Document} {x : UpdateError StoreError} {a : A}
    → ◌≡◌ {A = Option Document × Result (UpdateError StoreError) A} (file, err x) (file', ok a)
    → ⊥
ok_ne e = cc e

pair_parts :
    (d' : Document) (answer : TransactionalClaimResult) (file' : Option Document)
    (r : TransactionalSendRecord)
    → ◌≡◌ {A = Option Document × Result (UpdateError StoreError) TransactionalClaimResult}
        (some d', ok answer)
        (file', ok (new r))
    → (some d' ≡ file') × (answer ≡ new r)
pair_parts d' answer file' r e = ground arith

new_key :
    (o : ClaimOptions) (r : TransactionalSendRecord) (m : Option TransactionalSendRecord)
    → new r ≡ claim_answer o m
    → (r.key ≡ o.key) × (r.expires_at ≡ o.now + resolve_ttl o.ttl_ms)
unfolding claim_existing pending_record
new_key o r none e = ground arith
new_key o r (some s) e = ground arith

claim_live_answer :
    (o : ClaimOptions) (d d' : Document) (answer : TransactionalClaimResult)
    (s : TransactionalSendRecord)
    → IsWellFormed d
    → view d o.now o.key ≡ some s
    → claim_update o d ≡ ok (d', answer)
    → answer ≡ claim_existing o s
claim_live_answer o d d' answer s w v e = (claim_update_refines o d d' answer w.distinct e).0 ∙ rw v

-- A claim on a key whose record is live succeeds.
claim_live_ok :
    (o : ClaimOptions) (d : Document) (s : TransactionalSendRecord)
    → IsWellFormed d
    → view d o.now o.key ≡ some s
    → (d' : Document) × (claim_update o d ≡ ok (d', claim_existing o s))
unfolding claim_update
claim_live_ok o d s w v =
    (sweep_expired_records d o.now, ground (arith, get-sweep d o.now o.key w.distinct))

pub claim_held :
    (r : TransactionalSendRecord) (file : Option Document) (o : ClaimOptions)
    → Holds r file
    → IsSendable o
    → o.key ≡ r.key
    → o.now ≤ r.expires_at
    → (resolve_ttl o.ttl_ms == 0) ≡ false
    → (s : TransactionalSendRecord) × SameClaim s r
      × ((claim_transactional_send o file).1 ≡ ok (claim_existing o s))
claim_held r file o h s k le nz =
    let (d', e) =
      claim_live_ok o (contents file) h.stored h.well_formed
        (view_earlier (contents file) o.key r h.stored o.now le (rw k h.found)) in
    (
      h.stored,
      h.same_claim,
      ap (λ p. p.1)
          (claim_ttl o file nz
            ∙ update_lem _ file d' _ h.well_formed e
                (claim_update-IsWellFormed o _ d' _ h.well_formed s e).stored),
    )

pub claim_new_ok :
    (o : ClaimOptions) (file file' : Option Document) (r : TransactionalSendRecord)
    → IsWellFormedFile file
    → IsSendable o
    → claim_transactional_send o file ≡ (file', ok (new r))
    → Holds r file' × ((r.key ≡ o.key) × (r.expires_at ≡ o.now + resolve_ttl o.ttl_ms))
claim_new_ok o file file' r w s e = elim (Bool-cases (resolve_ttl o.ttl_ms == 0)) [
  | inl z ↦ absurd (ok_ne (sym (claim_no_ttl o file z) ∙ e))
  | inr nz ↦ elim (Result-cases (claim_update o (contents file))) [
    | inl (x, c) ↦ absurd (ok_ne (sym (claim_ttl o file nz ∙ update_err _ file x w c) ∙ e))
    | inr ((d', answer), c) ↦
        let v = (claim_update-IsWellFormed o _ d' answer w s c).stored in
        let same_pair = sym (claim_ttl o file nz ∙ update_lem _ file d' answer w c v) ∙ e in
        let (p, q) = pair_parts d' answer file' r same_pair in
        (
          subst (Holds r) p (new_claim-Holds o file d' r w s (c ∙ rw q)),
          new_key o r _ (sym q ∙ (claim_update_refines o _ d' answer w.distinct c).0),
        )
  ]
]

-- After a fresh claim, whatever other claims, commits and releases follow before the record
-- expires (none of them a release by its owner), a second claim of the key is answered from the
-- same record: it is replayed if payload and target are the same, and conflicts if not.
pub claim_once :
    (o : ClaimOptions) (file file' : Option Document) (r : TransactionalSendRecord) (cs : List Call)
    (o' : ClaimOptions)
    → IsWellFormedFile file
    → IsSendable o
    → claim_transactional_send o file ≡ (file', ok (new r))
    → All (IsBenign r) cs
    → IsSendable o'
    → o'.key ≡ o.key
    → o'.now ≤ r.expires_at
    → (resolve_ttl o'.ttl_ms == 0) ≡ false
    → (s : TransactionalSendRecord) × SameClaim s r
      × ((claim_transactional_send o' (run file' cs)).1 ≡ ok (claim_existing o' s))
claim_once o file file' r cs o' w s e b s' k le nz =
    let (h, fresh) = claim_new_ok o file file' r w s e in
    claim_held r (run file' cs) o' (run-Holds r file' cs h b) s' (k ∙ sym fresh.0) le nz

-- What a call may report: a success or one of the two errors of the store itself, never a failed
-- validation of the file or of the value that it writes.
abbrev NoInvalid : {A : Type 0} → Result (UpdateError StoreError) A → Type 0
NoInvalid (ok a) = Unit
NoInvalid (err (threw x)) = Unit
NoInvalid (err invalid_file) = ⊥
NoInvalid (err invalid_value) = ⊥

-- The arguments of the call pass the schema.
abbrev IsAdmissible : Call → Type 0
IsAdmissible (claims o) = IsSendable o
IsAdmissible (commits o) = Unit
IsAdmissible (releases o) = Unit

abbrev IsSafe : {A : Type 0} → Option Document × Result (UpdateError StoreError) A → Type 0
IsSafe p = IsWellFormedFile p.0 × NoInvalid p.1

pub claim-IsSafe :
    (o : ClaimOptions) (file : Option Document)
    → IsWellFormedFile file
    → IsSendable o
    → IsSafe (claim_transactional_send o file)
claim-IsSafe o file w s = elim (Bool-cases (resolve_ttl o.ttl_ms == 0)) [
  | inl z ↦ subst IsSafe (sym (claim_no_ttl o file z)) (w, tt)
  | inr nz ↦ elim (Result-cases (claim_update o (contents file))) [
    | inl (x, c) ↦ subst IsSafe (sym (claim_ttl o file nz ∙ update_err _ file x w c)) (w, tt)
    | inr ((d', answer), c) ↦
        let w' = claim_update-IsWellFormed o _ d' answer w s c in
        subst IsSafe (sym (claim_ttl o file nz ∙ update_lem _ file d' answer w c w'.stored))
          (w', tt)
  ]
]

pub commit-IsSafe :
    (o : CommitOptions) (file : Option Document)
    → IsWellFormedFile file
    → IsSafe (commit_transactional_send o file)
unfolding commit_transactional_send
commit-IsSafe o file w =
    let e = commit_update_lem o (contents file) w.distinct in
    let w' = commit_update-IsWellFormed o (contents file) _ tt w e in
    subst IsSafe (sym (update_lem _ file _ tt w e w'.stored)) (w', tt)

pub release-IsSafe :
    (o : ReleaseOptions) (file : Option Document)
    → IsWellFormedFile file
    → IsSafe (release_transactional_send o file)
unfolding release_transactional_send
release-IsSafe o file w =
    let e = release_update_lem o (contents file) w.distinct in
    let w' = release_update-IsWellFormed o (contents file) _ tt w e in
    subst IsSafe (sym (update_lem _ file _ tt w e w'.stored)) (w', tt)

step-IsWellFormedFile :
    (file : Option Document) (c : Call)
    → IsWellFormedFile file
    → IsAdmissible c
    → IsWellFormedFile (step file c)
unfolding step
step-IsWellFormedFile file (claims o) w a = (claim-IsSafe o file w a).0
step-IsWellFormedFile file (commits o) w a = (commit-IsSafe o file w).0
step-IsWellFormedFile file (releases o) w a = (release-IsSafe o file w).0

run_from-IsWellFormedFile :
    (file : Option Document) (cs : List Call)
    → IsWellFormedFile file
    → All IsAdmissible cs
    → IsWellFormedFile (run file cs)
unfolding run
run_from-IsWellFormedFile file [] w a = w
run_from-IsWellFormedFile file (c ∷ cs) w a =
    run_from-IsWellFormedFile (step file c) cs (step-IsWellFormedFile file c w a.0) a.1

empty-IsStored : IsStored []
unfolding is_stored_transactional_document
empty-IsStored = refl

-- From an absent file, any sequence of claims with non-empty arguments, commits and releases keeps
-- the file readable: distinct keys, records that pass the schema (accepted means sent, failed means
-- not sent), and at most 10,000 of them.
pub run-IsWellFormedFile : (cs : List Call) → All IsAdmissible cs → IsWellFormedFile (run none cs)
run-IsWellFormedFile cs a =
    run_from-IsWellFormedFile none cs
      (record { distinct = tt; stored = empty-IsStored; bounded = omega arith }) a

-- What the commit and the release of a key do to the map of live records: they change the entry of
-- that key only, and that only if the live record there has the caller's claim token, in which case
-- it takes the new status or goes.
pub commit_release_refine :
    (file : Option Document) (c : CommitOptions) (x : ReleaseOptions)
    → IsWellFormedFile file
    → Sets
        (contents file)
        (contents (commit_transactional_send c file).0)
        c.now
        c.key
        (committed c (view (contents file) c.now c.key))
      × Sets
          (contents file)
          (contents (release_transactional_send x file).0)
          x.now
          x.key
          (released x (view (contents file) x.now x.key))
unfolding commit_transactional_send release_transactional_send
commit_release_refine file c x w =
    let d = contents file in
    let e = commit_update_lem c d w.distinct in
    let f = release_update_lem x d w.distinct in
    (
      subst (λ p. Sets d (contents p.0) c.now c.key (committed c (view d c.now c.key)))
          (sym (update_lem _ file _ tt w e (commit_update-IsWellFormed c d _ tt w e).stored))
          (commit-Sets c d _ w.distinct refl),
      subst (λ p. Sets d (contents p.0) x.now x.key (released x (view d x.now x.key)))
          (sym (update_lem _ file _ tt w f (release_update-IsWellFormed x d _ tt w f).stored))
          (release-Sets x d _ w.distinct refl),
    )
