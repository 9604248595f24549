-- ===== src/Idempotency/Refinement.antt =====
-- The document as an abstract map from keys to live records, and each operation as a step on it.
use listmonk_ops.Prelude.{
  ℕ, ◌≤◌, String, Option, none, some, ◌≡◌, refl, if◌then◌else◌, same, arith, ok, Bool-cases, inl,
  inr, subst,
}
use listmonk_ops.Idempotency.{
  Document, TransactionalSendRecord, ClaimOptions, CommitOptions, ReleaseOptions,
  TransactionalClaimResult, new, claim_update, commit_update, release_update, committed_record,
  pending_record, claim_existing, sweep_expired_records,
}
use listmonk_ops.Idempotency.Records.{
  get_own_record, set_record, delete_record, get-set, get-delete, Distinct,
}
use listmonk_ops.Idempotency.Sweep.{live, live-live, get-sweep, sweep-Distinct}

-- The abstract state at a time: which record answers for a key.
abbrev pub view : Document → ℕ → String → Option TransactionalSendRecord
view d now k = live now (get_own_record d k)

view-sweep :
    (d : Document) (now later : ℕ) (k : String)
    → Distinct d
    → now ≤ later
    → view (sweep_expired_records d now) later k ≡ view d later k
view-sweep d now later k h le =
    rw (get-sweep d now k h) (live-live now later (get_own_record d k) le)

-- What a claim answers, by the live record of its key.
abbrev pub claim_answer : ClaimOptions → Option TransactionalSendRecord → TransactionalClaimResult
claim_answer o none = new (pending_record o)
claim_answer o (some r) = claim_existing o r

-- What a claim leaves at its own key.
abbrev pub claimed : ClaimOptions → Option TransactionalSendRecord → Option TransactionalSendRecord
claimed o none = some (pending_record o)
claimed o (some r) = some r

-- A step on the abstract map: only the entry of `key` changes, to `after`.
abbrev pub Sets : Document → Document → ℕ → String → Option TransactionalSendRecord → Type 0
Sets d d' now key after =
    (later : ℕ) (k : String)
    → now ≤ later
    → view d' later k ≡ (if same key k then live later after else view d later k)

swept-Sets :
    (d : Document) (now : ℕ) (key : String)
    → Distinct d
    → Sets d (sweep_expired_records d now) now key (view d now key)
swept-Sets d now key h later k le =
    ground (arith, view-sweep d now later k h le, live-live now later (get_own_record d k) le)

set-Sets :
    (d : Document) (now : ℕ) (key : String) (r : TransactionalSendRecord)
    → Distinct d
    → Sets d (set_record (sweep_expired_records d now) key r) now key (some r)
set-Sets d now key r h later k le =
    ground (arith, view-sweep d now later k h le, get-set (sweep_expired_records d now) key k r)

delete-Sets :
    (d : Document) (now : ℕ) (key : String)
    → Distinct d
    → Sets d (delete_record (sweep_expired_records d now) key) now key none
delete-Sets d now key h later k le = ground (
  arith,
  view-sweep d now later k h le,
  get-delete (sweep_expired_records d now) key k (sweep-Distinct d now h),
)

claim_cases :
    (o : ClaimOptions) (d : Document) (m : Option TransactionalSendRecord) {d' : Document}
    {answer : TransactionalClaimResult}
    → Distinct d
    → view d o.now o.key ≡ m
    → claim_update o d ≡ ok (d', answer)
    → (answer ≡ claim_answer o m) × Sets d d' o.now o.key (claimed o m)
unfolding claim_update
claim_cases o d none h v e = (
  ground (arith, get-sweep d o.now o.key h),
  subst (λ x. Sets d x o.now o.key (some (pending_record o)))
      (ground (arith, get-sweep d o.now o.key h)) (set-Sets d o.now o.key (pending_record o) h),
)
claim_cases o d (some r) h v e = (
  ground (arith, get-sweep d o.now o.key h),
  subst (λ x. Sets d x o.now o.key (some r)) (ground (arith, get-sweep d o.now o.key h))
      (subst (λ x. Sets d (sweep_expired_records d o.now) o.now o.key x) v
        (swept-Sets d o.now o.key h)),
)

-- A claim that succeeds answers by the live record of its key alone: a fresh claim if there is
-- none, and otherwise a replay or a conflict. It changes the map at no other key, nor at its own
-- if a live record stands there.
pub claim_update_refines :
    (o : ClaimOptions) (d d' : Document) (answer : TransactionalClaimResult)
    → Distinct d
    → claim_update o d ≡ ok (d', answer)
    → (answer ≡ claim_answer o (view d o.now o.key))
      × Sets d d' o.now o.key (claimed o (view d o.now o.key))
claim_update_refines o d d' answer h e = claim_cases o d (view d o.now o.key) h refl e

-- What a commit leaves at its key: only the holder of the claim token changes the record.
abbrev pub committed :
    CommitOptions → Option TransactionalSendRecord → Option TransactionalSendRecord
committed o none = none
committed o (some r) =
    if same r.claim_token o.claim_token then some (committed_record o r) else some r

-- What a release leaves at its key.
abbrev pub released :
    ReleaseOptions → Option TransactionalSendRecord → Option TransactionalSendRecord
released o none = none
released o (some r) = if same r.claim_token o.claim_token then none else some r

-- The documents that a commit and a release leave.
abbrev pub commit_document : CommitOptions → Document → Option TransactionalSendRecord → Document
commit_document o swept none = swept
commit_document o swept (some r) =
    if same r.claim_token o.claim_token
    then set_record swept o.key (committed_record o r)
    else swept

abbrev pub release_document : ReleaseOptions → Document → Option TransactionalSendRecord → Document
release_document o swept none = swept
release_document o swept (some r) =
    if same r.claim_token o.claim_token then delete_record swept o.key else swept

pub commit_update_lem :
    (o : CommitOptions) (d : Document)
    → Distinct d
    → commit_update o d
      ≡ ok (commit_document o (sweep_expired_records d o.now) (view d o.now o.key), tt)
unfolding commit_update
commit_update_lem o d h = ground (arith, get-sweep d o.now o.key h)

pub release_update_lem :
    (o : ReleaseOptions) (d : Document)
    → Distinct d
    → release_update o d
      ≡ ok (release_document o (sweep_expired_records d o.now) (view d o.now o.key), tt)
unfolding release_update
release_update_lem o d h = ground (arith, get-sweep d o.now o.key h)

pub commit-Sets :
    (o : CommitOptions) (d : Document) (m : Option TransactionalSendRecord)
    → Distinct d
    → view d o.now o.key ≡ m
    → Sets d (commit_document o (sweep_expired_records d o.now) m) o.now o.key (committed o m)
commit-Sets o d none h v = subst (Sets d _ o.now o.key) v (swept-Sets d o.now o.key h)
commit-Sets o d (some r) h v = elim (Bool-cases (same r.claim_token o.claim_token)) [
  | inl e ↦ rw e (set-Sets d o.now o.key (committed_record o r) h)
  | inr e ↦ rw e (subst (Sets d _ o.now o.key) v (swept-Sets d o.now o.key h))
]

pub release-Sets :
    (o : ReleaseOptions) (d : Document) (m : Option TransactionalSendRecord)
    → Distinct d
    → view d o.now o.key ≡ m
    → Sets d (release_document o (sweep_expired_records d o.now) m) o.now o.key (released o m)
release-Sets o d none h v = subst (Sets d _ o.now o.key) v (swept-Sets d o.now o.key h)
release-Sets o d (some r) h v = elim (Bool-cases (same r.claim_token o.claim_token)) [
  | inl e ↦ rw e (delete-Sets d o.now o.key h)
  | inr e ↦ rw e (subst (Sets d _ o.now o.key) v (swept-Sets d o.now o.key h))
]
