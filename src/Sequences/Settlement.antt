-- ===== src/Sequences/Settlement.antt =====
-- What the commit or the release of a record by an operator leaves of the live records.
use listmonk_ops.Prelude.{
  ℕ, ◌≤◌, String, Option, none, some, true, if◌then◌else◌, leb, same, ◌≡◌, ◌≢◌, refl, sym, ap,
  subst, ◌∙◌, arith, Bool-cases, inl, inr,
}
use listmonk_ops.Idempotency.{
  Document, TransactionalSendRecord, CommitOptions, ReleaseOptions, accepted, committed_record,
}
use listmonk_ops.Idempotency.Records.{get_own_record}
use listmonk_ops.Idempotency.Files.{contents, IsWellFormedFile}
use listmonk_ops.Idempotency.Refinement.{view, committed, released}
use listmonk_ops.Idempotency.Sweep.{live}
use listmonk_ops.Idempotency.Guarantees.{commit_release_refine}
use listmonk_ops.Sequences.Reconciliation.{
  SequenceAmbiguousResolution, sent, not_sent, is_accepted, settle_record,
}

-- What becomes of the live record of the key: it is there and accepted, or gone. Where none is live,
-- none is afterwards.
abbrev pub Outcome :
    SequenceAmbiguousResolution
    → Option TransactionalSendRecord
    → Option TransactionalSendRecord
    → Type 0
Outcome sent none after = after ≡ none
Outcome sent (some x) after =
    (y : TransactionalSendRecord) × (after ≡ some y) × (y.status ≡ accepted)
Outcome not_sent before after = after ≡ none

-- Only the live record of the key changes.
abbrev pub Settles :
    SequenceAmbiguousResolution → String → ℕ → Option Document → Option Document → Type 0
Settles resolution key now file after =
    ((later : ℕ) (k : String)
      → now ≤ later
      → key ≢ k
      → view (contents after) later k ≡ view (contents file) later k)
    × Outcome resolution (view (contents file) now key) (view (contents after) now key)

commit_of : String → TransactionalSendRecord → ℕ → CommitOptions
commit_of key r now = record {
  key = key;
  claim_token = r.claim_token;
  status = accepted;
  sent = some true;
  error_message = none;
  now = now;
}

release_of : String → TransactionalSendRecord → ℕ → ReleaseOptions
release_of key r now = record { key = key; claim_token = r.claim_token; now = now }

if-other {ℓ} : {A : Type ℓ} (key k : String) (a b : A) → key ≢ k → (if same key k then a else b) ≡ b
if-other key k a b n = ground arith

if-own {ℓ} : {A : Type ℓ} (key : String) (a b : A) → (if same key key then a else b) ≡ a
if-own key a b = ground arith

-- The live record after the commit or the release of its own claim.
committed-Outcome :
    (key : String) (r : TransactionalSendRecord) (now : ℕ)
    → Outcome sent
        (live now (some r))
        (live now (committed (commit_of key r now) (live now (some r))))
unfolding commit_of committed_record
committed-Outcome key r now = elim (Bool-cases (leb now r.expires_at)) [
  | inl b ↦
      let c = committed_record (commit_of key r now) r in
      rw b (c, ap (live now) (if-own r.claim_token (some c) (some r)) ∙ live-own b, refl)
  | inr b ↦ rw b refl
]
  where
    live-own :
        {y : TransactionalSendRecord} → leb now y.expires_at ≡ true → live now (some y) ≡ some y
    live-own h = ground arith

released-none :
    (key : String) (r : TransactionalSendRecord) (now : ℕ)
    → live now (released (release_of key r now) (live now (some r))) ≡ none
unfolding release_of
released-none key r now = elim (Bool-cases (leb now r.expires_at)) [
  | inl b ↦ rw b (ap (live now) (if-own r.claim_token none (some r)))
  | inr b ↦ rw b refl
]

-- A record that is accepted already stays.
accepted-Outcome :
    (r : TransactionalSendRecord) (now : ℕ)
    → is_accepted r.status ≡ true
    → Outcome sent (live now (some r)) (live now (some r))
accepted-Outcome r now h = elim (Bool-cases (leb now r.expires_at)) [
  | inl b ↦ rw b (r, refl, ground arith)
  | inr b ↦ rw b refl
]

pub settle_record-Settles :
    (resolution : SequenceAmbiguousResolution) (key : String) (r : TransactionalSendRecord)
    (now : ℕ) (file : Option Document)
    → IsWellFormedFile file
    → get_own_record (contents file) key ≡ some r
    → Settles resolution key now file (settle_record resolution key r now file).0
unfolding settle_record commit_of release_of
settle_record-Settles sent key r now file w g = elim (Bool-cases (is_accepted r.status)) [
  | inl b ↦
      rw (b, settle_record)
        (
          (λ later k le n. refl),
          subst (λ m. Outcome sent (live now m) (live now m)) (sym g) (accepted-Outcome r now b),
        )
  | inr b ↦
      let sets = (commit_release_refine file (commit_of key r now) (release_of key r now) w).0 in
      let before = view (contents file) now key in
      let after = committed (commit_of key r now) before in
      rw (b, settle_record)
        (
          (λ later k le n.
              sets later k le ∙ if-other key k (live later after) (view (contents file) later k) n),
          subst (Outcome sent before)
              (sym (sets now key (omega arith) ∙ if-own key (live now after) before))
              (subst
                (λ m.
                  Outcome sent (live now m)
                    (live now (committed (commit_of key r now) (live now m))))
                (sym g) (committed-Outcome key r now)),
        )
]
settle_record-Settles not_sent key r now file w g =
    let sets = (commit_release_refine file (commit_of key r now) (release_of key r now) w).1 in
    let after = released (release_of key r now) (view (contents file) now key) in
    (
      (λ later k le n.
          sets later k le ∙ if-other key k (live later after) (view (contents file) later k) n),
      sets now key (omega arith)
          ∙ if-own key (live now after) (view (contents file) now key)
          ∙ ap (λ m. live now (released (release_of key r now) (live now m))) g
          ∙ released-none key r now,
    )
