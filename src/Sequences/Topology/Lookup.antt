-- ===== src/Sequences/Topology/Lookup.antt =====
-- Where a step of a validated list is found: by identifier, by test, by position.
use listmonk_ops.Prelude.{
  ℕ, zero, suc, String, some, Bool, List, [], ◌∷◌, same, find, get_elem?, All, ◌≡◌, ◌≢◌, arith,
  subst, Bool-cases, inl, inr, String_discrete,
}
use listmonk_ops.Sequences.{SequenceStep, step_id}
use listmonk_ops.Sequences.Topology.{find_step_index}
use listmonk_ops.Sequences.Topology.Sound.{UniqueIds, IsFresh}

pub All-find {ℓ κ} :
    {A : Type ℓ} (P : A → Type κ) (p : A → Bool) (xs : List A) (x : A)
    → All P xs
    → find p xs ≡ some x
    → P x
All-find P p [] x h e = absurd (ground arith)
All-find P p (y ∷ ys) x h e = elim (Bool-cases (p y)) [
  | inl b ↦ subst P {x = y} {y = x} (ground arith) h.0
  | inr b ↦ All-find P p ys x h.1 (ground arith)
]

pub find-find_step_index :
    (id : String) (steps : List SequenceStep) (s : SequenceStep)
    → find (λ t. same (step_id t) id) steps ≡ some s
    → (i : ℕ) × (find_step_index id steps ≡ some i) × (step_id s ≡ id)
unfolding find_step_index
find-find_step_index id [] s e = absurd (ground arith)
find-find_step_index id (x ∷ rest) s e = elim (String_discrete (step_id x) id) [
  | yes b ↦ (0, ground arith, subst (λ t. step_id t ≡ id) {x = x} {y = s} (ground arith) b)
  | no b ↦ let (i, f, h) = find-find_step_index id rest s (ground arith) in (suc i, ground arith, h)
]

IsFresh-get_elem? :
    (id : String) (steps : List SequenceStep) (i : ℕ) (s : SequenceStep)
    → IsFresh id steps
    → get_elem? steps i ≡ some s
    → id ≢ step_id s
IsFresh-get_elem? id [] i s h e = absurd (ground arith)
IsFresh-get_elem? id (x ∷ rest) zero s h e =
    subst (λ t. id ≢ step_id t) {x = x} {y = s} (ground arith) h.0
IsFresh-get_elem? id (x ∷ rest) (suc i) s h e = IsFresh-get_elem? id rest i s h.1 e

pub get_elem?-find_step_index :
    (steps : List SequenceStep) (i : ℕ) (s : SequenceStep)
    → UniqueIds steps
    → get_elem? steps i ≡ some s
    → find_step_index (step_id s) steps ≡ some i
unfolding find_step_index
get_elem?-find_step_index [] i s u e = absurd (ground arith)
get_elem?-find_step_index (x ∷ rest) zero s u e =
    subst (λ t. find_step_index (step_id t) (x ∷ rest) ≡ some 0) {x = x} {y = s} (ground arith)
      (ground arith)
get_elem?-find_step_index (x ∷ rest) (suc i) s u e =
    ground (
      arith,
      IsFresh-get_elem? (step_id x) rest i s u.0 e,
      get_elem?-find_step_index rest i s u.1 e,
    )
