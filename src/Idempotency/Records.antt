-- ===== src/Idempotency/Records.antt =====
-- A plain object used as a map: own keys in order of insertion, each once.
use listmonk_ops.Prelude.{
  String, Option, none, some, ◌≡◌, refl, if◌then◌else◌, List, [], ◌∷◌, same, arith, length, ◌+◌,
  ◌≤◌,
}

abbrev pub OwnRecords {ℓ} : Type ℓ → Type ℓ
OwnRecords V = List (String × V)

module _ {ℓ} {V : Type ℓ} where
  -- `hasOwnProperty` and the read of the own property.
  unfoldable pub get_own_record : OwnRecords V → String → Option V
  get_own_record [] key = none
  get_own_record ((k, v) ∷ rest) key = if same k key then some v else get_own_record rest key

  -- `next[key] = value` on a copy: in place, or at the end.
  unfoldable pub set_record : OwnRecords V → String → V → OwnRecords V
  set_record [] key value = (key, value) ∷ []
  set_record ((k, v) ∷ rest) key value =
      if same k key then (k, value) ∷ rest else (k, v) ∷ set_record rest key value

  -- `delete next[key]` on a copy.
  unfoldable pub delete_record : OwnRecords V → String → OwnRecords V
  delete_record [] key = []
  delete_record ((k, v) ∷ rest) key = if same k key then rest else (k, v) ∷ delete_record rest key

  -- No key stands twice.
  abbrev pub Distinct : OwnRecords V → Type ℓ
  Distinct [] = Unit
  Distinct ((k, v) ∷ rest) = (get_own_record rest k ≡ none) × Distinct rest

  pub get-set :
      (m : OwnRecords V) (k j : String) (v : V)
      → get_own_record (set_record m k v) j ≡ (if same k j then some v else get_own_record m j)
  unfolding get_own_record set_record
  get-set [] k j v = ground arith
  get-set ((i, w) ∷ rest) k j v = ground (arith, get-set rest k j v)

  pub get-delete :
      (m : OwnRecords V) (k j : String)
      → Distinct m
      → get_own_record (delete_record m k) j ≡ (if same k j then none else get_own_record m j)
  unfolding get_own_record delete_record
  get-delete [] k j d = ground arith
  get-delete ((i, w) ∷ rest) k j d = ground (arith, get-delete rest k j d.1)

  pub set-Distinct :
      (m : OwnRecords V) (k : String) (v : V) → Distinct m → Distinct (set_record m k v)
  unfolding set_record get_own_record
  set-Distinct [] k v d = (refl, tt)
  set-Distinct ((i, w) ∷ rest) k v d = ground (arith, set-Distinct rest k v d.1, get-set rest k i v)

  pub delete-Distinct : (m : OwnRecords V) (k : String) → Distinct m → Distinct (delete_record m k)
  unfolding delete_record
  delete-Distinct [] k d = tt
  delete-Distinct ((i, w) ∷ rest) k d =
      ground (arith, delete-Distinct rest k d.1, get-delete rest k i d.1)

  pub length-set-le :
      (m : OwnRecords V) (k : String) (v : V) → length (set_record m k v) ≤ length m + 1
  unfolding set_record
  length-set-le [] k v = omega arith
  length-set-le ((i, w) ∷ rest) k v = ground (arith, length-set-le rest k v)

  pub length-delete-le : (m : OwnRecords V) (k : String) → length (delete_record m k) ≤ length m
  unfolding delete_record
  length-delete-le [] k = omega arith
  length-delete-le ((i, w) ∷ rest) k = ground (arith, length-delete-le rest k)
