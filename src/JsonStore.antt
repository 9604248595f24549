-- ===== src/JsonStore.antt =====
-- packages/common/src/json-file-store.ts: read and read/modify/write of a validated JSON file.
-- The file is `none` until it is first written. `valid` is the store's `parse`: a typed document
-- that it rejects is one on which `parse` throws. The exclusive lock makes an update one step.
pub mod Locking
pub mod Exclusion
mod Tests
use listmonk_ops.Prelude.{Option, none, some, Bool, Result, ok, err, if◌then◌else◌}

pub record JsonFileStore {ℓ} (T : Type ℓ) : Type ℓ where
  pub create_default : T
  pub valid : T → Bool

-- What an update throws: the file or the new value fails the schema, or the callback throws.
pub data UpdateError {ℓ} (E : Type ℓ) : Type ℓ where
  invalid_file : UpdateError E
  invalid_value : UpdateError E
  threw : E → UpdateError E

unfoldable pub read_json_file_store {ℓ κ} :
    {T : Type ℓ} {E : Type κ} → JsonFileStore T → Option T → Result (UpdateError E) T
read_json_file_store store none = ok store.create_default
read_json_file_store store (some value) = if store.valid value then ok value else err invalid_file

-- The new value is validated before it is written, and a failure leaves the file as it was.
unfoldable pub commit_value {ℓ κ ν} :
    {T : Type ℓ} {R : Type κ} {E : Type ν}
    → JsonFileStore T
    → Option T
    → Result E (T × R)
    → Option T × Result (UpdateError E) R
commit_value store file (err e) = (file, err (threw e))
commit_value store file (ok (value, result)) =
    if store.valid value then (some value, ok result) else (file, err invalid_value)

unfoldable pub update_json_file_store {ℓ κ ν} :
    {T : Type ℓ} {R : Type κ} {E : Type ν}
    → JsonFileStore T
    → (T → Result E (T × R))
    → Option T
    → Option T × Result (UpdateError E) R
unfolding commit_value
update_json_file_store {E} store update file = elim (read_json_file_store {E = E} store file) [
  | err e ↦ (file, err e)
  | ok value ↦ commit_value store file (update value)
]
