-- ===== src/Idempotency/Files.antt =====
-- The store's file: what an update of it gives, by what its callback gives.
use listmonk_ops.Prelude.{Option, none, some, true, false, ◌≡◌, Result, ok, err, [], ◌==◌}
use listmonk_ops.JsonStore.{threw, read_json_file_store, commit_value, update_json_file_store}
use listmonk_ops.Idempotency.{
  Document, ClaimOptions, StoreError, invalid_ttl, claim_update, is_stored_transactional_document,
  transactional_store, resolve_ttl, claim_transactional_send,
}
use listmonk_ops.Idempotency.Validity.{IsWellFormed, IsStored}

-- The document that an update reads: the default is empty.
abbrev pub contents : Option Document → Document
contents none = []
contents (some d) = d

abbrev pub IsWellFormedFile : Option Document → Type 0
IsWellFormedFile file = IsWellFormed (contents file)

-- An update that computes a document of the schema writes it.
pub update_lem :
    {R : Type 0} (u : Document → Result StoreError (Document × R)) (file : Option Document)
    (d : Document) (a : R)
    → IsWellFormedFile file
    → u (contents file) ≡ ok (d, a)
    → IsStored d
    → update_json_file_store transactional_store u file ≡ (some d, ok a)
unfolding update_json_file_store read_json_file_store is_stored_transactional_document
update_lem u none d a w e v = rw (e, commit_value) (rw (v, commit_value))
update_lem u (some f) d a w e v =
    rw (w.stored, update_json_file_store) (rw (e, commit_value) (rw (v, commit_value)))

pub update_err :
    {R : Type 0} (u : Document → Result StoreError (Document × R)) (file : Option Document)
    (x : StoreError)
    → IsWellFormedFile file
    → u (contents file) ≡ err x
    → update_json_file_store transactional_store u file ≡ (file, err (threw x))
unfolding update_json_file_store read_json_file_store
update_err u none x w e = rw (e, commit_value)
update_err u (some f) x w e = rw (w.stored, update_json_file_store) (rw (e, commit_value))

pub claim_no_ttl :
    (o : ClaimOptions) (file : Option Document)
    → (resolve_ttl o.ttl_ms == 0) ≡ true
    → claim_transactional_send o file ≡ (file, err (threw invalid_ttl))
unfolding claim_transactional_send
claim_no_ttl o file z = rw z

pub claim_ttl :
    (o : ClaimOptions) (file : Option Document)
    → (resolve_ttl o.ttl_ms == 0) ≡ false
    → claim_transactional_send o file
      ≡ update_json_file_store transactional_store (claim_update o) file
unfolding claim_transactional_send
claim_ttl o file nz = rw nz
