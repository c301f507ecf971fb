-- ===== src/Storage/RoundTrip.antt =====
-- Uploads, reads and deletions (backend/app/services/storage.py) undo each other.
use eval_ledger.Base.{
  ◌≡◌, refl, ◌∙◌, none, some, [], ◌∷◌, Text, arith, text_eq, text_eq_iff, text_eq_self,
  if◌then◌else◌,
}
use eval_ledger.Storage.{
  Backend, local, s3, Settings, Hash, StoredArtifact, Store, put, content_of, remove, place_of,
  storage_reference, url_of, upload_bytes, read_bytes, delete,
}

content_of-put :
    (key content j : Text) (store : Store)
    → content_of j (put key content store)
      ≡ (if text_eq key j then some content else content_of j store)
unfolding content_of put
content_of-put key content j [] = refl
content_of-put key content j ((k, c) ∷ store) = ground (
  arith,
  text_eq_iff k key,
  text_eq_iff key j,
  text_eq_iff k j,
  content_of-put key content j store,
)

content_of-remove :
    (key j : Text) (store : Store)
    → content_of j (remove key store) ≡ (if text_eq key j then none else content_of j store)
unfolding content_of remove
content_of-remove key j [] = ground arith
content_of-remove key j ((k, c) ∷ store) =
    ground
      (arith, text_eq_iff k key, text_eq_iff key j, text_eq_iff k j, content_of-remove key j store)

reference_lem :
    (b : Backend) (root key : Text) (stored : StoredArtifact)
    → stored.artifact_url ≡ place_of b root key
    → stored.storage_key ≡ key
    → storage_reference b stored ≡ place_of b root key
unfolding storage_reference place_of
reference_lem local root key stored h k = h
reference_lem s3 root key stored h k = k

-- The same on a store, for a reference that is the key of the upload.
store_round_trip :
    (reference key content j : Text) (store : Store)
    → reference ≡ key
    → content_of reference store ≡ none
    → (content_of reference (put key content store) ≡ some content)
      × (content_of j (remove reference (put key content store)) ≡ content_of j store)
store_round_trip reference key content j store same free = (
  ground (arith, content_of-put key content reference store, text_eq_self key),
  content_of-remove reference j (put key content store)
      ∙ ground
          (arith, content_of-put key content j store, text_eq_iff key j, text_eq_iff reference j),
)

module _ {H : Type 0} (settings : Settings) (hash : Hash H) where
  -- What is uploaded can be read back by the reference that the handlers keep.
  pub uploaded_is_readable :
      (directory uuid filename content : Text) (store : Store)
      → let (stored, store') = upload_bytes settings hash directory uuid filename content store in
        read_bytes settings (storage_reference settings.storage_backend stored) store'
        ≡ some content
  unfolding upload_bytes read_bytes url_of
  uploaded_is_readable directory uuid filename content store =
      let stored = (upload_bytes settings hash directory uuid filename content store).0 in
      let place = url_of settings stored.storage_key in
      rw
        (
          reference_lem settings.storage_backend settings.storage_root stored.storage_key stored
              refl refl,
          content_of-put place content place store,
          text_eq_self place,
        )
        refl

  -- What is uploaded under a name that is free can be read back by the reference that the handlers keep,
  -- and deleting it by that reference gives every other reference, and this one, what it had before; on
  -- either backend.
  pub upload-read-delete :
      (directory uuid filename content : Text) (store : Store) (j : Text)
      → let (stored, store') = upload_bytes settings hash directory uuid filename content store in
        let reference = storage_reference settings.storage_backend stored in
        content_of reference store ≡ none
        → (read_bytes settings reference store' ≡ some content)
          × (read_bytes settings j (delete settings reference store') ≡ read_bytes settings j store)
  unfolding upload_bytes read_bytes delete url_of place_of
  upload-read-delete directory uuid filename content store j free =
      let (stored, store') = upload_bytes settings hash directory uuid filename content store in
      let reference = storage_reference settings.storage_backend stored in
      let same =
        reference_lem settings.storage_backend settings.storage_root stored.storage_key stored refl
          refl in
      store_round_trip reference (url_of settings stored.storage_key) content j store same free
