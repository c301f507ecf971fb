-- ===== src/Storage.antt =====
-- `StorageService` of backend/app/services/storage.py, on a local directory or an S3 bucket. A store is
-- the list of its files or objects with their contents. The requests to S3 and the file operations are
-- taken to work, but for what is not there; `Hash` is hashlib's SHA-256, `presign` boto3's
-- `generate_presigned_url` (none is a ClientError).
pub mod Streaming
pub mod RoundTrip
use eval_ledger.Base.{
  ℕ, zero, suc, ◌+◌, ◌-◌, Bool, true, false, not, Option, none, some, List, [], ◌∷◌, ◌++◌, String,
  Text, codes, text_eq, is_empty, if◌then◌else◌, length, take, drop, starts_with, filter,
}
use eval_ledger.Errors
use eval_ledger.Errors.{AppError, app_error}

pub data Backend : Type 0 where
  local s3 : Backend

pub record Settings : Type 0 where
  pub storage_backend : Backend
  pub storage_root : Text
  pub storage_s3_endpoint_url : Option Text
  pub storage_s3_presign_endpoint : Option Text
  pub presign : Text → Option Text

-- An incremental hash: `sha256()`, `update` and `hexdigest`.
pub record Hash (H : Type 0) : Type 0 where
  pub start : H
  pub update : H → Text → H
  pub hexdigest : H → Text

pub record StoredArtifact : Type 0 where
  pub storage_key : Text
  pub artifact_url : Text
  pub size_bytes : ℕ
  pub sha256 : Text

abbrev pub Store : Type 0
Store = List (Text × Text)

-- Writing a file replaces what is there under its name.
unfoldable pub put : Text → Text → Store → Store
put key content [] = (key, content) ∷ []
put key content ((k, c) ∷ store) =
    let rest = put key content store in
    if text_eq k key then (key, content) ∷ store else (k, c) ∷ rest

unfoldable pub content_of : Text → Store → Option Text
content_of key [] = none
content_of key ((k, c) ∷ store) = if text_eq k key then some c else content_of key store

-- `unlink(missing_ok=True)`, and DELETE of an object, which may be absent.
unfoldable pub remove : Text → Store → Store
remove key = filter (λ e. not (text_eq e.0 key))

abbrev pub chunk_bytes : ℕ
chunk_bytes = 1048576

-- What the loop over the chunks of a file has read: how many bytes, their hash, and the bytes.
pub record Read (H : Type 0) : Type 0 where
  pub size_bytes : ℕ
  pub hash_state : H
  pub written : Text

module _ {H : Type 0} (hash : Hash H) where
  -- `while chunk := fileobj.read(n)`. Fuel for one round more than the file has bytes is enough; none
  -- is running out of it.
  unfoldable pub read_loop : ℕ → ℕ → Text → Read H → Option (Read H)
  read_loop n zero rest r = none
  read_loop n (suc fuel) rest r =
      let chunk = take n rest in
      let more = read_loop n fuel (drop n rest) (record {
        size_bytes = r.size_bytes + length chunk;
        hash_state = hash.update r.hash_state chunk;
        written = r.written ++ chunk;
      }) in
      if is_empty chunk then some r else more

  unfoldable pub read_file : Text → Option (Read H)
  unfolding read_loop
  read_file content =
      read_loop chunk_bytes (suc (length content)) content
        (record { size_bytes = 0; hash_state = hash.start; written = [] })

-- `str(self.root / storage_key)` is a local file's place, the key an object's.
unfoldable pub place_of : Backend → Text → Text → Text
place_of local storage_root storage_key = storage_root ++ codes "/" ++ storage_key
place_of s3 storage_root storage_key = storage_key

-- `stored.artifact_url if settings.storage_backend == "local" else stored.storage_key`, as the handlers
-- of backend/app/routers/versions.py and backend/app/routers/contamination.py refer to an artifact.
unfoldable pub storage_reference : Backend → StoredArtifact → Text
storage_reference local stored = stored.artifact_url
storage_reference s3 stored = stored.storage_key

-- A local file is written as it is read, an object is uploaded after it was measured.
unfoldable pub uploaded : Backend → Text → Text → Text
uploaded local written content = written
uploaded s3 written content = content

module _ (settings : Settings) where
  unfoldable pub url_of : Text → Text
  unfolding place_of
  url_of storage_key = place_of settings.storage_backend settings.storage_root storage_key

  -- `directory/uuid-filename`
  unfoldable pub key_for : Text → Text → Text → Text
  key_for directory uuid filename = directory ++ codes "/" ++ uuid ++ codes "-" ++ filename

  module _ {H : Type 0} (hash : Hash H) where
    abbrev stored_of : Text → ℕ → H → StoredArtifact
    stored_of storage_key size_bytes hash_state = record {
      storage_key = storage_key;
      artifact_url = url_of storage_key;
      size_bytes = size_bytes;
      sha256 = hash.hexdigest hash_state;
    }

    unfoldable pub upload_read :
        Text → Text → Option (Read H) → Store → Option (StoredArtifact × Store)
    unfolding url_of put uploaded
    upload_read storage_key content none store = none
    upload_read storage_key content (some r) store = some (
      stored_of storage_key r.size_bytes r.hash_state,
      put (url_of storage_key) (uploaded settings.storage_backend r.written content) store,
    )

    unfoldable pub upload_upload_file :
        Text → Text → Text → Text → Store → Option (StoredArtifact × Store)
    unfolding upload_read read_file key_for
    upload_upload_file directory uuid filename content store =
        upload_read (key_for directory uuid filename) content (read_file hash content) store

    unfoldable pub upload_bytes : Text → Text → Text → Text → Store → StoredArtifact × Store
    unfolding url_of put key_for
    upload_bytes directory uuid filename content store =
        let storage_key = key_for directory uuid filename in
        (
          stored_of storage_key (length content) (hash.update hash.start content),
          put (url_of storage_key) content store,
        )

  -- A file or an object that is not there raises.
  unfoldable pub read_bytes : Text → Store → Option Text
  unfolding content_of
  read_bytes storage_key_or_url store = content_of storage_key_or_url store

  unfoldable pub delete : Text → Store → Store
  unfolding remove
  delete storage_key_or_url store = remove storage_key_or_url store

  abbrev pub storage_error : AppError
  storage_error = app_error "storage_error" 500

  -- `url.replace(old, new)`; `skip` characters belong to an occurrence that was replaced.
  unfoldable pub replace_loop : Text → Text → ℕ → Text → Text
  unfolding starts_with
  replace_loop old new skip [] = []
  replace_loop old new (suc skip) (c ∷ t) = replace_loop old new skip t
  replace_loop old new zero (c ∷ t) =
      let replaced = new ++ replace_loop old new (length old - 1) t in
      let kept = c ∷ replace_loop old new zero t in
      if starts_with old (c ∷ t) then replaced else kept

  unfoldable pub external_url : Option Text → Text → Text → Text
  unfolding replace_loop
  external_url none external url = url
  external_url (some endpoint) external url =
      if is_empty endpoint then url else replace_loop endpoint external zero url

  unfoldable pub presigned : Option Text → Text → Errors.Result Text
  unfolding external_url
  presigned none external = Errors.err storage_error
  presigned (some url) external =
      Errors.ok (external_url settings.storage_s3_endpoint_url external url)

  unfoldable pub presign_with : Option Text → Text → Errors.Result Text
  unfolding presigned
  presign_with none key = Errors.err storage_error
  presign_with (some external) key =
      if is_empty external
      then Errors.err storage_error
      else presigned (settings.presign key) external

  unfoldable pub generate_download_url : Text → Errors.Result Text
  unfolding presign_with
  generate_download_url storage_key_or_url = elim settings.storage_backend [
    | local ↦ Errors.ok storage_key_or_url
    | s3 ↦ presign_with settings.storage_s3_presign_endpoint storage_key_or_url
  ]

-- The answer to `head_bucket`.
pub data HeadBucket : Type 0 where
  present absent refused : HeadBucket

-- Whether the service is ready, and whether it has asked for the bucket to be made; `created` says if
-- that works.
unfoldable pub ensure_ready : Backend → HeadBucket → Bool → Bool × Bool
ensure_ready local head created = (true, false)
ensure_ready s3 present created = (true, false)
ensure_ready s3 absent created = (created, true)
ensure_ready s3 refused created = (false, false)
