-- ===== src/Storage/Streaming.antt =====
-- The loop over the chunks of an upload (backend/app/services/storage.py) reads the whole file.
use mathlib.Core.List.{append-nil, append_assoc}
use eval_ledger.Base.{
  ℕ, zero, suc, ◌+◌, ◌<◌, ◌≤◌, ◌≡◌, refl, sym, ◌∙◌, some, [], ◌∷◌, ◌++◌, Text, arith, length, take,
  drop, length-append,
}
use eval_ledger.Storage.{
  Backend, local, s3, Settings, Hash, Store, Read, chunk_bytes, read_loop, read_file, upload_read,
  uploaded, upload_upload_file, upload_bytes,
}

-- hashlib: feeding two texts in turn is feeding them as one, and an empty one changes nothing.
pub record Incremental {H : Type 0} (hash : Hash H) : Type 0 where
  pub update_nil : (h : H) → hash.update h [] ≡ h
  pub update_append :
      (h : H) (s t : Text) → hash.update (hash.update h s) t ≡ hash.update h (s ++ t)

take-drop : (n : ℕ) (t : Text) → take n t ++ drop n t ≡ t
take-drop zero t = refl
take-drop (suc n) [] = refl
take-drop (suc n) (c ∷ t) = ground (arith, take-drop n t)

length-drop : (n : ℕ) (t : Text) → length (drop n t) ≤ length t
length-drop zero t = omega arith
length-drop (suc n) [] = omega arith
length-drop (suc n) (c ∷ t) = omega (arith, length-drop n t)

uploaded_same : (b : Backend) (content : Text) → uploaded b content content ≡ content
unfolding uploaded
uploaded_same local content = refl
uploaded_same s3 content = refl

module _ {H : Type 0} (hash : Hash H) (laws : Incremental hash) where
  abbrev whole : Text → Read H → Read H
  whole rest r = record {
    size_bytes = r.size_bytes + length rest;
    hash_state = hash.update r.hash_state rest;
    written = r.written ++ rest;
  }

  whole_nil : (r : Read H) → r ≡ whole [] r
  whole_nil r = ground (arith, append-nil r.written, laws.update_nil r.hash_state)

  whole-whole : (s t : Text) (r : Read H) → whole t (whole s r) ≡ whole (s ++ t) r
  whole-whole s t r =
      ground
        (arith, append_assoc r.written s t, laws.update_append r.hash_state s t, length-append s t)

  read_loop_lem :
      (m fuel : ℕ) (rest : Text) (r : Read H)
      → length rest < fuel
      → read_loop hash (suc m) fuel rest r ≡ some (whole rest r)
  unfolding read_loop
  read_loop_lem m zero rest r h = absurd (omega arith)
  read_loop_lem m (suc fuel) [] r h = rw (sym (whole_nil r)) refl
  read_loop_lem m (suc fuel) (c ∷ rest) r h =
      let chunk = c ∷ take m rest in
      read_loop_lem m fuel (drop m rest) (whole chunk r) (omega (arith, length-drop m rest))
      ∙ rw (whole-whole chunk (drop m rest) r, take-drop m rest) refl

  read_loop_all :
      (n m : ℕ) (content : Text) (r : Read H)
      → n ≡ suc m
      → read_loop hash n (suc (length content)) content r ≡ some (whole content r)
  read_loop_all n m content r e =
      rw e (read_loop_lem m (suc (length content)) content r (omega arith))

  -- The file's bytes, their number and their hash, whatever the number of chunks.
  pub read_file_lem :
      (content : Text)
      → read_file hash content
        ≡ some (record {
          size_bytes = length content;
          hash_state = hash.update hash.start content;
          written = content;
        })
  unfolding read_file
  read_file_lem content =
      read_loop_all chunk_bytes 1048575 content
        (record { size_bytes = 0; hash_state = hash.start; written = [] }) refl
      ∙ ground arith

  module _ (settings : Settings) where
    -- An upload that is read in chunks leaves the same store and answers with the same key, place, size
    -- and hash as an upload of the whole file at once, on either backend.
    pub upload_upload_file-bytes :
        (directory uuid filename content : Text) (store : Store)
        → upload_upload_file settings hash directory uuid filename content store
          ≡ some (upload_bytes settings hash directory uuid filename content store)
    unfolding upload_upload_file upload_read upload_bytes
    upload_upload_file-bytes directory uuid filename content store =
        rw (read_file_lem content, uploaded_same settings.storage_backend content) refl
