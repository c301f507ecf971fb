-- ===== src/Contamination/CorpusIndex/Laws.antt =====
-- What backend/app/services/corpus_index.py relies on in datasketch and in Python's json module.
use eval_ledger.Base.{ℕ, ◌<◌, ◌≤◌, ◌≡◌, true, false, ◌||◌, none, some, Text, text_eq, length, All}
use eval_ledger.Contamination.CorpusIndex.{Datasketch}
use eval_ledger.Contamination.JsonFile.{Document}

-- An index is made for two permutations or more. A MinHash has as many values as it was made with, each of 64 bits, and its values determine it.
-- `insert` raises exactly on a MinHash of another length than the index's and on a key that the index
-- has; otherwise it adds that key.
pub record Sketches {M L : Type 0} (sketch : Datasketch M L) : Type 0 where
  pub length_minhash : (n : ℕ) → length (sketch.hashvalues (sketch.minhash n)) ≡ n
  pub length_update :
      (m : M) (s : Text)
      → length (sketch.hashvalues (sketch.update m s)) ≡ length (sketch.hashvalues m)
  pub hashvalues_uint64 : (m : M) → All (λ v. v < 18446744073709551616) (sketch.hashvalues m)
  pub restores :
      (m : M) → sketch.of_hashvalues (length (sketch.hashvalues m)) (sketch.hashvalues m) ≡ m
  pub lsh_made : (n : ℕ) → 2 ≤ n → (l : L) × (sketch.lsh n ≡ some l)
  pub lsh_refuses : (n : ℕ) → n < 2 → sketch.lsh n ≡ none
  pub lsh_empty : (n : ℕ) (l : L) (j : Text) → sketch.lsh n ≡ some l → sketch.contains l j ≡ false
  pub lsh_width : (n : ℕ) (l : L) → sketch.lsh n ≡ some l → sketch.width l ≡ n
  pub insert_new :
      (l : L) (k : Text) (m : M)
      → sketch.contains l k ≡ false
      → length (sketch.hashvalues m) ≡ sketch.width l
      → (l' : L) × (sketch.insert l k m ≡ some l')
  pub insert_refuses :
      (l : L) (k : Text) (m : M) → sketch.contains l k ≡ true → sketch.insert l k m ≡ none
  pub insert_width :
      (l l' : L) (k : Text) (m : M)
      → sketch.insert l k m ≡ some l'
      → sketch.width l' ≡ sketch.width l
  pub insert_contains :
      (l l' : L) (k : Text) (m : M)
      → sketch.insert l k m ≡ some l'
      → (j : Text) → sketch.contains l' j ≡ (text_eq k j || sketch.contains l j)

-- `json.loads` reads what `json.dumps` wrote.
abbrev pub ReadsWritten : {Bytes : Type 0} → Document Bytes → Type 0
ReadsWritten document = (v : _) → document.loads (document.dumps v) ≡ some v
