-- ===== src/Contamination/CorpusIndex.antt =====
-- The files of reference-corpus indices: backend/app/services/corpus_index.py, and `build_minhash`,
-- `minhash_to_list` and `minhash_from_list` of backend/app/utils/minhash.py. The datasketch library is
-- the parameter `Datasketch`, the text of a document `Document`; what they are relied on for is in
-- CorpusIndex/Laws.antt. A JSON number is a natural number or a `float`.
pub mod Laws
pub mod RoundTrip
pub mod Candidates
use eval_ledger.Base.{
  ◌≡◌, refl, ◌⊎◌, inl, inr, ℕ, Bool, true, false, ◌||◌, Option, none, some, List, [], ◌∷◌, ◌++◌,
  map, String, Text, codes, text_eq, ltb, if◌then◌else◌,
}
use eval_ledger.Errors.{AppError, app_error, Raised, app, unexpected}
use eval_ledger.Contamination.JsonFile.{
  Value, null, bool, float, int, str, arr, obj, Values, nil, cons, Members, end, member, Document,
  Fault, value_error, key_error, type_error, overflow_error, Loaded, loaded, fault, ◌>>=◌, get,
  item_at, or_value_error, characters, member_keys, iterate, to_str, to_int, to_ints, Loaded-cases,
}
use eval_ledger.Contamination.Shingles.{shingles}
use eval_ledger.Contamination.Reports.{Sources}

-- datasketch: a MinHash `M` with its permutations' values, and an index `L` of MinHashes by key.
-- `lsh` and `insert` are none where they raise ValueError.
pub record Datasketch (M L : Type 0) : Type 0 where
  pub minhash : ℕ → M
  pub update : M → Text → M
  pub hashvalues : M → List ℕ
  pub of_hashvalues : ℕ → List ℕ → M
  pub lsh : ℕ → Option L
  pub insert : L → Text → M → Option L
  pub query : L → M → List Text
  pub contains : L → Text → Bool
  pub width : L → ℕ

pub record LoadedCorpusIndex (L : Type 0) : Type 0 where
  pub lsh : L
  pub entries : List (Text × Text)

abbrev pub corpus_index_format : Text
corpus_index_format = codes "evalledger-corpus-index/1"

unfoldable pub int_values : List ℕ → Values
int_values [] = nil
int_values (n ∷ ns) = cons (int n) (int_values ns)

-- `isinstance(num_perm, int)`, which a bool is as well, and `isinstance(raw_entries, list)`, or else ValueError.
unfoldable pub as_int : Option Value → Loaded ℕ
as_int (some (int n)) = loaded n
as_int (some (bool b)) = loaded (if b then 1 else 0)
as_int _ = fault value_error

unfoldable pub as_list : Option Value → Loaded Values
as_list (some (arr values)) = loaded values
as_list _ = fault value_error

unfoldable pub is_format : Option Value → Bool
is_format (some (str s)) = text_eq s corpus_index_format
is_format _ = false

-- `dict[key] = text`
unfoldable pub set_entry : Text → Text → List (Text × Text) → List (Text × Text)
set_entry key text [] = (key, text) ∷ []
set_entry key text ((k, t) ∷ entries) =
    let rest = set_entry key text entries in
    if text_eq k key then (key, text) ∷ entries else (k, t) ∷ rest

-- `np.array(values, dtype=np.uint64)`
unfoldable pub as_uint64 : List ℕ → Loaded (List ℕ)
as_uint64 [] = loaded []
as_uint64 (n ∷ ns) = do
  rest ← as_uint64 ns
  if ltb n 18446744073709551616 then loaded (n ∷ rest) else fault overflow_error

module _ {M L : Type 0} (sketch : Datasketch M L) where
  unfoldable pub update_all : M → List Text → M
  update_all minhash [] = minhash
  update_all minhash (s ∷ ss) = update_all (sketch.update minhash s) ss

  unfoldable pub minhash_to_list : M → List ℕ
  minhash_to_list minhash = sketch.hashvalues minhash

  unfoldable pub minhash_from_list : ℕ → List ℕ → Loaded M
  unfolding as_uint64
  minhash_from_list num_perm values = do
    hashvalues ← as_uint64 values
    loaded (sketch.of_hashvalues num_perm hashvalues)

  module _ {Bytes : Type 0} (document : Document Bytes) where
    -- What the loop over the entries reads of one, and what it does with it.
    unfoldable pub read_item : ℕ → Members → Loaded (Text × Text × M)
    unfolding item_at iterate to_str to_ints minhash_from_list
    read_item num_perm item = do
      key ← item_at (codes "key") item
      text ← item_at (codes "text") item
      hashvalues ← item_at (codes "hashvalues") item
      values ← iterate hashvalues
      ints ← to_ints document values
      minhash ← minhash_from_list num_perm ints
      loaded (to_str document key, to_str document text, minhash)

    unfoldable pub insert_item :
        Text × Text × M → LoadedCorpusIndex L → Loaded (LoadedCorpusIndex L)
    unfolding or_value_error set_entry
    insert_item (key, text, minhash) index = do
      lsh ← or_value_error (sketch.insert index.lsh key minhash)
      loaded (record { lsh = lsh; entries = set_entry key text index.entries })

    unfoldable pub load_item : ℕ → Members → LoadedCorpusIndex L → Loaded (LoadedCorpusIndex L)
    unfolding read_item insert_item
    load_item num_perm item index = do read ← read_item num_perm item; insert_item read index

    -- An entry that is not an object is skipped.
    unfoldable pub load_value : ℕ → Value → LoadedCorpusIndex L → Loaded (LoadedCorpusIndex L)
    unfolding load_item
    load_value num_perm (obj item) index = load_item num_perm item index
    load_value num_perm _ index = loaded index

    unfoldable pub load_values : ℕ → Values → LoadedCorpusIndex L → Loaded (LoadedCorpusIndex L)
    unfolding load_value
    load_values num_perm nil index = loaded index
    load_values num_perm (cons v values) index = do
      next ← load_value num_perm v index
      load_values num_perm values next

    unfoldable pub empty_corpus_index : ℕ → Loaded (LoadedCorpusIndex L)
    unfolding or_value_error
    empty_corpus_index num_perm = do
      lsh ← or_value_error (sketch.lsh num_perm)
      loaded (record { lsh = lsh; entries = [] })

    unfoldable pub load_entries : Option Value → Option Value → Loaded (LoadedCorpusIndex L)
    unfolding as_int as_list load_values empty_corpus_index
    load_entries num_perm raw_entries = do
      n ← as_int num_perm
      values ← as_list raw_entries
      empty ← empty_corpus_index n
      load_values n values empty

    unfoldable pub load_payload : Value → Loaded (LoadedCorpusIndex L)
    unfolding load_entries is_format get
    load_payload (obj fields) =
        if is_format (get (codes "format") fields)
        then load_entries (get (codes "num_perm") fields) (get (codes "entries") fields)
        else fault value_error
    load_payload _ = fault value_error

    unfoldable pub load_corpus_index : Bytes → Loaded (LoadedCorpusIndex L)
    unfolding load_payload or_value_error
    load_corpus_index raw = do value ← or_value_error (document.loads raw); load_payload value

module _ {M L : Type 0} (is_word : ℕ → Bool) (lower : Text → Text) (sketch : Datasketch M L) where
  unfoldable pub build_minhash : ℕ → ℕ → Text → M
  unfolding update_all
  build_minhash num_perm shingle_size text =
      update_all sketch (sketch.minhash num_perm) (shingles is_word lower shingle_size text)

  unfoldable pub entry_value : ℕ → ℕ → Text × Text → Value
  unfolding int_values
  entry_value num_perm shingle_size (key, text) = obj (
      member (codes "key") (str key) (
        member (codes "text") (str text) (
          member (codes "hashvalues")
            (arr (int_values (minhash_to_list sketch (build_minhash num_perm shingle_size text))))
            end)))

  unfoldable pub entry_values : ℕ → ℕ → List (Text × Text) → Values
  unfolding entry_value
  entry_values num_perm shingle_size [] = nil
  entry_values num_perm shingle_size (e ∷ entries) =
      cons (entry_value num_perm shingle_size e) (entry_values num_perm shingle_size entries)

  unfoldable pub payload : ℕ → ℕ → List (Text × Text) → Value
  payload num_perm shingle_size entries = obj (
      member (codes "format") (str corpus_index_format) (
        member (codes "num_perm") (int num_perm) (
          member (codes "shingle_size") (int shingle_size)
            (member (codes "entries") (arr (entry_values num_perm shingle_size entries)) end))))

  module _ {Bytes : Type 0} (document : Document Bytes) where
    unfoldable pub serialize_corpus_index : ℕ → ℕ → List (Text × Text) → Bytes
    unfolding payload
    serialize_corpus_index num_perm shingle_size entries =
        document.dumps (payload num_perm shingle_size entries)

-- Storage and index files as the engine reads them.
unfoldable pub sources_of :
    {Bytes M L : Type 0}
    → Datasketch M L
    → Document Bytes
    → (String → Option Bytes)
    → Sources Bytes M
unfolding load_corpus_index
sources_of sketch document read_bytes = record {
  read_bytes = read_bytes;
  load_corpus_index = λ raw. elim (load_corpus_index sketch document raw) [
    | loaded index ↦ some (sketch.query index.lsh, index.entries)
    | fault e ↦ none
  ];
}
