-- ===== src/Contamination/CorpusIndex/RoundTrip.antt =====
-- Writing a corpus index and loading it again (backend/app/services/corpus_index.py).
use eval_ledger.Base.{
  ℕ, ◌<◌, ◌≤◌, ◌≡◌, refl, ◌∙◌, sym, subst, Bool, false, Option, none, some, List, [], ◌∷◌, ◌++◌,
  Text, arith, length, All, text_eq_iff,
}
use mathlib.Core.List.{append-nil, append_assoc}
use eval_ledger.Contamination.Shingles.{shingles}
use eval_ledger.Contamination.CorpusIndex.{
  Datasketch, LoadedCorpusIndex, load_corpus_index, load_payload, load_entries, load_values,
  load_value, load_item, as_int, as_list, read_item, insert_item, empty_corpus_index, set_entry,
  minhash_from_list, minhash_to_list, build_minhash, update_all, as_uint64, is_format, int_values,
  entry_value, entry_values, payload, serialize_corpus_index,
}
use eval_ledger.Contamination.JsonFile.{
  Values, Document, Loaded, loaded, get, item_at, or_value_error, iterate, to_str, to_int, to_ints,
}
use eval_ledger.Contamination.CorpusIndex.Laws.{Sketches, ReadsWritten}
use eval_ledger.Contamination.CorpusIndex.Candidates.{
  has_key, has_key-set_entry, set_entry_new, SameKeys, insert_item-SameKeys,
}

-- The entries of a dict have distinct keys.
abbrev pub DistinctKeys : List (Text × Text) → Type 0
DistinctKeys [] = Unit
DistinctKeys ((k, t) ∷ entries) = (has_key k entries ≡ false) × DistinctKeys entries

-- The keys of `entries` are free in a dict.
abbrev Fresh : List (Text × Text) → List (Text × Text) → Type 0
Fresh present entries = All (λ e. has_key e.0 present ≡ false) entries

Fresh-set_entry :
    (key text : Text) (present entries : List (Text × Text))
    → has_key key entries ≡ false
    → Fresh present entries
    → Fresh (set_entry key text present) entries
Fresh-set_entry key text present [] new fresh = tt
Fresh-set_entry key text present ((k, t) ∷ entries) new fresh = (
  ground
      (arith, has_key-set_entry key text k present, fresh.0, text_eq_iff k key, text_eq_iff key k),
  Fresh-set_entry key text present entries (ground arith) fresh.1,
)

Fresh-empty : (entries : List (Text × Text)) → Fresh [] entries
Fresh-empty [] = tt
Fresh-empty (e ∷ entries) = (refl, Fresh-empty entries)

to_ints-int_values :
    {Bytes : Type 0} (document : Document Bytes) (ns : List ℕ)
    → to_ints document (int_values ns) ≡ loaded ns
unfolding to_ints int_values to_int
to_ints-int_values document [] = refl
to_ints-int_values document (n ∷ ns) = rw (to_ints-int_values document ns) refl

as_uint64_small : (ns : List ℕ) → All (λ v. v < 18446744073709551616) ns → as_uint64 ns ≡ loaded ns
unfolding as_uint64
as_uint64_small [] h = refl
as_uint64_small (n ∷ ns) h = ground (arith, as_uint64_small ns h.1, h.0)

module _ {M L : Type 0} (is_word : ℕ → Bool) (lower : Text → Text) (sketch : Datasketch M L)
    (laws : Sketches sketch) (num_perm shingle_size : ℕ) where
  abbrev build : Text → M
  build = build_minhash is_word lower sketch num_perm shingle_size

  -- An index that every text's MinHash is inserted into, without a file in between.
  unfoldable pub insert_all : List (Text × Text) → L → Option L
  insert_all [] lsh = some lsh
  insert_all ((key, text) ∷ entries) lsh = elim (sketch.insert lsh key (build text)) [
    | none ↦ none
    | some next ↦ insert_all entries next
  ]

  insert_all_cons :
      (key text : Text) (entries : List (Text × Text)) (lsh next : L)
      → sketch.insert lsh key (build text) ≡ some next
      → insert_all ((key, text) ∷ entries) lsh ≡ insert_all entries next
  unfolding insert_all
  insert_all_cons key text entries lsh next e = rw (insert_all, e) refl

  length-update_all :
      (ss : List Text) (m : M)
      → length (sketch.hashvalues (update_all sketch m ss)) ≡ length (sketch.hashvalues m)
  unfolding update_all
  length-update_all [] m = refl
  length-update_all (s ∷ ss) m =
      ground (arith, length-update_all ss (sketch.update m s), laws.length_update m s)

  length-build : (text : Text) → length (sketch.hashvalues (build text)) ≡ num_perm
  unfolding build_minhash
  length-build text = ground (
    arith,
    length-update_all (shingles is_word lower shingle_size text) (sketch.minhash num_perm),
    laws.length_minhash num_perm,
  )

  minhash_from_list-to_list :
      (text : Text)
      → minhash_from_list sketch num_perm (minhash_to_list sketch (build text))
        ≡ loaded (build text)
  unfolding minhash_from_list minhash_to_list
  minhash_from_list-to_list text =
      let restored : sketch.of_hashvalues num_perm (sketch.hashvalues (build text)) ≡ build text =
        subst (λ n. sketch.of_hashvalues n (sketch.hashvalues (build text)) ≡ build text)
          (length-build text) (laws.restores (build text)) in
      rw (as_uint64_small _ (laws.hashvalues_uint64 (build text)), restored) refl

  module _ {Bytes : Type 0} (document : Document Bytes) where
    abbrev load : Values → LoadedCorpusIndex L → Loaded (LoadedCorpusIndex L)
    load = load_values sketch document num_perm

    read_item_written :
        (key text : Text) (index : LoadedCorpusIndex L)
        → load_value sketch document num_perm
            (entry_value is_word lower sketch num_perm shingle_size (key, text))
            index
          ≡ insert_item sketch document (key, text, build text) index
    unfolding load_value load_item read_item entry_value item_at get iterate to_str
    read_item_written key text index =
        rw
          (
            to_ints-int_values document (minhash_to_list sketch (build text)),
            minhash_from_list-to_list text,
          )
          refl

    abbrev Written : List (Text × Text) → LoadedCorpusIndex L → Type 0
    Written entries index =
        (next : LoadedCorpusIndex L) × (load
            (entry_values is_word lower sketch num_perm shingle_size entries) index
          ≡ loaded next)
        × (next.entries ≡ index.entries ++ entries)
        × (insert_all entries index.lsh ≡ some next.lsh)

    load_values-Written :
        (entries : List (Text × Text)) (index : LoadedCorpusIndex L)
        → DistinctKeys entries
        → Fresh index.entries entries
        → sketch.width index.lsh ≡ num_perm
        → SameKeys sketch laws document index
        → Written entries index
    unfolding load_values entry_values insert_all insert_item or_value_error
    load_values-Written [] index distinct fresh width same =
        (index, refl, sym (append-nil index.entries), refl)
    load_values-Written ((key, text) ∷ entries) index distinct fresh width same =
        let (lsh, e) =
          laws.insert_new index.lsh key (build text) (same key ∙ fresh.0)
            (length-build text ∙ sym width) in
        let next : LoadedCorpusIndex L = record {
          lsh = lsh;
          entries = set_entry key text index.entries;
        } in
        let stored : insert_item sketch document (key, text, build text) index ≡ loaded next =
          rw e refl in
        let (last, loads, ends, inserts) =
          load_values-Written entries next distinct.1
            (Fresh-set_entry key text index.entries entries distinct.0 fresh.1)
            (laws.insert_width index.lsh lsh key (build text) e ∙ width)
            (insert_item-SameKeys sketch laws document (key, text, build text) index next same
              stored) in
        (
          last,
          rw (read_item_written key text index, stored) loads,
          ends
              ∙ rw (set_entry_new key text index.entries fresh.0)
                  (append_assoc index.entries ((key, text) ∷ []) entries),
          insert_all_cons key text entries index.lsh lsh e ∙ inserts,
        )

    -- With two permutations or more, loading what was written for texts with distinct keys returns an index with those texts under
    -- their keys, and with the LSH that inserting the texts' MinHashes one by one makes.
    pub load-serialize_corpus_index :
        ReadsWritten document
        → 2 ≤ num_perm
        → (entries : List (Text × Text)) → DistinctKeys entries
        → (index : LoadedCorpusIndex L) × (load_corpus_index sketch document
              (serialize_corpus_index is_word lower sketch document num_perm shingle_size entries)
            ≡ loaded index)
          × (index.entries ≡ entries)
          × ((lsh : L) × (sketch.lsh num_perm ≡ some lsh)
              × (insert_all entries lsh ≡ some index.lsh))
    unfolding load_corpus_index serialize_corpus_index load_payload load_entries payload get
        is_format as_int as_list empty_corpus_index or_value_error
    load-serialize_corpus_index reads enough entries distinct =
        let (lsh, made) = laws.lsh_made num_perm enough in
        let empty : LoadedCorpusIndex L = record { lsh = lsh; entries = [] } in
        let (index, loads, ends, inserts) =
          load_values-Written entries empty distinct (Fresh-empty entries)
            (laws.lsh_width num_perm lsh made) (λ j. laws.lsh_empty num_perm lsh j made) in
        (
          index,
          rw (reads (payload is_word lower sketch num_perm shingle_size entries), made) loads,
          ends,
          (lsh, made, inserts),
        )
