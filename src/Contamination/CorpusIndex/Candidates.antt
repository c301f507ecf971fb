-- ===== src/Contamination/CorpusIndex/Candidates.antt =====
-- The keys of a loaded index (backend/app/services/corpus_index.py, `load_corpus_index`): those that
-- its LSH may return as candidates are those that have a text.
use eval_ledger.Contamination.Detection.{get_entry}
use eval_ledger.Base.{
  is_some, sym, ◌∙◌, codes, Bool-cases, ℕ, ◌≡◌, refl, Bool, false, ◌||◌, Option, List, [], ◌∷◌,
  ◌++◌, Text, text_eq, any, arith, text_eq_iff, Option-cases, inl, inr,
}
use eval_ledger.Contamination.CorpusIndex.{
  Datasketch, LoadedCorpusIndex, load_corpus_index, load_payload, load_entries, load_values,
  load_value, load_item, as_int, as_list, read_item, insert_item, empty_corpus_index, set_entry,
  is_format,
}
use eval_ledger.Contamination.JsonFile.{
  Value, null, bool, float, int, str, arr, obj, Values, nil, cons, Document, loaded, get,
  or_value_error, Loaded-cases,
}
use eval_ledger.Contamination.CorpusIndex.Laws.{Sketches}

abbrev pub has_key : Text → List (Text × Text) → Bool
has_key key entries = any (λ e. text_eq e.0 key) entries

pub has_key-set_entry :
    (key text j : Text) (entries : List (Text × Text))
    → has_key j (set_entry key text entries) ≡ (text_eq key j || has_key j entries)
unfolding set_entry
has_key-set_entry key text j [] = refl
has_key-set_entry key text j ((k, t) ∷ entries) =
    ground (arith, text_eq_iff k key, has_key-set_entry key text j entries)

get_entry-has_key :
    (j : Text) (entries : List (Text × Text)) → is_some (get_entry j entries) ≡ has_key j entries
unfolding get_entry
get_entry-has_key j [] = refl
get_entry-has_key j ((k, t) ∷ entries) = ground (arith, get_entry-has_key j entries)

pub set_entry_new :
    (key text : Text) (entries : List (Text × Text))
    → has_key key entries ≡ false
    → set_entry key text entries ≡ entries ++ (key, text) ∷ []
unfolding set_entry
set_entry_new key text [] h = refl
set_entry_new key text ((k, t) ∷ entries) h = ground (arith, set_entry_new key text entries)

module _ {M L : Type 0} (sketch : Datasketch M L) (laws : Sketches sketch) {Bytes : Type 0}
    (document : Document Bytes) where
  -- The LSH and the dict have the same keys.
  abbrev pub SameKeys : LoadedCorpusIndex L → Type 0
  SameKeys index = (j : Text) → sketch.contains index.lsh j ≡ has_key j index.entries

  pub insert_item-SameKeys :
      (read : Text × Text × M) (index next : LoadedCorpusIndex L)
      → SameKeys index
      → insert_item sketch document read index ≡ loaded next
      → SameKeys next
  unfolding insert_item or_value_error
  insert_item-SameKeys (key, text, minhash) index next same h j =
      elim (Option-cases (sketch.insert index.lsh key minhash)) [
        | inl e ↦ cc
        | inr (lsh, e) ↦ ground (
          arith,
          e,
          laws.insert_contains index.lsh lsh key minhash e j,
          same j,
          has_key-set_entry key text j index.entries,
        )
      ]

  is_loaded :
      (index next : LoadedCorpusIndex L)
      → loaded index ≡ loaded next
      → SameKeys index
      → SameKeys next
  is_loaded index next h same j = ground (arith, same j)

  load_value-SameKeys :
      (num_perm : ℕ) (v : Value) (index next : LoadedCorpusIndex L)
      → SameKeys index
      → load_value sketch document num_perm v index ≡ loaded next
      → SameKeys next
  unfolding load_value load_item
  load_value-SameKeys num_perm (obj item) index next same h =
      elim (Loaded-cases (read_item sketch document num_perm item)) [
        | inl (read, e) ↦ insert_item-SameKeys read index next same (ground (arith, e, h))
        | inr (f, e) ↦ cc
      ]
  load_value-SameKeys num_perm null index next same h = is_loaded index next h same
  load_value-SameKeys num_perm (bool b) index next same h = is_loaded index next h same
  load_value-SameKeys num_perm float index next same h = is_loaded index next h same
  load_value-SameKeys num_perm (int n) index next same h = is_loaded index next h same
  load_value-SameKeys num_perm (str s) index next same h = is_loaded index next h same
  load_value-SameKeys num_perm (arr values) index next same h = is_loaded index next h same

  load_values-SameKeys :
      (num_perm : ℕ) (values : Values) (index next : LoadedCorpusIndex L)
      → SameKeys index
      → load_values sketch document num_perm values index ≡ loaded next
      → SameKeys next
  unfolding load_values
  load_values-SameKeys num_perm nil index next same h = is_loaded index next h same
  load_values-SameKeys num_perm (cons v values) index next same h =
      elim (Loaded-cases (load_value sketch document num_perm v index)) [
        | inl (middle, e) ↦
            load_values-SameKeys num_perm values middle next
              (load_value-SameKeys num_perm v index middle same e) (ground (arith, e, h))
        | inr (f, e) ↦ cc
      ]

  load_entries-SameKeys :
      (num_perm raw_entries : Option Value) (next : LoadedCorpusIndex L)
      → load_entries sketch document num_perm raw_entries ≡ loaded next
      → SameKeys next
  unfolding load_entries empty_corpus_index or_value_error
  load_entries-SameKeys num_perm raw_entries next h = elim (Loaded-cases (as_int num_perm)) [
    | inr (f, e) ↦ cc
    | inl (n, e) ↦ elim (Loaded-cases (as_list raw_entries)) [
      | inr (f, e2) ↦ ground (arith, e, e2, h)
      | inl (values, e2) ↦ elim (Option-cases (sketch.lsh n)) [
        | inl e3 ↦ cc (rw (e, e2, e3) at h)
        | inr (lsh, e3) ↦
            load_values-SameKeys n values (record { lsh = lsh; entries = [] }) next
              (λ j. laws.lsh_empty n lsh j e3) (rw (e, e2, e3) at h)
      ]
    ]
  ]

  load_payload-SameKeys :
      (v : Value) (next : LoadedCorpusIndex L)
      → load_payload sketch document v ≡ loaded next
      → SameKeys next
  unfolding load_payload
  load_payload-SameKeys null next h = cc
  load_payload-SameKeys (bool b) next h = cc
  load_payload-SameKeys float next h = cc
  load_payload-SameKeys (int n) next h = cc
  load_payload-SameKeys (str s) next h = cc
  load_payload-SameKeys (arr values) next h = cc
  load_payload-SameKeys (obj fields) next h =
      elim (Bool-cases (is_format (get (codes "format") fields))) [
        | inl e ↦
            load_entries-SameKeys (get (codes "num_perm") fields) (get (codes "entries") fields)
              next (ground (arith, e, h))
        | inr e ↦ ground (arith, e, h)
      ]

  load_corpus_index-SameKeys :
      (raw : Bytes) (index : LoadedCorpusIndex L)
      → load_corpus_index sketch document raw ≡ loaded index
      → SameKeys index
  unfolding load_corpus_index or_value_error
  load_corpus_index-SameKeys raw index h = elim (Option-cases (document.loads raw)) [
    | inl e ↦ cc
    | inr (v, e) ↦ load_payload-SameKeys v index (ground (arith, e, h))
  ]

  -- Whatever the bytes of a file are: if it loads, then the keys that its LSH can return as candidates
  -- are exactly those that the engine finds a text for.
  pub load_corpus_index-get_entry :
      (raw : Bytes) (index : LoadedCorpusIndex L) (j : Text)
      → load_corpus_index sketch document raw ≡ loaded index
      → sketch.contains index.lsh j ≡ is_some (get_entry j index.entries)
  load_corpus_index-get_entry raw index j h =
      load_corpus_index-SameKeys raw index h j ∙ sym (get_entry-has_key j index.entries)
