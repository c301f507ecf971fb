-- ===== src/Witnesses/Index.antt =====
-- A corpus index of two texts.
use eval_ledger.Base.{
  ℕ, zero, suc, ◌≡◌, ◌<◌, refl, Bool, true, false, not, ◌||◌, Option, none, some, List, [], ◌∷◌,
  ◌++◌, map, arith, if◌then◌else◌, length, any, any-append, ◌==◌, ltb, Text, codes, text_eq, All,
  is_some, ==_self,
}
use eval_ledger.Witnesses.Services.{lower, is_word}
use eval_ledger.Contamination.Detection.{get_entry}
use eval_ledger.Contamination.JsonFile.{Value, Document, loaded}
use eval_ledger.Contamination.CorpusIndex.{
  Datasketch, LoadedCorpusIndex, load_corpus_index, serialize_corpus_index,
}
use eval_ledger.Contamination.CorpusIndex.Laws.{Sketches, ReadsWritten}
use eval_ledger.Contamination.CorpusIndex.RoundTrip.{insert_all, load-serialize_corpus_index}
use eval_ledger.Contamination.CorpusIndex.Candidates.{load_corpus_index-get_entry}

-- A MinHash that counts its updates modulo 2, in each of its values; an index is a list.
abbrev Bits : Type 0
Bits = List Bool

abbrev Index : Type 0
Index = ℕ × List (Text × Bits)

abbrev bits : ℕ → Bits
bits zero = []
bits (suc n) = false ∷ bits n

abbrev value_of : Bool → ℕ
value_of true = 1
value_of false = 0

abbrev has : Index → Text → Bool
has l k = any (λ e. text_eq e.0 k) l.1

abbrev add : Index → Text → Bits → Option Index
add l k m =
    if has l k || not (length (map value_of m) == l.0) then none else some (l.0, l.1 ++ (k, m) ∷ [])

abbrev sketch : Datasketch Bits Index
sketch = record {
  minhash = bits;
  update = λ m s. map not m;
  hashvalues = map value_of;
  of_hashvalues = λ n. map (λ v. v == 1);
  lsh = λ n. if ltb n 2 then none else some (n, []);
  insert = add;
  query = λ l m. map (λ e. e.0) l.1;
  contains = has;
  width = λ l. l.0;
}

length-bits : (n : ℕ) → length (map value_of (bits n)) ≡ n
length-bits zero = refl
length-bits (suc n) = omega (arith, length-bits n)

length_flipped : (m : Bits) → length (map value_of (map not m)) ≡ length (map value_of m)
length_flipped [] = refl
length_flipped (b ∷ m) = omega (arith, length_flipped m)

small : (m : Bits) → All (λ v. v < 18446744073709551616) (map value_of m)
small [] = tt
small (true ∷ m) = (omega arith, small m)
small (false ∷ m) = (omega arith, small m)

restored : (m : Bits) → map (λ v. v == 1) (map value_of m) ≡ m
restored [] = refl
restored (true ∷ m) = rw (restored m) refl
restored (false ∷ m) = rw (restored m) refl

sketch-Sketches : Sketches sketch
sketch-Sketches = record {
  length_minhash = length-bits;
  length_update = λ m s. length_flipped m;
  hashvalues_uint64 = small;
  restores = restored;
  lsh_made = λ n enough. ((n, []), ground (arith, enough));
  lsh_refuses = λ n few. ground (arith, few);
  lsh_empty = λ n l j made. ground (arith, made);
  lsh_width = λ n l made. ground (arith, made);
  insert_new = λ l k m free fits. ((l.0, l.1 ++ (k, m) ∷ []), rw (free, fits, ==_self l.0) refl);
  insert_refuses = λ l k m taken. rw taken refl;
  insert_width = λ l l' k m added. ground (arith, added);
  insert_contains =
      λ l l' k m added j. ground (arith, added, any-append (λ e. text_eq e.0 j) l.1 ((k, m) ∷ []));
}

-- A file is its document.
abbrev document : Document Value
document = record {
  dumps = λ v. v;
  loads = λ v. some v;
  show = λ v. [];
  parse = λ t. none;
  truncate = none;
}

document-ReadsWritten : ReadsWritten document
document-ReadsWritten v = refl

abbrev texts : List (Text × Text)
texts = (codes "pile-0", codes "the quick fox") ∷ (codes "pile-1", codes "a lazy dog") ∷ []

load-serialize_corpus_index_example :
    (index : LoadedCorpusIndex Index) × (load_corpus_index sketch document
        (serialize_corpus_index is_word lower sketch document 4 2 texts)
      ≡ loaded index)
    × (index.entries ≡ texts)
    × ((lsh : Index) × (sketch.lsh 4 ≡ some lsh)
        × (insert_all is_word lower sketch sketch-Sketches 4 2 texts lsh ≡ some index.lsh))
load-serialize_corpus_index_example =
    load-serialize_corpus_index is_word lower sketch sketch-Sketches 4 2 document
      document-ReadsWritten (omega arith) texts (refl, (refl, tt))

-- The index that is loaded for these texts.
texts_loaded :
    (index : LoadedCorpusIndex Index) × (load_corpus_index sketch document
        (serialize_corpus_index is_word lower sketch document 4 2 texts)
      ≡ loaded index)
texts_loaded =
    let (index, loads, _, _) =
      load-serialize_corpus_index is_word lower sketch sketch-Sketches 4 2 document
        document-ReadsWritten (omega arith) texts (refl, (refl, tt)) in
    (index, loads)

load_corpus_index-get_entry_example :
    has texts_loaded.0.lsh (codes "pile-1")
    ≡ is_some (get_entry (codes "pile-1") texts_loaded.0.entries)
load_corpus_index-get_entry_example =
    load_corpus_index-get_entry sketch sketch-Sketches document
      (serialize_corpus_index is_word lower sketch document 4 2 texts) texts_loaded.0
      (codes "pile-1") texts_loaded.1
