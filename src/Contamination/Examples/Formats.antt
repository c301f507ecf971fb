-- ===== src/Contamination/Examples/Formats.antt =====
-- The examples of an artifact do not depend on which JSON format holds its items.
use eval_ledger.Base.{◌≡◌, refl, ap, ◌∙◌, some, List, [], ◌∷◌, Text, map}
use eval_ledger.Contamination.Examples.{
  Json, arr, obj, Items, nil, cons, Fields, collect_strings, yield_strings, yield_items,
  examples_field, object_examples, extract_json_examples, Readers, yield_rows, extract_jsonl,
  nonblank,
}

abbrev pub to_items : List Json → Items
to_items [] = nil
to_items (j ∷ js) = cons j (to_items js)

yield_rows-items : (js : List Json) → yield_rows (map some js) ≡ yield_items (to_items js)
unfolding yield_rows yield_items
yield_rows-items [] = refl
yield_rows-items (j ∷ js) = ap (yield_strings (collect_strings j)) (yield_rows-items js)

module _ {Bytes : Type 0} (lower : Text → Text) (r : Readers Bytes) where
  -- The same items give the same examples, in the same order, as a JSON array, as the list under
  -- the key "examples" of a JSON object, and a value a line as JSONL, blank lines skipped.
  pub json_formats_agree :
      (items : List Json) (fields : Fields) (lines : List Text)
      → examples_field fields ≡ some (to_items items)
      → map r.loads_line (nonblank lines) ≡ map some items
      → (extract_json_examples (obj fields) ≡ extract_json_examples (arr (to_items items)))
        × (extract_jsonl lower r lines ≡ extract_json_examples (arr (to_items items)))
  unfolding extract_json_examples extract_jsonl object_examples
  json_formats_agree items fields lines f l = (rw f refl, ap yield_rows l ∙ yield_rows-items items)
