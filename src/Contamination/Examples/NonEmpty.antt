-- ===== src/Contamination/Examples/NonEmpty.antt =====
-- No example that reaches the detection is an empty text, whatever the format of the artifact.
use eval_ledger.Base.{
  ◌≡◌, refl, Bool, true, false, Option, none, some, List, [], ◌∷◌, if◌then◌else◌, Text, codes,
  text_eq, is_empty, strip, join, suffix_of, All, All-append, Bool-cases, inl, inr, map,
}
use eval_ledger.Contamination.Examples.{
  Json, null, number, str, arr, obj, Items, nil, cons, Fields, end, field, collect_strings,
  collect_items, collect_fields, Stream, stop, raises, yields, yield_strings, yield_items,
  examples_field, object_examples, extract_json_examples, Readers, yield_rows, yield_lines,
  or_raise, extract_jsonl, extract_examples, nonblank,
}

-- Every text that a stream yields is non-empty.
abbrev pub AllNonEmpty : Stream → Type 0
AllNonEmpty stop = Unit
AllNonEmpty raises = Unit
AllNonEmpty (yields t rest) = (is_empty t ≡ false) × AllNonEmpty rest

abbrev IsNonEmpty : Text → Type 0
IsNonEmpty t = is_empty t ≡ false

mutual
  unfolding collect_strings collect_items collect_fields

  collect_strings_nonempty : (j : Json) → All IsNonEmpty (collect_strings j)
  collect_strings_nonempty null = tt
  collect_strings_nonempty number = tt
  collect_strings_nonempty (str s) = elim (Bool-cases (is_empty (strip s))) [
    | inl e ↦ rw e tt
    | inr e ↦ rw e (e, tt)
  ]
  collect_strings_nonempty (arr items) = collect_items_nonempty items
  collect_strings_nonempty (obj fields) = collect_fields_nonempty fields

  collect_items_nonempty : (items : Items) → All IsNonEmpty (collect_items items)
  collect_items_nonempty nil = tt
  collect_items_nonempty (cons j items) =
      All-append IsNonEmpty (collect_strings j) (collect_items items) (collect_strings_nonempty j)
        (collect_items_nonempty items)

  collect_fields_nonempty : (fields : Fields) → All IsNonEmpty (collect_fields fields)
  collect_fields_nonempty end = tt
  collect_fields_nonempty (field k j fields) =
      All-append IsNonEmpty (collect_strings j) (collect_fields fields) (collect_strings_nonempty j)
        (collect_fields_nonempty fields)

join_nonempty : (sep s : Text) (ss : List Text) → IsNonEmpty s → IsNonEmpty (join sep (s ∷ ss))
unfolding join
join_nonempty sep s [] h = h
join_nonempty sep [] (t ∷ ts) h = cc
join_nonempty sep (c ∷ s) (t ∷ ts) h = refl

yield_strings_nonempty :
    (ss : List Text) (rest : Stream)
    → All IsNonEmpty ss
    → AllNonEmpty rest
    → AllNonEmpty (yield_strings ss rest)
unfolding yield_strings
yield_strings_nonempty [] rest h k = k
yield_strings_nonempty (s ∷ ss) rest h k = (join_nonempty (32 ∷ []) s ss h.0, k)

yield_items_nonempty : (items : Items) → AllNonEmpty (yield_items items)
unfolding yield_items
yield_items_nonempty nil = tt
yield_items_nonempty (cons j items) =
    yield_strings_nonempty (collect_strings j) (yield_items items) (collect_strings_nonempty j)
      (yield_items_nonempty items)

yield_rows_nonempty : (rows : List (Option Json)) → AllNonEmpty (yield_rows rows)
unfolding yield_rows
yield_rows_nonempty [] = tt
yield_rows_nonempty (none ∷ rows) = tt
yield_rows_nonempty (some j ∷ rows) =
    yield_strings_nonempty (collect_strings j) (yield_rows rows) (collect_strings_nonempty j)
      (yield_rows_nonempty rows)

yield_lines_nonempty : (ls : List Text) → AllNonEmpty (yield_lines ls)
unfolding yield_lines
yield_lines_nonempty [] = tt
yield_lines_nonempty (l ∷ ls) = elim (Bool-cases (is_empty (strip l))) [
  | inl e ↦ rw e (yield_lines_nonempty ls)
  | inr e ↦ rw e (e, yield_lines_nonempty ls)
]

object_examples_nonempty :
    (fields : Fields) (o : Option Items) → AllNonEmpty (object_examples fields o)
unfolding object_examples
object_examples_nonempty fields none =
    yield_strings_nonempty (collect_fields fields) stop (collect_fields_nonempty fields) tt
object_examples_nonempty fields (some items) = yield_items_nonempty items

extract_json_nonempty : (j : Json) → AllNonEmpty (extract_json_examples j)
unfolding extract_json_examples
extract_json_nonempty (arr items) = yield_items_nonempty items
extract_json_nonempty (obj fields) = object_examples_nonempty fields (examples_field fields)
extract_json_nonempty null = tt
extract_json_nonempty number = tt
extract_json_nonempty (str s) =
    yield_strings_nonempty (collect_strings (str s)) stop (collect_strings_nonempty (str s)) tt

or_raise_nonempty {ℓ} :
    {A : Type ℓ} (f : A → Stream) (o : Option A)
    → ((a : A) → AllNonEmpty (f a))
    → AllNonEmpty (or_raise f o)
unfolding or_raise
or_raise_nonempty f none h = tt
or_raise_nonempty f (some a) h = h a

Stream-if :
    (b : Bool) (s t : Stream) → AllNonEmpty s → AllNonEmpty t → AllNonEmpty (if b then s else t)
Stream-if true s t h k = h
Stream-if false s t h k = k

module _ {Bytes : Type 0} (lower : Text → Text) (r : Readers Bytes) where
  extract_jsonl_nonempty : (lines : List Text) → AllNonEmpty (extract_jsonl lower r lines)
  unfolding extract_jsonl
  extract_jsonl_nonempty lines = yield_rows_nonempty (map r.loads_line (nonblank lines))

  -- Whatever the artifact is called and holds, each text that `extract_examples` yields is not empty.
  pub extract_examples_nonempty :
      (artifact_name : Text) (artifact_bytes : Bytes)
      → AllNonEmpty (extract_examples lower r artifact_name artifact_bytes)
  unfolding extract_examples
  extract_examples_nonempty name bytes =
      let suffix = lower (suffix_of name) in
      Stream-if (text_eq suffix (codes ".json")) _ _
        (or_raise_nonempty extract_json_examples (r.decode_json bytes) extract_json_nonempty)
        (Stream-if (text_eq suffix (codes ".jsonl")) _ _
          (or_raise_nonempty (extract_jsonl lower r) (r.decode_lines bytes) extract_jsonl_nonempty)
          (Stream-if (text_eq suffix (codes ".csv")) _ _ (yield_rows_nonempty (r.csv_rows bytes)) (
            Stream-if (text_eq suffix (codes ".parquet")) _ _
              (or_raise_nonempty yield_items (r.parquet_rows bytes) yield_items_nonempty)
              (yield_lines_nonempty (r.lenient_lines bytes)))))
