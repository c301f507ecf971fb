-- ===== src/Contamination/Examples.antt =====
-- Extraction of the examples of an artifact: `_collect_strings`, `_extract_json_examples` and
-- `extract_examples` of backend/app/services/contamination_engine.py. The decoders (UTF-8, json, csv,
-- pyarrow) are the parameter `Readers`. A generator is the stream of what it yields, which may end
-- by an exception.
pub mod NonEmpty
pub mod Formats
use eval_ledger.Base.{
  ℕ, ◌≡◌, ◌≢◌, refl, ap, sym, ◌∙◌, Bool, true, false, not, ◌&&◌, Option, none, some, List, [], ◌∷◌,
  ◌++◌, arith, if◌then◌else◌, Text, codes, text_eq, is_empty, strip, join, suffix_of, All,
  All-append, Bool-cases, inl, inr, map, or_else,
}
use eval_ledger.Contamination.Shingles.{is_nil}

-- What `json.loads` returns, and rows of csv and parquet.
mutual
  pub data Json : Type 0 where
    null : Json
    number : Json
    str : Text → Json
    arr : Items → Json
    obj : Fields → Json

  pub data Items : Type 0 where
    nil : Items
    cons : Json → Items → Items

  pub data Fields : Type 0 where
    end : Fields
    field : Text → Json → Fields → Fields

unfoldable mutual
  pub collect_strings : Json → List Text
  collect_strings null = []
  collect_strings number = []
  collect_strings (str s) = if is_empty (strip s) then [] else strip s ∷ []
  collect_strings (arr items) = collect_items items
  collect_strings (obj fields) = collect_fields fields

  pub collect_items : Items → List Text
  collect_items nil = []
  collect_items (cons j items) = collect_strings j ++ collect_items items

  pub collect_fields : Fields → List Text
  collect_fields end = []
  collect_fields (field k j fields) = collect_strings j ++ collect_fields fields

pub data Stream : Type 0 where
  stop : Stream
  raises : Stream
  yields : Text → Stream → Stream

-- `if strings: yield " ".join(strings)`
unfoldable pub yield_strings : List Text → Stream → Stream
yield_strings [] rest = rest
yield_strings (s ∷ ss) rest = yields (join (32 ∷ []) (s ∷ ss)) rest

unfoldable pub yield_items : Items → Stream
unfolding yield_strings
yield_items nil = stop
yield_items (cons j items) = yield_strings (collect_strings j) (yield_items items)

-- `data["examples"]`, if it is there and is a list.
unfoldable pub examples_field : Fields → Option Items
examples_field end = none
examples_field (field k j fields) =
    if text_eq k (codes "examples")
    then elim j [ arr items ↦ some items | _ ↦ none ]
    else examples_field fields

object_examples : Fields → Option Items → Stream
unfolding yield_items yield_strings
object_examples fields none = yield_strings (collect_fields fields) stop
object_examples fields (some items) = yield_items items

unfoldable pub extract_json_examples : Json → Stream
unfolding yield_items yield_strings object_examples
extract_json_examples (arr items) = yield_items items
extract_json_examples (obj fields) = object_examples fields (examples_field fields)
extract_json_examples null = stop
extract_json_examples number = stop
extract_json_examples (str s) = yield_strings (collect_strings (str s)) stop

-- The decoders. `none` is an exception; in `csv_rows` it is raised when that row is reached.
pub record Readers (Bytes : Type 0) : Type 0 where
  pub decode_json : Bytes → Option Json
  pub decode_lines : Bytes → Option (List Text)
  pub loads_line : Text → Option Json
  pub csv_rows : Bytes → List (Option Json)
  pub parquet_rows : Bytes → Option Items
  pub lenient_lines : Bytes → List Text

-- One row or value a step; reaching one that does not decode raises.
unfoldable pub yield_rows : List (Option Json) → Stream
yield_rows [] = stop
yield_rows (none ∷ rows) = raises
yield_rows (some j ∷ rows) = yield_strings (collect_strings j) (yield_rows rows)

-- Blank lines are skipped.
unfoldable pub nonblank : List Text → List Text
unfolding strip
nonblank [] = []
nonblank (l ∷ ls) = let rest = nonblank ls in if is_empty (strip l) then rest else l ∷ rest

unfoldable pub yield_lines : List Text → Stream
yield_lines [] = stop
yield_lines (l ∷ ls) =
    let rest = yield_lines ls in if is_empty (strip l) then rest else yields (strip l) rest

or_raise {ℓ} : {A : Type ℓ} → (A → Stream) → Option A → Stream
or_raise f none = raises
or_raise f (some a) = f a

module _ {Bytes : Type 0} (lower : Text → Text) (r : Readers Bytes) where
  unfoldable pub extract_jsonl : List Text → Stream
  unfolding yield_rows nonblank
  extract_jsonl lines = yield_rows (map r.loads_line (nonblank lines))

  unfoldable pub extract_examples : Text → Bytes → Stream
  unfolding or_raise suffix_of yield_lines yield_rows yield_items
  extract_examples artifact_name artifact_bytes =
      let suffix = lower (suffix_of artifact_name) in
      if text_eq suffix (codes ".json")
      then or_raise extract_json_examples (r.decode_json artifact_bytes)
      else if text_eq suffix (codes ".jsonl")
      then or_raise extract_jsonl (r.decode_lines artifact_bytes)
      else if text_eq suffix (codes ".csv")
      then yield_rows (r.csv_rows artifact_bytes)
      else if text_eq suffix (codes ".parquet")
      then or_raise yield_items (r.parquet_rows artifact_bytes)
      else yield_lines (r.lenient_lines artifact_bytes)
