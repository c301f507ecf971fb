-- ===== src/Registry/Citations/Quotes.antt =====
-- The double quotes of a CITATION.cff text (backend/app/services/versioning.py).
use eval_ledger.Base.{
  ℕ, suc, ◌+◌, ◌≡◌, refl, ◌∙◌, Option, List, [], ◌∷◌, ◌++◌, Text, codes, String, join,
  if◌then◌else◌, ◌==◌, arith, or_else,
}
use eval_ledger.Registry.Db.{Benchmark, BenchmarkVersion}
use eval_ledger.Registry.Citations.{
  Calendar, concat, replace, canonical_id, registry_url, effective_timestamp, newline, quote,
  quoted_line, cff_abstract, cff_identifiers, cff_lines, cff, citation_formats,
}

abbrev pub quotes : Text → ℕ
quotes [] = 0
quotes (c ∷ t) = let n = quotes t in if c == 34 then suc n else n

abbrev quotes_of_all : List Text → ℕ
quotes_of_all [] = 0
quotes_of_all (t ∷ ts) = quotes t + quotes_of_all ts

quotes-append : (s t : Text) → quotes (s ++ t) ≡ quotes s + quotes t
quotes-append [] t = omega arith
quotes-append (c ∷ s) t = ground (arith, quotes-append s t)

quotes-replace : (t : Text) → quotes (replace 34 39 t) ≡ 0
unfolding replace
quotes-replace [] = refl
quotes-replace (c ∷ t) = ground (arith, quotes-replace t)

-- Newlines between lines add no quote.
quotes-join : (ts : List Text) → quotes (join newline ts) ≡ quotes_of_all ts
unfolding join
quotes-join [] = refl
quotes-join (t ∷ []) = omega arith
quotes-join (t ∷ u ∷ ts) = ground (
  arith,
  quotes-append (t ++ newline) (join newline (u ∷ ts)),
  quotes-append t newline,
  quotes-join (u ∷ ts),
)

quotes-concat : (ts : List Text) → quotes (concat ts) ≡ quotes_of_all ts
unfolding concat
quotes-concat [] = refl
quotes-concat (t ∷ ts) = ground (arith, quotes-append t (concat ts), quotes-concat ts)

quotes-quoted_line :
    (name value : Text) → quotes (quoted_line name value) ≡ quotes name + quotes value + 2
unfolding quoted_line concat
quotes-quoted_line name value =
    ground
      (arith, quotes-append name (codes ": " ++ quote ++ value ++ quote), quotes-append value quote)

quotes-cff_abstract : (description : Option String) → quotes (cff_abstract description) ≡ 0
unfolding cff_abstract
quotes-cff_abstract description = quotes-replace (codes (or_else description ""))

quotes-registry_url :
    (slug v : Text) → quotes slug ≡ 0 → quotes v ≡ 0 → quotes (registry_url slug v) ≡ 0
unfolding registry_url
quotes-registry_url slug v h k = ground (
  arith,
  quotes-append (codes "https://evalledger.dev/registry/" ++ slug ++ codes "/") v,
  quotes-append (codes "https://evalledger.dev/registry/" ++ slug) (codes "/"),
  quotes-append (codes "https://evalledger.dev/registry/") slug,
)

quotes-canonical_id :
    (slug v : Text) → quotes slug ≡ 0 → quotes v ≡ 0 → quotes (canonical_id slug v) ≡ 0
unfolding canonical_id
quotes-canonical_id slug v h k = ground (
  arith,
  quotes-append (codes "el:" ++ slug ++ codes ":") v,
  quotes-append (codes "el:" ++ slug) (codes ":"),
  quotes-append (codes "el:") slug,
)

identifiers : (slug v : Text) → quotes slug ≡ 0 → quotes v ≡ 0 → quotes (cff_identifiers slug v) ≡ 4
unfolding cff_identifiers
identifiers slug v h k =
    quotes-concat (
      codes "identifiers:"
      ∷ newline
      ∷ quoted_line (codes "  - type") (codes "other")
      ∷ newline
      ∷ quoted_line (codes "    value") (canonical_id slug v)
      ∷ [])
    ∙ ground (
      arith,
      quotes-quoted_line (codes "  - type") (codes "other"),
      quotes-quoted_line (codes "    value") (canonical_id slug v),
      quotes-canonical_id slug v h k,
    )

-- Slug, version and date have no double quote; nothing is asked of the name and the description. Then
-- the text has the twenty quotes around its ten quoted values, and one more for each in the name, which
-- is not escaped, while those of the description are replaced.
pub cff_quotes :
    (calendar : Calendar) (benchmark : Benchmark) (version : BenchmarkVersion)
    → quotes (codes benchmark.slug) ≡ 0
    → quotes (codes version.version) ≡ 0
    → quotes (calendar.iso_date (effective_timestamp version)) ≡ 0
    → quotes (citation_formats calendar benchmark version).cff ≡ 20 + quotes (codes benchmark.name)
unfolding citation_formats cff cff_lines
cff_quotes calendar benchmark version slug v date =
    let slug_ = codes benchmark.slug in
    let v_ = codes version.version in
    quotes-join (cff_lines calendar benchmark version)
    ∙ ground (
      arith,
      quotes-quoted_line (codes "title") (codes benchmark.name),
      quotes-quoted_line (codes "version") v_,
      quotes-quoted_line (codes "abstract") (cff_abstract benchmark.description),
      quotes-cff_abstract benchmark.description,
      quotes-quoted_line (codes "date-released") (calendar.iso_date (effective_timestamp version)),
      quotes-quoted_line (codes "url") (registry_url slug_ v_),
      quotes-registry_url slug_ v_ slug v,
      identifiers slug_ v_ slug v,
    )
