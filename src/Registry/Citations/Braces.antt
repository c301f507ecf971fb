-- ===== src/Registry/Citations/Braces.antt =====
-- BibTeX entries (backend/app/services/versioning.py) are balanced, whatever the benchmark is called.
use eval_ledger.Base.{
  ℕ, zero, suc, ◌≡◌, refl, ◌∙◌, All, Bool, true, not, ◌&&◌, Option, none, some, List, [], ◌∷◌, ◌++◌,
  Text, codes, String, filter, all, join, if◌then◌else◌, ◌==◌, arith,
}
use eval_ledger.Registry.Db.{Benchmark, BenchmarkVersion}
use eval_ledger.Registry.Citations.{
  Calendar, concat, remove, replace, canonical_id, registry_url, effective_timestamp, newline,
  bibtex_title, sha_value, bibtex_key, bibtex_field, bibtex_parts, bibtex, citation_formats,
}

-- How many braces are open after a text, from `n`; none where one closes that was not open.
unfoldable pub open_braces : Text → ℕ → Option ℕ
open_braces [] n = some n
open_braces (c ∷ t) zero =
    let opened = open_braces t 1 in
    let same = open_braces t zero in if c == 123 then opened else if c == 125 then none else same
open_braces (c ∷ t) (suc n) =
    let opened = open_braces t (suc (suc n)) in
    let closed = open_braces t n in
    let same = open_braces t (suc n) in
    if c == 123 then opened else if c == 125 then closed else same

abbrev pub is_plain : Text → Bool
is_plain t = all (λ c. not (c == 123) && not (c == 125)) t

open_then : Text → Option ℕ → Option ℕ
open_then t none = none
open_then t (some n) = open_braces t n

open_braces-append : (s t : Text) (n : ℕ) → open_braces (s ++ t) n ≡ open_then t (open_braces s n)
unfolding open_braces open_then
open_braces-append [] t n = refl
open_braces-append (c ∷ s) t zero =
    ground (arith, open_braces-append s t 1, open_braces-append s t zero)
open_braces-append (c ∷ s) t (suc n) = ground (
  arith,
  open_braces-append s t (suc (suc n)),
  open_braces-append s t n,
  open_braces-append s t (suc n),
)

open_braces-plain : (t : Text) (n : ℕ) → is_plain t ≡ true → open_braces t n ≡ some n
unfolding open_braces
open_braces-plain [] n h = refl
open_braces-plain (c ∷ t) zero h = ground (arith, open_braces-plain t zero)
open_braces-plain (c ∷ t) (suc n) h = ground (arith, open_braces-plain t (suc n))

-- A text between the braces of an entry leaves the depth at one.
abbrev Keeps : Text → Type 0
Keeps t = open_braces t 1 ≡ some 1

Keeps-append : (s t : Text) → Keeps s → Keeps t → Keeps (s ++ t)
unfolding open_then
Keeps-append s t h k = open_braces-append s t 1 ∙ rw h k

Keeps-plain : (t : Text) → is_plain t ≡ true → Keeps t
Keeps-plain t h = open_braces-plain t 1 h

Keeps-join : (sep : Text) (ts : List Text) → Keeps sep → All Keeps ts → Keeps (join sep ts)
unfolding join open_braces
Keeps-join sep [] k h = refl
Keeps-join sep (t ∷ []) k h = h.0
Keeps-join sep (t ∷ u ∷ ts) k h =
    Keeps-append (t ++ sep) (join sep (u ∷ ts)) (Keeps-append t sep h.0 k)
      (Keeps-join sep (u ∷ ts) k h.1)

is_plain-append : (s t : Text) → is_plain s ≡ true → is_plain t ≡ true → is_plain (s ++ t) ≡ true
is_plain-append [] t h k = k
is_plain-append (c ∷ s) t h k = ground (arith, is_plain-append s t)

without_braces :
    (t : Text) → is_plain (filter (λ c. not (c == 125)) (filter (λ c. not (c == 123)) t)) ≡ true
without_braces [] = refl
without_braces (c ∷ t) = ground (arith, without_braces t)

is_plain-replace : (t : Text) → is_plain t ≡ true → is_plain (replace b'.' b'_' t) ≡ true
unfolding replace
is_plain-replace [] h = refl
is_plain-replace (c ∷ t) h = ground (arith, is_plain-replace t)

is_plain-title : (name : String) → is_plain (bibtex_title name) ≡ true
unfolding bibtex_title remove
is_plain-title name = without_braces (codes name)

field_Keeps :
    (name value : Text)
    → is_plain name ≡ true
    → is_plain value ≡ true
    → Keeps (bibtex_field name value)
unfolding bibtex_field concat open_braces open_then
field_Keeps name value h k =
    rw
      (
        open_braces-append name (codes " = {" ++ value ++ codes "}") 1,
        open_braces-plain name 1 h,
        open_braces-append value (codes "}") 2,
        open_braces-plain value 2 k,
      )
      refl

canonical_id-is_plain :
    (slug v : Text)
    → is_plain slug ≡ true
    → is_plain v ≡ true
    → is_plain (canonical_id slug v) ≡ true
unfolding canonical_id
canonical_id-is_plain slug v h k =
    is_plain-append (codes "el:" ++ slug ++ codes ":") v
      (is_plain-append (codes "el:" ++ slug) (codes ":") (is_plain-append (codes "el:") slug refl h)
        refl)
      k

parts_Keep :
    (calendar : Calendar) (benchmark : Benchmark) (version : BenchmarkVersion)
    → is_plain (codes benchmark.slug) ≡ true
    → is_plain (codes version.version) ≡ true
    → is_plain (sha_value version.artifact_sha256) ≡ true
    → is_plain (calendar.year_of (effective_timestamp version)) ≡ true
    → All Keeps (bibtex_parts calendar benchmark version)
unfolding bibtex_parts bibtex_key registry_url
parts_Keep calendar benchmark version h k sha year =
    let slug = codes benchmark.slug in
    let v = codes version.version in
    let key : is_plain (slug ++ codes "_v" ++ replace b'.' b'_' v) ≡ true =
      is_plain-append (slug ++ codes "_v") (replace b'.' b'_' v)
        (is_plain-append slug (codes "_v") h refl) (is_plain-replace v k) in
    let url : is_plain (codes "https://evalledger.dev/registry/" ++ slug ++ codes "/" ++ v) ≡ true =
      is_plain-append (codes "https://evalledger.dev/registry/" ++ slug ++ codes "/") v
        (is_plain-append (codes "https://evalledger.dev/registry/" ++ slug) (codes "/")
          (is_plain-append (codes "https://evalledger.dev/registry/") slug refl h) refl)
        k in
    (
      Keeps-plain (bibtex_key slug v) key,
      (
        field_Keeps (codes "title   ") (bibtex_title benchmark.name) refl
            (is_plain-title benchmark.name),
        (
          field_Keeps (codes "version ") v refl k,
          (
            field_Keeps (codes "registry") (codes "EvalLedger") refl refl,
            (
              field_Keeps (codes "id      ") (canonical_id slug v) refl
                  (canonical_id-is_plain slug v h k),
              (
                field_Keeps (codes "sha256  ") (sha_value version.artifact_sha256) refl sha,
                (
                  field_Keeps (codes "year    ") (calendar.year_of (effective_timestamp version))
                      refl year,
                  (field_Keeps (codes "url     ") (registry_url slug v) refl url, tt),
                ),
              ),
            ),
          ),
        ),
      ),
    )

-- A slug, a version, a hash and a year have no braces; nothing is asked of the benchmark's name. Then
-- every brace of the BibTeX entry that opens closes, and none closes that was not open.
pub bibtex_balanced :
    (calendar : Calendar) (benchmark : Benchmark) (version : BenchmarkVersion)
    → is_plain (codes benchmark.slug) ≡ true
    → is_plain (codes version.version) ≡ true
    → is_plain (sha_value version.artifact_sha256) ≡ true
    → is_plain (calendar.year_of (effective_timestamp version)) ≡ true
    → open_braces (citation_formats calendar benchmark version).bibtex 0 ≡ some 0
unfolding citation_formats bibtex open_braces open_then
bibtex_balanced calendar benchmark version slug v sha year =
    let parts = join (codes "," ++ newline) (bibtex_parts calendar benchmark version) in
    let kept : Keeps parts =
      Keeps-join (codes "," ++ newline) (bibtex_parts calendar benchmark version) refl
        (parts_Keep calendar benchmark version slug v sha year) in
    rw (open_braces-append (parts ++ newline) (codes "}") 1, Keeps-append parts newline kept refl)
      refl
