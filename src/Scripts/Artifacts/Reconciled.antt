-- ===== src/Scripts/Artifacts/Reconciled.antt =====
-- What a reconciliation report says (backend/app/scripts/check_artifacts.py).
use mathlib.Core.Path.{ap₂}
use mathlib.Core.List.{append-nil, append_assoc}
use eval_ledger.Base.{
  ◌+◌, ◌≡◌, refl, ap, subst, ◌∙◌, Bool, not, ◌&&◌, List, [], ◌∷◌, ◌++◌, map, Text, arith, filter,
  length, is_empty, all,
}
use eval_ledger.Scripts.Artifacts.{
  ArtifactEntry, ReconciliationReport, empty_report, add, add_all, is_ok, Storage, entry_of,
  all_refs, reconcile, Kind, benchmark_version, corpus_index, check_key,
}

abbrev pub is_error : ArtifactEntry → Bool
is_error e = not (is_empty e.error)

abbrev pub is_missing : ArtifactEntry → Bool
is_missing e = is_empty e.error && not e.exists

abbrev pub is_found : ArtifactEntry → Bool
is_found e = is_empty e.error && e.exists

-- The report that lists and counts the entries.
abbrev pub report_on : List ArtifactEntry → ReconciliationReport
report_on entries = record {
  total = length entries;
  found = length (filter is_found entries);
  missing = length (filter is_missing entries);
  errors = length (filter is_error entries);
  missing_entries = filter is_missing entries;
  error_entries = filter is_error entries;
}

-- A report on some entries, with the rest added, is the report on all of them.
joined : ReconciliationReport → ReconciliationReport → ReconciliationReport
joined a b = record {
  total = a.total + b.total;
  found = a.found + b.found;
  missing = a.missing + b.missing;
  errors = a.errors + b.errors;
  missing_entries = a.missing_entries ++ b.missing_entries;
  error_entries = a.error_entries ++ b.error_entries;
}

add_one :
    (e : ArtifactEntry) (entries : List ArtifactEntry) (report : ReconciliationReport)
    → joined (add e report) (report_on entries) ≡ joined report (report_on (e ∷ entries))
unfolding add joined
add_one e entries report = ground (
  arith,
  append_assoc report.missing_entries (e ∷ []) (filter is_missing entries),
  append_assoc report.error_entries (e ∷ []) (filter is_error entries),
)

add_all-joined :
    (entries : List ArtifactEntry) (report : ReconciliationReport)
    → add_all entries report ≡ joined report (report_on entries)
unfolding add_all joined
add_all-joined [] report =
    ground (arith, append-nil report.missing_entries, append-nil report.error_entries)
add_all-joined (e ∷ entries) report =
    add_all-joined entries (add e report) ∙ add_one e entries report

joined_empty : (report : ReconciliationReport) → joined empty_report report ≡ report
unfolding joined
joined_empty report = ground arith

-- Every entry is counted in one of three ways.
counted :
    (entries : List ArtifactEntry)
    → length entries
      ≡ length (filter is_found entries)
        + length (filter is_missing entries)
        + length (filter is_error entries)
counted [] = omega arith
counted (e ∷ entries) = ground (arith, counted entries)

all_found : (entries : List ArtifactEntry) → is_ok (report_on entries) ≡ all is_found entries
unfolding is_ok
all_found [] = refl
all_found (e ∷ entries) = ground (arith, all_found entries)

-- What storage says of a reference.
abbrev pub checked : Storage → Kind → Text × Text → ArtifactEntry
checked storage kind ref = record {
  kind = kind;
  ref_id = ref.0;
  storage_key = ref.1;
  exists = (check_key storage ref.1).0;
  error = (check_key storage ref.1).1;
}

entry_is_checked :
    (storage : Storage) (kind : Kind) (r : Text × Text)
    → entry_of storage (kind, r.0, r.1) ≡ checked storage kind r
unfolding entry_of
entry_is_checked storage kind r = refl

entries_of :
    (storage : Storage) (kind : Kind) (refs : List (Text × Text))
    → map (entry_of storage) (map (λ (ref_id, key). (kind, ref_id, key)) refs)
      ≡ map (checked storage kind) refs
unfolding entry_of
entries_of storage kind [] = refl
entries_of storage kind (r ∷ refs) =
    ap (λ es. checked storage kind r ∷ es) (entries_of storage kind refs)

entries_of_refs :
    (storage : Storage) (version_refs corpus_refs : List (Text × Text))
    → map (entry_of storage) (all_refs version_refs corpus_refs)
      ≡ map (checked storage benchmark_version) version_refs
        ++ map (checked storage corpus_index) corpus_refs
unfolding all_refs
entries_of_refs storage [] corpus_refs = entries_of storage corpus_index corpus_refs
entries_of_refs storage (r ∷ version_refs) corpus_refs =
    ap₂ ◌∷◌ (entry_is_checked storage benchmark_version r)
      (entries_of_refs storage version_refs corpus_refs)

-- The report on the references of all versions and then of all corpora, each as storage answers for its
-- key, lists exactly those that could not be checked and those that are missing,
-- in order, its counts are the lengths of these lists, every reference is in one count, and it is in
-- order exactly if each reference was found.
pub reconcile_lem :
    (storage : Storage) (version_refs corpus_refs : List (Text × Text))
    → let entries =
        map (checked storage benchmark_version) version_refs
        ++ map (checked storage corpus_index) corpus_refs in
      let report = reconcile storage version_refs corpus_refs in
      (report ≡ report_on entries)
      × (report.total ≡ report.found + report.missing + report.errors)
      × (is_ok report ≡ all is_found entries)
unfolding reconcile
reconcile_lem storage version_refs corpus_refs =
    let entries = map (entry_of storage) (all_refs version_refs corpus_refs) in
    let same : add_all entries empty_report ≡ report_on entries =
      add_all-joined entries empty_report ∙ joined_empty (report_on entries) in
    subst
      (λ es.
        let report = add_all entries empty_report in
        (report ≡ report_on es)
        × (report.total ≡ report.found + report.missing + report.errors)
        × (is_ok report ≡ all is_found es))
      (entries_of_refs storage version_refs corpus_refs)
      (same, rw same (counted entries), rw same (all_found entries))
