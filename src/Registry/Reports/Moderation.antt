-- ===== src/Registry/Reports/Moderation.antt =====
-- The life of an abuse report, over any sequence of filings and decisions.
use eval_ledger.Base.{
  ℕ, ◌≡◌, refl, true, List, [], ◌∷◌, arith, select, is_some, All, All-append, All-update_where,
  Option-cases, inl, inr,
}
use eval_ledger.Registry.Db.{User, AbuseReport}
use eval_ledger.Registry.Session.{World, request, commit, record_audit_event}
use eval_ledger.Registry.Reports.{
  ReportCreate, ReportResolve, is_closed, report_has_id, new_report, resolved, create_report,
  resolve_report,
}

-- A request to one of the two handlers that write.
pub data Moderation : Type 0 where
  file : ℕ → ℕ → ReportCreate → User → Moderation
  decide : ℕ → ℕ → ReportResolve → User → Moderation

abbrev pub run : Moderation → World → World
run (file new_id now payload user) w = (request (create_report new_id now payload user) w).1
run (decide report_id now payload admin) w =
    (request (resolve_report report_id now payload admin) w).1

abbrev pub run_all : List Moderation → World → World
run_all [] w = w
run_all (m ∷ ms) w = run_all ms (run m w)

-- A report has a time of resolution exactly if it is closed, and then it names who closed it.
pub record Consistent (r : AbuseReport) : Type 0 where
  pub resolved_at : is_some r.resolved_at ≡ is_closed r.status
  pub resolver : is_closed r.status ≡ true → is_some r.resolver_user_id ≡ true

resolved-Consistent :
    (now : ℕ) (payload : ReportResolve) (admin : User) (r : AbuseReport)
    → Consistent (resolved now payload admin r)
resolved-Consistent now payload admin r = record {
  resolved_at = ground arith;
  resolver = λ _. refl;
}

run-Consistent :
    (m : Moderation) (w : World)
    → All Consistent w.committed.reports
    → All Consistent (run m w).committed.reports
unfolding request create_report resolve_report commit record_audit_event
run-Consistent (file new_id now payload user) w h =
    All-append Consistent w.committed.reports (new_report new_id now payload user ∷ []) h
      (record { resolved_at = refl; resolver = λ e. cc }, tt)
run-Consistent (decide report_id now payload admin) w h =
    elim (Option-cases (select (report_has_id report_id) w.committed.reports)) [
      | inl missing ↦ rw (missing, All) h
      | inr (r, found) ↦
          rw (found, All)
            (All-update_where Consistent (report_has_id report_id) (resolved now payload admin)
              w.committed.reports (λ a _ _. resolved-Consistent now payload admin a) h)
    ]

-- Whatever reports are filed and decided, in whatever order, decisions on reports that do not exist
-- included: from a table of consistent reports, every report stays consistent.
pub run_all-Consistent :
    (ms : List Moderation) (w : World)
    → All Consistent w.committed.reports
    → All Consistent (run_all ms w).committed.reports
run_all-Consistent [] w h = h
run_all-Consistent (m ∷ ms) w h = run_all-Consistent ms (run m w) (run-Consistent m w h)
