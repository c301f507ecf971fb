-- ===== src/Registry/Reports.antt =====
-- backend/app/routers/reports.py: abuse reports and their moderation.
pub mod Moderation
use eval_ledger.Base.{
  ℕ, ◌≡◌, refl, Bool, true, false, Option, none, some, List, [], ◌∷◌, ◌++◌, String, arith,
  if◌then◌else◌, select, update_where, filter, ◌==◌, is_some, All, All-append, All-update_where,
  Option-cases, inl, inr,
}
use eval_ledger.Errors.{AppError, app_error}
use eval_ledger.Registry.Db.{
  Db, User, AuditEvent, AbuseReport, ReportStatus, open_, reviewing, actioned, dismissed,
}
use eval_ledger.Registry.Session.{
  World, Action, pure, require, query, write, commit, record_audit_event, request, ◌>>=◌, ◌>>◌,
}

abbrev pub report_not_found : AppError
report_not_found = app_error "report_not_found" 404

pub record ReportCreate : Type 0 where
  pub resource_type : String
  pub resource_slug : String
  pub reason : String
  pub detail : Option String

pub record ReportResolve : Type 0 where
  pub status : ReportStatus
  pub resolution_note : Option String

-- `status in ("actioned", "dismissed")`
abbrev pub is_closed : ReportStatus → Bool
is_closed open_ = false
is_closed reviewing = false
is_closed actioned = true
is_closed dismissed = true

abbrev pub same_status : ReportStatus → ReportStatus → Bool
same_status open_ open_ = true
same_status reviewing reviewing = true
same_status actioned actioned = true
same_status dismissed dismissed = true
same_status _ _ = false

abbrev pub report_has_id : ℕ → AbuseReport → Bool
report_has_id i r = r.id == i

abbrev report_event : User → AbuseReport → String → AuditEvent
report_event actor report action = record {
  actor_user_id = some actor.id;
  benchmark_id = none;
  version_id = none;
  action = action;
  resource_type = report.resource_type;
  resource_id = some report.id;
  resource_slug = some report.resource_slug;
}

abbrev pub new_report : ℕ → ℕ → ReportCreate → User → AbuseReport
new_report new_id now payload current_user = record {
  id = new_id;
  reporter_user_id = current_user.id;
  resource_type = payload.resource_type;
  resource_slug = payload.resource_slug;
  reason = payload.reason;
  detail = payload.detail;
  status = open_;
  created_at = now;
  resolved_at = none;
  resolver_user_id = none;
  resolution_note = none;
}

unfoldable pub create_report : ℕ → ℕ → ReportCreate → User → Action AbuseReport
unfolding record_audit_event commit
create_report new_id now payload current_user = do
  let report = new_report new_id now payload current_user
  write (λ db. record db { reports = db.reports ++ report ∷ [] })
  record_audit_event (report_event current_user report "report.created")
  commit
  pure report

-- The rows of `list_reports`, the query's order aside; none is the filter "all".
unfoldable pub listed_reports : Option ReportStatus → List AbuseReport → List AbuseReport
listed_reports none reports = reports
listed_reports (some status) reports = filter (λ r. same_status r.status status) reports

abbrev pub resolved : ℕ → ReportResolve → User → AbuseReport → AbuseReport
resolved now payload admin report = record report {
  status = payload.status;
  resolution_note = payload.resolution_note;
  resolver_user_id = some admin.id;
  resolved_at = if is_closed payload.status then some now else none;
}

unfoldable pub resolve_report : ℕ → ℕ → ReportResolve → User → Action AbuseReport
unfolding record_audit_event commit
resolve_report report_id now payload admin = do
  found ← query (λ db. select (report_has_id report_id) db.reports)
  report ← require found report_not_found
  write (λ db. record db {
    reports = update_where (report_has_id report_id) (resolved now payload admin) db.reports;
  })
  record_audit_event (report_event admin report "report.updated")
  commit
  pure (resolved now payload admin report)
