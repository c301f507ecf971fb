-- ===== src/Registry/Db.antt =====
-- Rows of the tables of backend/app/models, and the database that they make up. Ids (UUIDs) and times
-- are numbers; columns that only a search index or a relationship uses are left out.
use eval_ledger.Base.{ℕ, Bool, ◌&&◌, Option, List, String, Text, str_eq, ◌==◌}
use eval_ledger.Contamination.Classify.{Status}

pub record User : Type 0 where
  pub id : ℕ
  pub email : String
  pub username : String
  pub password_hash : Option String
  pub display_name : Option String
  pub bio : Option String
  pub website : Option String
  pub affiliation : Option String
  pub is_verified : Bool
  pub is_admin : Bool
  pub deleted_at : Option ℕ

pub record ApiKey : Type 0 where
  pub id : ℕ
  pub user_id : ℕ
  pub key_hash : String
  pub name : Option String
  pub last_used_at : Option ℕ
  pub is_active : Bool

pub record UserIdentity : Type 0 where
  pub user_id : ℕ
  pub provider : String
  pub provider_user_id : String
  pub provider_email : Option String

pub record Benchmark : Type 0 where
  pub id : ℕ
  pub slug : String
  pub name : String
  pub description : Option String
  pub domain : List String
  pub task_type : Option String
  pub submitter_id : Option ℕ
  pub created_at : ℕ
  pub is_verified : Bool
  pub total_versions : ℕ
  pub total_citations : ℕ
  pub review_note : Option String
  pub reviewed_at : Option ℕ
  pub reviewed_by_id : Option ℕ

-- The columns of a version that the submitter fills in freely.
pub record VersionMetadata : Type 0 where
  pub num_examples : Option ℕ
  pub splits : Option Text
  pub language : Option (List Text)
  pub license : Option String
  pub paper_url : Option String
  pub paper_arxiv_id : Option String
  pub github_url : Option String
  pub metadata_json : Option Text
  pub release_notes : Option String

pub record BenchmarkVersion : Type 0 where
  pub id : ℕ
  pub benchmark_id : ℕ
  pub version : String
  pub artifact_sha256 : Option String
  pub artifact_url : Option String
  pub artifact_size_bytes : Option ℕ
  pub details : VersionMetadata
  pub citation_string : Option String
  pub released_at : Option ℕ
  pub created_at : ℕ
  pub submitter_id : Option ℕ
  pub contamination_status : Status

-- The summary and the metadata of an event are not modelled.
pub record AuditEvent : Type 0 where
  pub actor_user_id : Option ℕ
  pub benchmark_id : Option ℕ
  pub version_id : Option ℕ
  pub action : String
  pub resource_type : String
  pub resource_id : Option ℕ
  pub resource_slug : Option String

pub data ReportStatus : Type 0 where
  open_ reviewing actioned dismissed : ReportStatus

pub record AbuseReport : Type 0 where
  pub id : ℕ
  pub reporter_user_id : ℕ
  pub resource_type : String
  pub resource_slug : String
  pub reason : String
  pub detail : Option String
  pub status : ReportStatus
  pub created_at : ℕ
  pub resolved_at : Option ℕ
  pub resolver_user_id : Option ℕ
  pub resolution_note : Option String

-- Audit events are in the order in which they were recorded.
pub record Db : Type 0 where
  pub users : List User
  pub api_keys : List ApiKey
  pub identities : List UserIdentity
  pub benchmarks : List Benchmark
  pub versions : List BenchmarkVersion
  pub audit_events : List AuditEvent
  pub reports : List AbuseReport

-- Tests of WHERE clauses.
abbrev pub user_has_id : ℕ → User → Bool
user_has_id i u = u.id == i

abbrev pub has_slug : String → Benchmark → Bool
has_slug slug b = str_eq b.slug slug

abbrev pub benchmark_has_id : ℕ → Benchmark → Bool
benchmark_has_id i b = b.id == i

abbrev pub is_version_of : ℕ → String → BenchmarkVersion → Bool
is_version_of benchmark_id version v = (v.benchmark_id == benchmark_id) && str_eq v.version version

abbrev pub of_benchmark : ℕ → BenchmarkVersion → Bool
of_benchmark benchmark_id v = v.benchmark_id == benchmark_id

abbrev pub key_of_user : ℕ → ApiKey → Bool
key_of_user i k = k.user_id == i

abbrev pub identity_of_user : ℕ → UserIdentity → Bool
identity_of_user i x = x.user_id == i
