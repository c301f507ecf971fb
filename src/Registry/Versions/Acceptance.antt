-- ===== src/Registry/Versions/Acceptance.antt =====
-- A submission that meets the conditions is accepted.
use eval_ledger.Base.{ℕ, ◌≡◌, refl, true, false, Option, some, String, Text, select, any}
use eval_ledger.Errors
use eval_ledger.Uploads.{UploadDescriptor, validate_upload_file}
use eval_ledger.Registry.Db.{User, Benchmark, has_slug, is_version_of}
use eval_ledger.Registry.Session.{World, returns, commit, record_audit_event}
use eval_ledger.Registry.Versions.{
  Env, VersionForm, StoredArtifact, admit, register, insert_version, parse_released_at,
  parse_json_field, may_submit, claim, version_record, update_benchmark_row, fits_integer,
}

module _ (env : Env) (new_id now : ℕ) (form : VersionForm) (current_user : User) where
  -- The conditions on the request, the caller and the tables.
  pub record Acceptable (slug : String) (w : World) (b : Benchmark) : Type 0 where
    pub found : select (has_slug slug) w.committed.benchmarks ≡ some b
    pub allowed : may_submit current_user b ≡ true
    pub semver : env.is_semver form.version ≡ true
    pub new_name : any (is_version_of b.id form.version) w.committed.versions ≡ false
    pub in_range : fits_integer form.num_examples ≡ true
    pub descriptor : UploadDescriptor
    pub valid :
        validate_upload_file env.lower env.limits form.artifact_name form.artifact_size true
        ≡ Errors.ok descriptor

  pub admit-accepts :
      (slug : String) (w : World) (b : Benchmark)
      → Acceptable slug w b
      → admit env new_id now form current_user slug (record w { working = w.committed }) ≡ (
        returns (claim current_user b),
        record w { working = update_benchmark_row b.id (claim current_user) w.committed },
      )
  unfolding admit
  admit-accepts slug w b a = rw (a.found, a.allowed, a.semver, a.new_name, a.valid) refl

  insert_version-accepts :
      (b : Benchmark) (stored : StoredArtifact) (released : Option ℕ)
      (splits metadata : Option Text) (w : World)
      → parse_json_field env form.splits ≡ Errors.ok splits
      → parse_json_field env form.metadata ≡ Errors.ok metadata
      → any (is_version_of b.id form.version) w.working.versions ≡ false
      → fits_integer form.num_examples ≡ true
      → (insert_version env new_id now form current_user b stored released w).0
        ≡ returns
            (version_record env new_id now form current_user b stored released splits metadata)
  unfolding insert_version commit record_audit_event
  insert_version-accepts b stored released splits metadata w s m new_name fits =
      rw (s, m, new_name, fits) refl

  pub register-accepts :
      (b : Benchmark) (stored : StoredArtifact) (released : Option ℕ)
      (splits metadata : Option Text) (w : World)
      → parse_released_at env form.released_at ≡ Errors.ok released
      → parse_json_field env form.splits ≡ Errors.ok splits
      → parse_json_field env form.metadata ≡ Errors.ok metadata
      → any (is_version_of b.id form.version) w.working.versions ≡ false
      → fits_integer form.num_examples ≡ true
      → (register env new_id now form current_user b stored w).0
        ≡ returns
            (version_record env new_id now form current_user b stored released splits metadata)
  unfolding register
  register-accepts b stored released splits metadata w r s m new_name fits =
      rw (r, insert_version-accepts b stored released splits metadata w s m new_name fits) refl
