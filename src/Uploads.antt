-- ===== src/Uploads.antt =====
-- backend/app/utils/uploads.py: the checks on the name and the size of an uploaded artifact.
pub mod Accepted
use eval_ledger.Base.{
  ℕ, zero, suc, ◌+◌, ◌*◌, ◌≡◌, Bool, true, false, not, ◌||◌, Option, none, some, List, [], ◌∷◌,
  arith, if◌then◌else◌, ltb, leb, ◌==◌, Text, codes, text_eq, strip, path_name, suffix_of, length,
  any, or_else, is_empty,
}
use eval_ledger.Errors.{Result, ok, err, AppError, app_error, guard, ◌>>=◌, ◌>>◌}

pub record Limits : Type 0 where
  pub allowed_artifact_extensions : List Text
  pub max_authenticated_upload_bytes : ℕ
  pub max_public_upload_bytes : ℕ

pub record UploadDescriptor : Type 0 where
  pub filename : Text
  pub suffix : Text
  pub size_bytes : ℕ

abbrev pub invalid_filename : AppError
invalid_filename = app_error "invalid_filename" 400

abbrev pub unsupported_artifact : AppError
unsupported_artifact = app_error "unsupported_artifact" 400

abbrev pub empty_artifact : AppError
empty_artifact = app_error "empty_artifact" 400

abbrev pub artifact_too_large : AppError
artifact_too_large = app_error "artifact_too_large" 413

abbrev pub auth_required : AppError
auth_required = app_error "auth_required" 401

unfoldable pub is_unsafe_name : Text → Bool
is_unsafe_name name = text_eq name [] || text_eq name (codes ".") || text_eq name (codes "..")

-- `filename or "artifact.bin"`
abbrev pub given_name : Option Text → Text
given_name none = codes "artifact.bin"
given_name (some name) = if is_empty name then codes "artifact.bin" else name

module _ (lower : Text → Text) (limits : Limits) where
  unfoldable pub is_allowed_suffix : Text → Bool
  is_allowed_suffix suffix = any (text_eq suffix) limits.allowed_artifact_extensions

  unfoldable pub check_name : Text → Result Text
  check_name safe_name = do
    guard (not (is_unsafe_name safe_name)) invalid_filename
    guard (not (ltb 255 (length safe_name))) invalid_filename
    guard (is_allowed_suffix (lower (suffix_of safe_name))) unsupported_artifact
    ok safe_name

  unfoldable pub validate_upload_name : Option Text → Result Text
  unfolding check_name
  validate_upload_name filename = check_name (strip (path_name (given_name filename)))

  abbrev pub max_bytes : Bool → ℕ
  max_bytes authenticated =
      if authenticated
      then limits.max_authenticated_upload_bytes
      else limits.max_public_upload_bytes

  unfoldable pub validate_upload_file : Option Text → ℕ → Bool → Result UploadDescriptor
  validate_upload_file filename size_bytes authenticated = do
    safe_name ← validate_upload_name filename
    guard (ltb 0 size_bytes) empty_artifact
    guard (not (ltb (max_bytes authenticated) size_bytes))
        (if authenticated then artifact_too_large else auth_required)
    ok (record {
      filename = safe_name;
      suffix = lower (suffix_of safe_name);
      size_bytes = size_bytes;
    })
