-- ===== src/Uploads/Accepted.antt =====
-- What an accepted upload is.
use eval_ledger.Base.{
  ℕ, ◌≤◌, ◌≡◌, Bool, true, false, Option, arith, Text, strip, path_name, suffix_of, length, inl,
  inr, Bool-cases,
}
use eval_ledger.Errors.{Result, ok, err, AppError}
use eval_ledger.Errors
use eval_ledger.Uploads.{
  Limits, UploadDescriptor, is_unsafe_name, is_allowed_suffix, given_name, max_bytes, check_name,
  validate_upload_name, validate_upload_file,
}

module _ (lower : Text → Text) (limits : Limits) where
  checked_name :
      (safe name : Text)
      → check_name lower limits safe ≡ ok name
      → (name ≡ safe)
        × (is_unsafe_name name ≡ false)
        × (length name ≤ 255)
        × (is_allowed_suffix lower limits (lower (suffix_of name)) ≡ true)
  unfolding check_name
  checked_name safe name h = elim (Bool-cases (is_unsafe_name safe)) [
    | inl unsafe ↦ cc (rw unsafe at h)
    | inr safe_ ↦ ground (arith, h, safe_)
  ]

  -- An accepted upload has a name of 1 to 255 characters that is not a relative directory, a suffix
  -- that is on the list of the settings, and a positive size within the caller's quota.
  pub validate_upload_file_accepts :
      (filename : Option Text) (size_bytes : ℕ) (authenticated : Bool) (d : UploadDescriptor)
      → validate_upload_file lower limits filename size_bytes authenticated ≡ ok d
      → (is_unsafe_name d.filename ≡ false)
        × (length d.filename ≤ 255)
        × (d.suffix ≡ lower (suffix_of d.filename))
        × (is_allowed_suffix lower limits d.suffix ≡ true)
        × (d.size_bytes ≡ size_bytes)
        × (1 ≤ size_bytes)
        × (size_bytes ≤ max_bytes lower limits authenticated)
  unfolding validate_upload_file validate_upload_name
  validate_upload_file_accepts filename size_bytes authenticated d h =
      let safe = strip (path_name (given_name filename)) in
      elim (Errors.Result-cases (check_name lower limits safe)) [
        | inr (e, bad) ↦ cc (rw bad at h)
        | inl (name, good) ↦ ground (arith, checked_name safe name good, rw good at h)
      ]
