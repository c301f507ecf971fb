-- ===== src/Registry/SignIn/Addresses.antt =====
-- The names and addresses that a sign-in uses.
use eval_ledger.Base.{
  ℕ, zero, suc, ◌+◌, ◌≡◌, ◌⊎◌, inl, inr, refl, Bool, false, ◌&&◌, Option, none, some, List, [], ◌∷◌,
  ◌++◌, String, Text, any, take, select, is_some, arith, Bool-cases,
}
use eval_ledger.Registry.Db.{User}
use eval_ledger.Registry.SignIn.{
  Naming, given_email, has_username, slugify_username, numbered_username, unique_username,
  EmailEntry, verified_primary_email,
}

module _ (naming : Naming) where
  abbrev pub last_resort : Text → String
  last_resort base = naming.render (take 20 base ++ b'_' ∷ naming.uuid_hex)

  numbered_free :
      (n i : ℕ) (base : Text) (users : List User)
      → let u = numbered_username naming n i base users in
        (any (has_username u) users ≡ false) ⊎ (u ≡ last_resort base)
  unfolding numbered_username
  numbered_free zero i base users = inr refl
  numbered_free (suc n) i base users =
      let candidate = naming.render (take 32 (base ++ naming.decimal i)) in
      elim (Bool-cases (any (has_username candidate) users)) [
        | inl taken ↦ rw taken (numbered_free n (i + 1) base users)
        | inr free ↦ rw free (inl free)
      ]

  -- The username of a new account is one that no user has, unless the hint and all the numbered
  -- variants of it are taken, and then it is the one that ends in random digits.
  pub unique_username_free :
      (hint : Text) (users : List User)
      → let u = unique_username naming hint users in
        (any (has_username u) users ≡ false) ⊎ (u ≡ last_resort (slugify_username naming hint))
  unfolding unique_username
  unique_username_free hint users =
      let base = slugify_username naming hint in
      elim (Bool-cases (any (has_username (naming.render base)) users)) [
        | inl taken ↦ rw taken (numbered_free 9999 1 base users)
        | inr free ↦ rw free (inl free)
      ]

-- An address that the provider vouches for.
abbrev pub is_vouched : EmailEntry → Bool
is_vouched entry = entry.primary && (entry.verified && is_some (given_email entry.email))

abbrev pub address_of : Option EmailEntry → Option String
address_of none = none
address_of (some entry) = given_email entry.email

-- The address that a sign-in with GitHub links accounts by is that of the first entry that is the
-- primary one, is verified, and has an address which is not empty; there is none if no entry is so.
pub verified_primary_email_lem :
    (entries : List EmailEntry)
    → verified_primary_email entries ≡ address_of (select is_vouched entries)
unfolding verified_primary_email
verified_primary_email_lem [] = refl
verified_primary_email_lem (entry ∷ entries) = ground (arith, verified_primary_email_lem entries)
