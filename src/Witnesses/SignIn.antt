-- ===== src/Witnesses/SignIn.antt =====
-- Sign-ins.
use eval_ledger.Base.{
  select, ◌≡◌, is_empty, refl, true, false, none, some, List, [], ◌∷◌, if◌then◌else◌, codes,
}
use eval_ledger.Witnesses.Services.{lower}
use eval_ledger.Registry.Db.{User}
use eval_ledger.Registry.Session.{World, returns}
use eval_ledger.Registry.SignIn.{
  Naming, Profile, find_or_create_oauth_user, unknown_user, register_user, is_admin_email,
  EmailEntry, verified_primary_email, unique_username, slugify_username,
}
use eval_ledger.Registry.SignIn.Stable.{sign_in_stable}
use eval_ledger.Registry.SignIn.Addresses.{is_vouched, address_of, verified_primary_email_lem}
use eval_ledger.Witnesses.Rows.{alice, world}

abbrev pub naming : Naming
naming = record {
  admin_emails = "root@example.org" ∷ [];
  lower_string = λ s. s;
  lower = lower;
  decimal = λ n. codes "n";
  render = λ t. if is_empty t then "" else "eve";
  uuid_hex = codes "abcdef01";
}

abbrev pub eve : Profile
eve = record {
  provider = "google";
  provider_user_id = "99";
  email = some "eve@example.org";
  display_name = some "Eve";
  username_hint = codes "Eve";
}

abbrev eve_user : User
eve_user = record alice {
  id = 30;
  email = "eve@example.org";
  username = "eve";
  display_name = some "Eve";
  is_verified = false;
}

eve_signs_in : (find_or_create_oauth_user naming 30 eve world).0 ≡ returns eve_user
unfolding find_or_create_oauth_user unknown_user register_user unique_username slugify_username
    is_admin_email
eve_signs_in = refl

-- Later, Eve has edited her profile and Alice's account is gone.
abbrev later_world : World
later_world = record world {
  working = record (find_or_create_oauth_user naming 30 eve world).1.working {
    users = record eve_user { bio = some "here" } ∷ [];
  };
}

sign_in_stable_example :
    (v : User) × ((find_or_create_oauth_user naming 31 (record eve { email = none }) later_world).0
      ≡ returns v)
    × (v.id ≡ 30)
sign_in_stable_example =
    sign_in_stable naming eve (record eve { email = none }) 30 31 world later_world eve_user
      (record eve_user { bio = some "here" }) eve_signs_in refl refl refl refl

abbrev addresses : List EmailEntry
addresses =
    record { email = some "old@example.org"; primary = true; verified = false }
    ∷ record { email = some "eve@example.org"; primary = true; verified = true }
    ∷ []

verified_primary_email_lem_example :
    verified_primary_email addresses ≡ address_of (select is_vouched addresses)
verified_primary_email_lem_example = verified_primary_email_lem addresses
