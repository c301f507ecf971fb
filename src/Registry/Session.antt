-- ===== src/Registry/Session.antt =====
-- The session of a request (backend/app/database.py): handlers read and write the working state of a
-- transaction; `commit` makes it the database, and whatever was not committed when the request ends is
-- gone. Beside the database stand the object storage and the queue of the workers, which no
-- transaction undoes.
use eval_ledger.Base.{
  ℕ, ◌≡◌, refl, ◌⊎◌, inl, inr, Bool, true, false, Option, none, some, List, [], ◌∷◌, ◌++◌, String,
}
use eval_ledger.Errors.{AppError, Raised, app}
use eval_ledger.Errors
use eval_ledger.Registry.Db.{Db, AuditEvent}

-- A queued call of `run_contamination_check`; the names of the file and of the corpora are left out.
pub record Task : Type 0 where
  pub artifact_location : String
  pub version_id : Option ℕ

pub record World : Type 0 where
  pub committed : Db
  pub working : Db
  pub objects : List String
  pub tasks : List Task

-- What others see of a world.
pub record Visible : Type 0 where
  pub committed : Db
  pub objects : List String
  pub tasks : List Task

abbrev pub visible : World → Visible
visible w = record { committed = w.committed; objects = w.objects; tasks = w.tasks }

pub data Outcome {ℓ} (A : Type ℓ) : Type ℓ where
  returns : A → Outcome A
  raises : Raised → Outcome A

pub Outcome-cases {ℓ} :
    {A : Type ℓ} (r : Outcome A) → ((a : A) × (r ≡ returns a)) ⊎ ((e : Raised) × (r ≡ raises e))
Outcome-cases (returns a) = inl (a, refl)
Outcome-cases (raises e) = inr (e, refl)

-- A handler returns or raises, and leaves the world as it is then.
abbrev pub Action : Type 0 → Type 0
Action A = World → Outcome A × World

module _ {A B : Type 0} where
  abbrev pub continue : Outcome A → (A → Action B) → Action B
  continue (returns a) f w = f a w
  continue (raises e) f w = (raises e, w)

  infixl 5 ◌>>=◌ ◌>>◌
  abbrev pub ◌>>=◌ : Action A → (A → Action B) → Action B
  ◌>>=◌ m f w = let (r, w') = m w in continue r f w'

  abbrev pub ◌>>◌ : Action A → Action B → Action B
  m >> n = m >>= λ _. n

module _ {A : Type 0} where
  abbrev pub pure : A → Action A
  pure a w = (returns a, w)

  abbrev pub raise : Raised → Action A
  raise e w = (raises e, w)

  -- A pure function that may raise an AppError.
  abbrev pub lift : Errors.Result A → Action A
  lift (Errors.ok a) w = (returns a, w)
  lift (Errors.err e) w = (raises (app e), w)

  -- `if x is None: raise error`
  abbrev pub require : Option A → AppError → Action A
  require none e w = (raises (app e), w)
  require (some a) e w = (returns a, w)

  abbrev pub query : (Db → A) → Action A
  query f w = (returns (f w.working), w)

-- `if not b: raise error`
abbrev pub ensure : Bool → AppError → Action Unit
ensure true e w = (returns tt, w)
ensure false e w = (raises (app e), w)

abbrev pub write : (Db → Db) → Action Unit
write f w = (returns tt, record w { working = f w.working })

-- An INSERT that a unique constraint refuses raises IntegrityError.
abbrev pub insert_unless : Bool → (Db → Db) → Action Unit
insert_unless true f w = (raises Raised.integrity, w)
insert_unless false f w = (returns tt, record w { working = f w.working })

unfoldable pub commit : Action Unit
commit w = (returns tt, record w { committed = w.working })

-- `record_audit_event` of backend/app/services/audit.py.
unfoldable pub record_audit_event : AuditEvent → Action Unit
record_audit_event event = write (λ db. record db { audit_events = db.audit_events ++ event ∷ [] })

-- A whole request: what was not committed is rolled back when its session closes.
unfoldable pub request : {A : Type 0} → Action A → World → Outcome A × World
request handler w =
    let (r, w') = handler (record w { working = w.committed }) in
    (r, record w' { working = w'.committed })
