-- ===== src/Scripts/Restore/Passing.antt =====
-- What an exit code of 0 means (backend/app/scripts/check_restore.py).
use eval_ledger.Base.{◌≡◌, true, Option, some, ◌++◌, Text}
use eval_ledger.Contamination.JsonFile.{Value}
use eval_ledger.Scripts.Restore.{Response, Reply, get_reply, Check}

module _ (loads : Text → Option Value) (fetch : Text → Option Text → Response)
    (base_url : Text) where
  abbrev reply_to : Check → Reply
  reply_to c = get_reply loads (fetch (base_url ++ c.path) c.api_key)

  -- The page of a check answers with status 200 and a body that the check accepts.
  abbrev pub Passes : Check → Type 0
  Passes c = ((reply_to c).status ≡ 200) × (c.look (reply_to c).body ≡ some true)
