-- ===== src/Contamination/JsonFile.antt =====
-- JSON documents as backend/app/services/corpus_index.py reads them: `json.loads`, `dict.get`, and
-- Python's `str`, `int` and iteration on the values, with the exceptions they raise. A number is a
-- natural number or a `float`; negative numbers are not modelled.
use eval_ledger.Base.{
  Bool, ◌≡◌, refl, ◌⊎◌, inl, inr, ℕ, Option, none, some, List, [], ◌∷◌, Text, text_eq,
  if◌then◌else◌,
}

mutual
  pub data Value : Type 0 where
    null : Value
    bool : Bool → Value
    float : Value
    int : ℕ → Value
    str : Text → Value
    arr : Values → Value
    obj : Members → Value

  pub data Values : Type 0 where
    nil : Values
    cons : Value → Values → Values

  pub data Members : Type 0 where
    end : Members
    member : Text → Value → Members → Members

-- `json` and UTF-8: `loads` is none where it raises a ValueError. `show` is Python's `str` on what is
-- not a string, `parse` its `int` on a string and `truncate` its `int` on a float.
pub record Document (Bytes : Type 0) : Type 0 where
  pub dumps : Value → Bytes
  pub loads : Bytes → Option Value
  pub show : Value → Text
  pub parse : Text → Option ℕ
  pub truncate : Option ℕ

pub data Fault : Type 0 where
  value_error : Fault
  key_error : Fault
  type_error : Fault
  overflow_error : Fault

pub data Loaded {ℓ} (A : Type ℓ) : Type ℓ where
  loaded : A → Loaded A
  fault : Fault → Loaded A

infixl 5 ◌>>=◌
abbrev pub ◌>>=◌ {ℓ κ} : {A : Type ℓ} {B : Type κ} → Loaded A → (A → Loaded B) → Loaded B
loaded a >>= f = f a
fault e >>= f = fault e

-- `payload.get(key)`
unfoldable pub get : Text → Members → Option Value
get key end = none
get key (member k v members) = if text_eq k key then some v else get key members

-- `item[key]`
unfoldable pub item_at : Text → Members → Loaded Value
unfolding get
item_at key members = elim (get key members) [ none ↦ fault key_error | some v ↦ loaded v ]

unfoldable pub or_value_error : {A : Type 0} → Option A → Loaded A
or_value_error none = fault value_error
or_value_error (some a) = loaded a

-- The strings of one character that iterating over a string yields.
unfoldable pub characters : Text → Values
characters [] = nil
characters (c ∷ s) = cons (str (c ∷ [])) (characters s)

unfoldable pub member_keys : Members → Values
member_keys end = nil
member_keys (member k v members) = cons (str k) (member_keys members)

-- What `for value in v` goes over.
unfoldable pub iterate : Value → Loaded Values
unfolding characters member_keys
iterate null = fault type_error
iterate (bool b) = fault type_error
iterate float = fault type_error
iterate (int n) = fault type_error
iterate (str s) = loaded (characters s)
iterate (arr values) = loaded values
iterate (obj members) = loaded (member_keys members)

module _ {Bytes : Type 0} (document : Document Bytes) where
  -- `str(v)`
  unfoldable pub to_str : Value → Text
  to_str null = document.show null
  to_str (bool b) = document.show (bool b)
  to_str float = document.show float
  to_str (int n) = document.show (int n)
  to_str (str s) = s
  to_str (arr values) = document.show (arr values)
  to_str (obj members) = document.show (obj members)

  -- `int(v)`
  unfoldable pub to_int : Value → Loaded ℕ
  unfolding or_value_error
  to_int null = fault type_error
  to_int (bool b) = loaded (if b then 1 else 0)
  to_int float = or_value_error document.truncate
  to_int (int n) = loaded n
  to_int (str s) = or_value_error (document.parse s)
  to_int (arr values) = fault type_error
  to_int (obj members) = fault type_error

  unfoldable pub to_ints : Values → Loaded (List ℕ)
  unfolding to_int
  to_ints nil = loaded []
  to_ints (cons v values) = do n ← to_int v; ns ← to_ints values; loaded (n ∷ ns)

pub Loaded-cases {ℓ} :
    {A : Type ℓ} (m : Loaded A) → ((a : A) × (m ≡ loaded a)) ⊎ ((e : Fault) × (m ≡ fault e))
Loaded-cases (loaded a) = inl (a, refl)
Loaded-cases (fault e) = inr (e, refl)
