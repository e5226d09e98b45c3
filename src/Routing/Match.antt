-- ===== src/Routing/Match.antt =====
-- The tests of routing.py: conditions on a payload, versions and times. `repr` is the text that
-- Python gives a number, a list or an object, and `parse` is datetime.fromisoformat in UTC, as a
-- number of microseconds.
use code_fixer.Base.{
  ℕ, String, Bool, true, false, not, Option, none, some, List, [], ◌∷◌, ◌==◌, text_eq, number_eq,
  if◌then◌else◌,
}
use code_fixer.Base.Text.{strip, is_in, split, replace_char}
use code_fixer.Base.Result.{Result, ok, err}
use code_fixer.Routing.Value.{
  Value, null, boolean, number, text, list, object, Fields, get, is_null, equal, is_member, is_true,
}

-- What `route_ticket` raises: a condition with an operator that is not known, or the end of `next`.
pub data RouteError : Type 0 where
  unsupported_operator : String → RouteError
  stop_iteration : RouteError

-- A condition of a rule; the defaults for keys that are absent are filled in.
pub record Condition : Type 0 where
  pub field : String
  pub operator : String
  pub expected : Value

pub record VersionFilter : Type 0 where
  pub mode : String
  pub versions : List Value

-- `_field` of the parts of a path.
unfoldable pub field_at : Value → List String → Value
field_at current [] = current
field_at (object fs) (part ∷ parts) = field_at (get part fs) parts
field_at null (part ∷ parts) = null
field_at (boolean b) (part ∷ parts) = null
field_at (number n) (part ∷ parts) = null
field_at (text s) (part ∷ parts) = null
field_at (list xs) (part ∷ parts) = null

module _ (repr : Value → String) where
  -- str(value)
  abbrev pub str : Value → String
  str null = "None"
  str (boolean true) = "True"
  str (boolean false) = "False"
  str (number n) = repr (number n)
  str (text s) = s
  str (list xs) = repr (list xs)
  str (object fs) = repr (object fs)

  -- isinstance(actual, str) and str(expected) in actual
  abbrev pub contains : Value → Value → Bool
  contains (text s) expected = is_in (str expected) s
  contains null expected = false
  contains (boolean b) expected = false
  contains (number n) expected = false
  contains (list xs) expected = false
  contains (object fs) expected = false

  -- isinstance(expected, list) and actual in expected
  unfoldable pub within : Value → Value → Bool
  unfolding is_member
  within actual (list xs) = is_member actual xs
  within actual null = false
  within actual (boolean b) = false
  within actual (number n) = false
  within actual (text s) = false
  within actual (object fs) = false

  -- `_condition_matches`
  unfoldable pub condition_matches : Fields → Condition → Result RouteError Bool
  unfolding field_at equal within
  condition_matches payload condition =
      let actual = field_at (object payload) (split 46 condition.field) in
      if condition.operator == "exists"
      then ok (not (is_null actual))
      else if condition.operator == "eq"
      then ok (equal actual condition.expected)
      else if condition.operator == "neq"
      then ok (not (equal actual condition.expected))
      else if condition.operator == "contains"
      then ok (contains actual condition.expected)
      else if condition.operator == "in"
      then ok (within actual condition.expected)
      else err (unsupported_operator condition.operator)

  -- all(...) over the conditions: the first that does not match ends it.
  unfoldable pub all_match : Fields → List Condition → Result RouteError Bool
  unfolding condition_matches
  all_match payload [] = ok true
  all_match payload (condition ∷ conditions) =
      let rest = all_match payload conditions in
      elim (condition_matches payload condition) [
        | err e ↦ err e
        | ok matches ↦ if matches then rest else ok false
      ]

  -- str(value or "").strip() or None
  abbrev pub stripped : Value → Option String
  stripped v = let s = strip (if is_true v then str v else "") in if s == "" then none else some s

  abbrev pub first_version : Fields → Value
  first_version payload =
      if not (is_null (get "fixVersion" payload))
      then get "fixVersion" payload
      else if not (is_null (get "versionFix" payload))
      then get "versionFix" payload
      else get "version" payload

  abbrev pub identity_of : Value → Option String × Option String
  identity_of (object fs) = (stripped (get "id" fs), stripped (get "name" fs))
  identity_of null = (none, stripped null)
  identity_of (boolean b) = (none, stripped (boolean b))
  identity_of (number n) = (none, stripped (number n))
  identity_of (text s) = (none, stripped (text s))
  identity_of (list xs) = (none, stripped (list xs))

  -- `_version_identity`: the id and the name.
  unfoldable pub version_identity : Fields → Option String × Option String
  version_identity payload = identity_of (first_version payload)

  abbrev pub same_text : Option String → String → Bool
  same_text none s = false
  same_text (some t) s = t == s

  -- One selected version against the id and the name of the ticket.
  abbrev pub selects : Option String × Option String → Value → Bool
  selects (some id, name) (object fs) = same_text (stripped (get "id" fs)) id
  selects (none, some name) (object fs) = same_text (stripped (get "name" fs)) name
  selects (none, none) (object fs) = false
  selects identity null = false
  selects identity (boolean b) = false
  selects identity (number n) = false
  selects identity (text s) = false
  selects identity (list xs) = false

  abbrev pub any_selects : Option String × Option String → List Value → Bool
  any_selects identity [] = false
  any_selects identity (v ∷ vs) = if selects identity v then true else any_selects identity vs

  -- `_version_matches`; none is a filter that is no object.
  unfoldable pub version_matches : Fields → Option VersionFilter → Bool
  unfolding version_identity
  version_matches payload none = true
  version_matches payload (some filter) =
      if filter.mode == "all" then true else any_selects (version_identity payload) filter.versions

  -- `_timestamp` of a value, with "Z" replaced.
  unfoldable pub timestamp : (parse : String → Option ℕ) → Value → Option ℕ
  timestamp parse v =
      let s = strip (if is_true v then str v else "") in
      if s == "" then none else parse (replace_char 90 "+00:00" s)
