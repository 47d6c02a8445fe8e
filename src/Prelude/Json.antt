-- ===== src/Prelude/Json.antt =====
-- JSON values, as `json.loads` yields them. A float is kept by its printed form.
use remote_agent_connector.Prelude.Int.{ℤ, pos}
use remote_agent_connector.Prelude.Tests.{if◌then◌else◌, eqb}
use Prim.Native.Nat.{zero}
use Prim.Native.String.{String}
use mathlib.Core.Bool.{Bool, true, false}
use mathlib.Core.Option.{Option, none, some}
use text.Mathlib.Text.{◌==◌}

mutual
  pub data Json : Type 0 where
    null : Json
    boolean : Bool → Json
    int : ℤ → Json
    real : String → Json
    str : String → Json
    arr : Items → Json
    obj : Fields → Json

  pub data Items : Type 0 where
    nil : Items
    cons : Json → Items → Items

  pub data Fields : Type 0 where
    end : Fields
    field : String → Json → Fields → Fields

-- `value.get(key)` on a dictionary, whose keys are distinct.
unfoldable pub get : String → Fields → Option Json
get k end = none
get k (field j v rest) = if j == k then some v else get k rest

-- `k in value`.
unfoldable pub has_field : String → Fields → Bool
has_field k end = false
has_field k (field j v rest) = if j == k then true else has_field k rest

-- `value[k] = v`: the key keeps its place.
unfoldable pub put : String → Json → Fields → Fields
put k v end = field k v end
put k v (field j w rest) = if j == k then field j v rest else field j w (put k v rest)

-- `{**base, **extra}`.
unfoldable pub merge : Fields → Fields → Fields
unfolding put
merge base end = base
merge base (field k v rest) = merge (put k v base) rest

-- `bool(value)`.
unfoldable pub is_truthy : Json → Bool
is_truthy null = false
is_truthy (boolean b) = b
is_truthy (int (pos zero)) = false
is_truthy (int z) = true
is_truthy (real s) = if s == "0.0" then false else if s == "-0.0" then false else true
is_truthy (str s) = if s == "" then false else true
is_truthy (arr nil) = false
is_truthy (arr xs) = true
is_truthy (obj end) = false
is_truthy (obj fs) = true

-- `value == 1`; `True` and `1.0` equal 1 in Python.
unfoldable pub equals_one : Json → Bool
equals_one (boolean b) = b
equals_one (int (pos n)) = eqb n 1
equals_one (real s) = s == "1.0"
equals_one value = false

-- `value == s` for a text.
unfoldable pub equals_text : String → Json → Bool
equals_text s (str t) = t == s
equals_text s value = false

-- Lists and dictionaries cannot be looked up in a set: Python raises `TypeError`.
unfoldable pub is_hashable : Json → Bool
is_hashable (arr xs) = false
is_hashable (obj fs) = false
is_hashable value = true

-- `{k: v for k, v in value.items() if k != key}`.
unfoldable pub without : String → Fields → Fields
without key end = end
without key (field k v rest) = let r = without key rest in if k == key then r else field k v r

-- `value[k]`, where the keys were checked.
unfoldable pub item : String → Fields → Json
item k value = elim (get k value) [ none ↦ null | some v ↦ v ]

-- `text_of` is Python's `str` on a value that is not a text.
module _ (text_of : Json → String) where
  -- `str(value)`.
  unfoldable pub to_text : Json → String
  to_text (str s) = s
  to_text value = text_of value

  -- `str(value or "")`.
  unfoldable pub or_empty : Json → String
  unfolding to_text is_truthy
  or_empty v = if is_truthy v then to_text v else ""
