-- ===== src/Json.antt =====
-- JSON values (`serde_json::Value`), as crates/flowspec-domain matches on them. A number is kept
-- as its printed form, since the code reads nothing else of one.
use flowspec_devkitd.Base.{Bool, Text, Option, none, some, ◌==◌, if◌then◌else◌}

mutual
  pub data Value : Type 0 where
    null : Value
    bool : Bool → Value
    number : Text → Value
    string : Text → Value
    array : Values → Value
    object : Fields → Value

  pub data Values : Type 0 where
    nil : Values
    cons : Value → Values → Values

  pub data Fields : Type 0 where
    end : Fields
    field : Text → Value → Fields → Fields

-- `Map::get`.
unfoldable pub get_field : Fields → Text → Option Value
get_field end k = none
get_field (field j v fs) k = if j == k then some v else get_field fs k

-- `Value::as_object`.
abbrev pub as_object : Value → Option Fields
as_object (object fs) = some fs
as_object _ = none

-- `Map::insert`: a field that is there keeps its place.
unfoldable pub set_field : Fields → Text → Value → Fields
set_field end k v = field k v end
set_field (field j w fs) k v = if j == k then field j v fs else field j w (set_field fs k v)

-- `entry(k).or_insert_with(|| v)`.
unfoldable pub or_insert_field : Fields → Text → Value → Fields
or_insert_field end k v = field k v end
or_insert_field (field j w fs) k v =
    if j == k then field j w fs else field j w (or_insert_field fs k v)

-- `serde_json::Value::get`.
abbrev pub get_key : Value → Text → Option Value
get_key (object fs) k = get_field fs k
get_key _ k = none
