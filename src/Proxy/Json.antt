-- ===== src/Proxy/Json.antt =====
-- JSON values as `interface{}` holds them, and the type assertions that the program makes on them.
-- A number is kept as its literal.
use vllm_chill.Prelude.{Bytes, codes, same, Bool, Option, none, some, if◌then◌else◌}

mutual
  pub data Json : Type 0 where
    null : Json
    bool : Bool → Json
    num : Bytes → Json
    str : Bytes → Json
    arr : Items → Json
    obj : Fields → Json

  pub data Items : Type 0 where
    nil : Items
    cons : Json → Items → Items

  pub data Fields : Type 0 where
    end : Fields
    field : Bytes → Json → Fields → Fields

-- A `map[string]interface{}`: `none` is the nil map.
abbrev pub Chunk : Type 0
Chunk = Option Fields

-- m[k]
unfoldable pub find_field : Bytes → Fields → Option Json
find_field k end = none
find_field k (field j v m) = if same j k then some v else find_field k m

-- m[k] where `m` may be nil
unfoldable pub get_field : Bytes → Chunk → Option Json
unfolding find_field
get_field k none = none
get_field k (some m) = find_field k m

-- The target of json.Unmarshal is a map: null leaves it nil, any other value is an error.
unfoldable pub as_map : Option Json → Option Chunk
as_map (some null) = some none
as_map (some (obj m)) = some (some m)
as_map _ = none

-- v.(map[string]interface{})
unfoldable pub as_object : Option Json → Chunk
as_object (some (obj m)) = some m
as_object _ = none

-- v.([]interface{}), empty if the assertion fails
unfoldable pub as_items : Option Json → Items
as_items (some (arr xs)) = xs
as_items _ = nil

-- v.(string), empty if the assertion fails
unfoldable pub as_text : Option Json → Bytes
as_text (some (str s)) = s
as_text _ = codes ""

-- xs[0] if there is one
unfoldable pub first_item : Items → Option Json
first_item nil = none
first_item (cons x xs) = some x

-- m[k] = v
unfoldable pub set_field : Bytes → Json → Fields → Fields
set_field k v end = field k v end
set_field k v (field j w m) = if same j k then field k v m else field j w (set_field k v m)
