-- ===== src/Shared/Json.antt =====
-- JSON values: a request body after its parsing, and the profile of a customer. The keys of an object are unique.
use optio_ai_assignment.Prelude.{String, Bool, Option, none, some, ◌==◌, if◌then◌else◌}
use optio_ai_assignment.Number.{Number}

mutual
  pub data Json : Type 0 where
    null : Json
    bool : Bool → Json
    number : Number → Json
    string : String → Json
    array : Elements → Json
    object : Fields → Json

  pub data Elements : Type 0 where
    no_elements : Elements
    element : Json → Elements → Elements

  pub data Fields : Type 0 where
    no_fields : Fields
    entry : String → Json → Fields → Fields

-- `node[name]`; `none` is `undefined`
unfoldable pub field : String → Fields → Option Json
field name no_fields = none
field name (entry key value rest) =
    let later = field name rest in if key == name then some value else later

-- `object[key] = value`: a key that is there keeps its place
unfoldable pub set_field : String → Json → Fields → Fields
set_field name new no_fields = entry name new no_fields
set_field name new (entry key value rest) =
    let later = set_field name new rest in
    if key == name then entry key new rest else entry key value later

-- `{ ...object, ...patch }`
unfoldable pub spread : Fields → Fields → Fields
spread fields no_fields = fields
spread fields (entry key value rest) = spread (set_field key value fields) rest
