-- ===== src/Json.antt =====
-- The values that `encoding/json` and the unstructured client decode into `any`: the trees that
-- internal/workload/render.go and the admission webhook walk.
pub mod Laws
use podpool_controller.Prelude.{Bool, Option, none, some, String, str_eq, if◌then◌else◌, ℤ}

mutual
  pub data Json : Type 0 where
    null : Json
    bool : Bool → Json
    num : ℤ → Json
    str : String → Json
    arr : Items → Json
    obj : Fields → Json

  pub data Items : Type 0 where
    nil : Items
    cons : Json → Items → Items

  -- A Go map, in the order of the document; no key stands twice.
  pub data Fields : Type 0 where
    end : Fields
    field : String → Json → Fields → Fields

-- What `json.Unmarshal` makes of the bytes of a `runtime.RawExtension`: there are none, they do
-- not parse, or they are a value.
pub data Raw : Type 0 where
  empty malformed : Raw
  decoded : Json → Raw

-- `m[k]`, and `_, ok := m[k]`.
unfoldable pub lookup : String → Fields → Option Json
lookup k end = none
lookup k (field j v m) = if str_eq j k then some v else lookup k m

-- `m[k] = v`.
unfoldable pub insert : String → Json → Fields → Fields
insert k v end = field k v end
insert k v (field j w m) = if str_eq j k then field j v m else field j w (insert k v m)

-- `delete(m, k)`; every field of that key goes.
unfoldable pub delete : String → Fields → Fields
delete k end = end
delete k (field j w m) = let rest = delete k m in if str_eq j k then rest else field j w rest

-- `v.(map[string]any)`.
abbrev pub as_map : Option Json → Option Fields
as_map (some (obj m)) = some m
as_map _ = none

-- `v.(string)`.
abbrev pub as_string : Option Json → Option String
as_string (some (str s)) = some s
as_string _ = none
