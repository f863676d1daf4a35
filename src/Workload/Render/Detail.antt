-- ===== src/Workload/Render/Detail.antt =====
-- internal/workload/render.go: the explanation that a child publishes, and the cutting of a text.
use podpool_controller.Prelude.{
  ◌&&◌, Option, none, some, List, [], ◌∷◌, String, str_eq, if◌then◌else◌,
}
use podpool_controller.Json.{Json, arr, obj, Items, nil, cons, Fields, lookup, as_string}
use podpool_controller.Workload.Object.{ObjectApi}
use podpool_controller.Workload.Render.{generation_current}

-- `s, _ := v.(string)`.
abbrev or_blank : Option String → String
or_blank none = ""
or_blank (some s) = s

abbrev pub text_at : String → Fields → String
text_at key m = or_blank (as_string (lookup key m))

abbrev usable : Fields → Option (String × String)
usable c =
    if str_eq (text_at "reason" c) "" && str_eq (text_at "message" c) ""
    then none
    else some (text_at "reason" c, text_at "message" c)

-- One condition under one probe.
unfoldable pub read_condition : String → String → Json → Option (String × String)
read_condition kind bad (obj c) =
    if str_eq (text_at "type" c) kind && str_eq (text_at "status" c) bad then usable c else none
read_condition kind bad _ = none

abbrev first_of : Option (String × String) → Option (String × String) → Option (String × String)
first_of none later = later
first_of (some found) later = some found

unfoldable pub scan : String → String → Items → Option (String × String)
unfolding read_condition
scan kind bad nil = none
scan kind bad (cons item items) =
    let later = scan kind bad items in first_of (read_condition kind bad item) later

-- The most specific first; the second is the status that says there is a problem.
abbrev pub detail_probes : List (String × String)
detail_probes =
    ("ReplicaFailure", "True")
    ∷ ("Ready", "False")
    ∷ ("Ready", "Unknown")
    ∷ ("Available", "False")
    ∷ ("Available", "Unknown")
    ∷ []

unfoldable pub scan_all : List (String × String) → Items → Option (String × String)
unfolding scan
scan_all [] items = none
scan_all ((kind, bad) ∷ probes) items =
    let later = scan_all probes items in first_of (scan kind bad items) later

abbrev detail_of : Option Json → Option (String × String)
detail_of (some (arr items)) = scan_all detail_probes items
detail_of _ = none

module _ (api : ObjectApi) where
  -- A reason and a message, where the child says something about its current spec.
  unfoldable pub child_detail : Fields → Option (String × String)
  unfolding scan_all generation_current
  child_detail child =
      if generation_current api child
      then detail_of (api.nested_field ("status" ∷ "conditions" ∷ []) child)
      else none
