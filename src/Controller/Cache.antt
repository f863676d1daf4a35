-- ===== src/Controller/Cache.antt =====
-- internal/controller/cache_transform.go: what the cache drops from an object before it keeps it.
pub mod Laws
use podpool_controller.Prelude.{
  Bool, true, false, Option, none, some, List, String, str_eq, at, remove,
}

-- What the transform is handed: an object, as `meta.Accessor` finds it, or anything else.
pub data Cached (O X : Type 0) : Type 0 where
  object : O → Cached O X
  foreign : X → Cached O X

-- The accessors of `metav1.Object`. A nil map of annotations is `none`; of the managed fields only
-- whether they are nil is read.
pub record MetaApi (O : Type 0) : Type 0 where
  pub has_managed_fields : O → Bool
  pub clear_managed_fields : O → O
  pub get_annotations : O → Option (List (String × String))
  pub set_annotations : List (String × String) → O → O

abbrev pub last_applied : String
last_applied = "kubectl.kubernetes.io/last-applied-configuration"

module _ {O : Type 0} (api : MetaApi O) where
  abbrev pub without_managed : Bool → O → O
  without_managed true o = api.clear_managed_fields o
  without_managed false o = o

  -- The entry of the annotation, and the map that holds it.
  abbrev pub without_applied : Option String → List (String × String) → O → O
  without_applied none annotations o = o
  without_applied (some text) annotations o =
      api.set_annotations (remove str_eq last_applied annotations) o

  abbrev pub lightened : Option (List (String × String)) → O → O
  lightened none o = o
  lightened (some annotations) o =
      without_applied (at str_eq last_applied annotations) annotations o

  unfoldable pub strip_object : O → O
  strip_object o =
      let cleared = without_managed (api.has_managed_fields o) o in
      lightened (api.get_annotations cleared) cleared

  unfoldable pub strip_cache_weight : {X : Type 0} → Cached O X → Cached O X
  unfolding strip_object
  strip_cache_weight (object o) = object (strip_object o)
  strip_cache_weight (foreign x) = foreign x
