-- ===== src/Controller/Cache/Laws.antt =====
-- internal/controller/cache_transform.go: what a cached object has left.
use podpool_controller.Prelude.{
  Bool, true, false, Option, none, some, List, String, str_eq, str_eq_iff, at, remove, at-remove,
  at-remove_other, ◌≡◌, refl, ◌∙◌, ap,
}
use podpool_controller.Controller.Cache.{
  Cached, object, foreign, MetaApi, last_applied, without_managed, without_applied, lightened,
  strip_object, strip_cache_weight,
}

-- What the accessors promise: what was set is read back, and neither setter touches the other's field.
pub record MetaLaws {O : Type 0} (api : MetaApi O) : Type 0 where
  pub clear-has : (o : O) → api.has_managed_fields (api.clear_managed_fields o) ≡ false
  pub clear-get : (o : O) → api.get_annotations (api.clear_managed_fields o) ≡ api.get_annotations o
  pub set-has :
      (a : List (String × String)) (o : O)
      → api.has_managed_fields (api.set_annotations a o) ≡ api.has_managed_fields o
  pub set-get :
      (a : List (String × String)) (o : O) → api.get_annotations (api.set_annotations a o) ≡ some a

abbrev pub entry : String → Option (List (String × String)) → Option String
entry k none = none
entry k (some annotations) = at str_eq k annotations

-- Something that is read of an object, and that does not depend on what the transform drops.
abbrev pub IsApart : {O V : Type 0} → MetaApi O → (O → V) → Type 0
IsApart {O = O} api view =
    ((o : O) → view (api.clear_managed_fields o) ≡ view o)
    × ((a : List (String × String)) (o : O) → view (api.set_annotations a o) ≡ view o)

module _ {O : Type 0} (api : MetaApi O) (laws : MetaLaws api) where
  managed_cleared :
      (b : Bool) (o : O)
      → api.has_managed_fields o ≡ b
      → api.has_managed_fields (without_managed api b o) ≡ false
  managed_cleared true o e = laws.clear-has o
  managed_cleared false o e = e

  annotations_kept :
      (b : Bool) (o : O) → api.get_annotations (without_managed api b o) ≡ api.get_annotations o
  annotations_kept true o = laws.clear-get o
  annotations_kept false o = refl

  applied_gone :
      (o : O) (t : Option String) (annotations : List (String × String))
      → api.get_annotations o ≡ some annotations
      → at str_eq last_applied annotations ≡ t
      → entry last_applied (api.get_annotations (without_applied api t annotations o)) ≡ none
  applied_gone o none annotations e u = rw (e) u
  applied_gone o (some text) annotations e u =
      rw (laws.set-get (remove str_eq last_applied annotations) o)
        (at-remove str_eq str_eq_iff last_applied annotations)

  others_kept :
      (k : String)
      → str_eq k last_applied ≡ false
      → (o : O) (t : Option String) (annotations : List (String × String))
      → api.get_annotations o ≡ some annotations
      → entry k (api.get_annotations (without_applied api t annotations o))
        ≡ at str_eq k annotations
  others_kept k off o none annotations e = rw (e) refl
  others_kept k off o (some text) annotations e =
      rw (laws.set-get (remove str_eq last_applied annotations) o)
        (at-remove_other str_eq str_eq_iff k last_applied annotations off)

  has_kept :
      (o : O) (t : Option String) (annotations : List (String × String))
      → api.has_managed_fields (without_applied api t annotations o) ≡ api.has_managed_fields o
  has_kept o none annotations = refl
  has_kept o (some text) annotations = laws.set-has (remove str_eq last_applied annotations) o

  -- The second half of the transform, on what the accessor answers.
  lightened-IsLight :
      (k : String)
      → str_eq k last_applied ≡ false
      → (o : O) (a : Option (List (String × String))) → api.get_annotations o ≡ a
      → (api.has_managed_fields (lightened api a o) ≡ api.has_managed_fields o)
        × (entry last_applied (api.get_annotations (lightened api a o)) ≡ none)
        × (entry k (api.get_annotations (lightened api a o)) ≡ entry k a)
  lightened-IsLight k off o none e = (refl, rw (e) refl, rw (e) refl)
  lightened-IsLight k off o (some annotations) e = (
    has_kept o (at str_eq last_applied annotations) annotations,
    applied_gone o (at str_eq last_applied annotations) annotations e refl,
    others_kept k off o (at str_eq last_applied annotations) annotations e,
  )

  lightened_still :
      (o : O) (a : Option (List (String × String)))
      → entry last_applied a ≡ none
      → lightened api a o ≡ o
  lightened_still o none e = refl
  lightened_still o (some annotations) e = rw (e) refl

  module _ {V : Type 0} (view : O → V) (apart : IsApart api view) where
    lightened_view :
        (o : O) (a : Option (List (String × String))) → view (lightened api a o) ≡ view o
    lightened_view o none = refl
    lightened_view o (some annotations) = by_entry (at str_eq last_applied annotations)
      where
        by_entry : (t : Option String) → view (without_applied api t annotations o) ≡ view o
        by_entry none = refl
        by_entry (some text) = apart.1 (remove str_eq last_applied annotations) o

    managed_view : (b : Bool) (o : O) → view (without_managed api b o) ≡ view o
    managed_view true o = apart.0 o
    managed_view false o = refl

    abbrev pub IsLight : String → O → O → Type 0
    IsLight k o light =
        (api.has_managed_fields light ≡ false)
        × (entry last_applied (api.get_annotations light) ≡ none)
        × (entry k (api.get_annotations light) ≡ entry k (api.get_annotations o))
        × (view light ≡ view o)

    strip_object-IsLight :
        (k : String) → str_eq k last_applied ≡ false → (o : O) → IsLight k o (strip_object api o)
    unfolding strip_object
    strip_object-IsLight k off o =
        let cleared = without_managed api (api.has_managed_fields o) o in
        let (has, gone, kept) =
          lightened-IsLight k off cleared (api.get_annotations cleared) refl in
        (
          has ∙ managed_cleared (api.has_managed_fields o) o refl,
          gone,
          kept ∙ ap (entry k) (annotations_kept (api.has_managed_fields o) o),
          lightened_view cleared (api.get_annotations cleared)
              ∙ managed_view (api.has_managed_fields o) o,
        )

    still :
        (o : O)
        → api.has_managed_fields o ≡ false
        → entry last_applied (api.get_annotations o) ≡ none
        → strip_object api o ≡ o
    unfolding strip_object
    still o has gone = rw (has) (lightened_still o (api.get_annotations o) gone)

    abbrev pub IsStripped : {X : Type 0} → String → Cached O X → Type 0
    IsStripped {X = X} k (object o) =
        ((light : O) × (strip_cache_weight api {X = X} (object o) ≡ object light)
          × IsLight k o light
          × (strip_cache_weight api {X = X} (object light) ≡ object light))
    IsStripped {X = X} k (foreign x) = strip_cache_weight api {X = X} (foreign x) ≡ foreign x

    -- The cache keeps an object without its managed fields and without the annotation of the last applied
    -- configuration, and loses nothing else: over accessors that read back what was set and leave each
    -- other's field alone, any other annotation is read as before, and so is whatever the two setters do
    -- not touch. To strip an object twice is to strip it once, and what is no object passes as it is.
    pub strip_cache_weight-IsStripped :
        {X : Type 0} (k : String)
        → str_eq k last_applied ≡ false
        → (c : Cached O X) → IsStripped k c
    unfolding strip_cache_weight
    strip_cache_weight-IsStripped k off (object o) =
        let (has, gone, kept, same) = strip_object-IsLight k off o in
        (
          strip_object api o,
          refl,
          (has, gone, kept, same),
          ap object (still (strip_object api o) has gone),
        )
    strip_cache_weight-IsStripped k off (foreign x) = refl
