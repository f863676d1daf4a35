-- ===== src/Controller/Tests/CacheTests.antt =====
-- A Deployment before it is cached, with accessors that can be run.
use podpool_controller.Prelude.{Bool, true, false, Option, some, List, [], ◌∷◌, String, refl}
use podpool_controller.Controller.Cache.{Cached, object, MetaApi, last_applied}
use podpool_controller.Controller.Cache.Laws.{
  MetaLaws, IsApart, IsStripped, strip_cache_weight-IsStripped,
}

record Meta : Type 0 where
  name : String
  is_managed : Bool
  annotations : Option (List (String × String))

abbrev meta_api : MetaApi Meta
meta_api = record {
  has_managed_fields = λ m. m.is_managed;
  clear_managed_fields = λ m. record m { is_managed = false };
  get_annotations = λ m. m.annotations;
  set_annotations = λ a m. record m { annotations = some a };
}

abbrev meta_laws : MetaLaws meta_api
meta_laws = record {
  clear-has = λ m. refl;
  clear-get = λ m. refl;
  set-has = λ a m. refl;
  set-get = λ a m. refl;
}

abbrev name_of : Meta → String
name_of m = m.name

abbrev name_apart : IsApart meta_api name_of
name_apart = ((λ m. refl), (λ a m. refl))

abbrev web : Cached Meta String
web = object (record {
  name = "web";
  is_managed = true;
  annotations = some (("team", "shop") ∷ (last_applied, "{}") ∷ []);
})

strip_cache_weight-IsStripped_example : IsStripped meta_api meta_laws name_of name_apart "team" web
strip_cache_weight-IsStripped_example =
    strip_cache_weight-IsStripped meta_api meta_laws name_of name_apart "team" refl web
