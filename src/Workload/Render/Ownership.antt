-- ===== src/Workload/Render/Ownership.antt =====
-- internal/workload/render.go: the fields of a child that the controller writes.
use podpool_controller.Prelude.{
  ℕ, ◌≡◌, refl, ap, subst, ◌∙◌, Option, none, some, List, [], ◌∷◌, String, pos, Option-cases, inl,
  inr,
}
use mathlib.Core.Option.{some-injective}
use podpool_controller.Json.{Json, null, bool, num, str, arr, obj, Fields, lookup, as_map}
use podpool_controller.Json.Laws.{lookup-insert, lookup-insert_other}
use podpool_controller.Api.{GroupSpec, PodPool}
use podpool_controller.Workload.Object.{ObjectApi}
use podpool_controller.Workload.Object.Laws.{ObjectLaws}
use podpool_controller.Workload.Merge.{strip_pasted_metadata}
use podpool_controller.Workload.Render.{child_name, label_pool, label_group}
use podpool_controller.Workload.Render.Child.{
  apply_overrides, or_empty, label_template, match_labels, owner_of, own, owned, scaled, stripped,
  fill, build_child_workload,
}

-- A label of the pods that a template describes.
abbrev pub pod_label : String → Fields → Option Json
pod_label k template =
    lookup k (or_empty (as_map (lookup "labels" (or_empty (as_map (lookup "metadata" template))))))

pod_label-pool :
    (pool : PodPool) (group : GroupSpec) (t : Fields)
    → (pod_label label_pool (label_template pool group t) ≡ some (str pool.name))
      × (pod_label label_group (label_template pool group t) ≡ some (str group.name))
unfolding label_template
pod_label-pool pool group t =
    (simp (lookup-insert, lookup-insert_other), simp (lookup-insert, lookup-insert_other))

module _ (api : ObjectApi) (laws : ObjectLaws api) (pool : PodPool) (group : GroupSpec) where
  abbrev spec_of : List String → Fields → Option Json
  spec_of p m = api.nested_field ("spec" ∷ p) m

  own-spec : (p : List String) (m : Fields) → spec_of p (own api pool group m) ≡ spec_of p m
  unfolding own
  own-spec p m = simp (laws.owners-spec, laws.labels-spec, laws.namespace-spec, laws.name-spec)

  own-name : (m : Fields) → api.get_name (own api pool group m) ≡ child_name pool.name group.name
  unfolding own
  own-name m = simp (laws.owners-name, laws.labels-name, laws.namespace-name, laws.name-name)

  own-owners : (m : Fields) → api.get_owner_references (own api pool group m) ≡ owner_of pool ∷ []
  unfolding own
  own-owners m = simp (laws.owners-owners)

  abbrev IsOwned : ℕ → Fields → Type 0
  IsOwned replicas child =
      (api.get_name child ≡ child_name pool.name group.name)
      × (api.get_owner_references child ≡ owner_of pool ∷ [])
      × (spec_of ("replicas" ∷ []) child ≡ some (num (pos replicas)))
      × (spec_of ("selector" ∷ "matchLabels" ∷ []) child ≡ some (match_labels pool group))
      × ((t : Fields) × (spec_of ("template" ∷ []) child ≡ some (obj t))
          × (pod_label label_pool t ≡ some (str pool.name))
          × (pod_label label_group t ≡ some (str group.name)))

  own-IsOwned :
      (replicas : ℕ) (labelled selected sized t : Fields)
      → spec_of ("template" ∷ []) labelled ≡ some (obj (label_template pool group t))
      → api.set_nested (match_labels pool group) ("spec" ∷ "selector" ∷ "matchLabels" ∷ []) labelled
        ≡ some selected
      → api.set_nested (num (pos replicas)) ("spec" ∷ "replicas" ∷ []) selected ≡ some sized
      → IsOwned replicas (own api pool group sized)
  own-IsOwned replicas labelled selected sized t at_template at_selector at_replicas =
      let v = num (pos replicas) in
      let labels = pod_label-pool pool group t in
      (
        own-name sized,
        own-owners sized,
        own-spec ("replicas" ∷ []) sized
            ∙ laws.set-get v ("spec" ∷ "replicas" ∷ []) selected sized at_replicas,
        own-spec ("selector" ∷ "matchLabels" ∷ []) sized
            ∙ laws.set-get_other v "spec" "replicas" "selector" [] ("matchLabels" ∷ []) selected
                sized at_replicas refl
            ∙ laws.set-get (match_labels pool group) ("spec" ∷ "selector" ∷ "matchLabels" ∷ [])
                labelled selected at_selector,
        (
          label_template pool group t,
          own-spec ("template" ∷ []) sized
              ∙ laws.set-get_other v "spec" "replicas" "template" [] [] selected sized at_replicas
                  refl
              ∙ laws.set-get_other (match_labels pool group) "spec" "selector" "template"
                  ("matchLabels" ∷ []) [] labelled selected at_selector refl
              ∙ at_template,
          labels.0,
          labels.1,
        ),
      )

  as_map-some : (o : Option Json) (t : Fields) → as_map o ≡ some t → o ≡ some (obj t)
  as_map-some (some (obj m)) t h =
      ap {A = Option Fields} (λ x. elim x [ none ↦ none | some n ↦ some (obj n) ]) h
  as_map-some none t h = absurd (cc)
  as_map-some (some null) t h = absurd (cc)
  as_map-some (some (bool b)) t h = absurd (cc)
  as_map-some (some (num n)) t h = absurd (cc)
  as_map-some (some (str s)) t h = absurd (cc)
  as_map-some (some (arr xs)) t h = absurd (cc)

  abbrev labelled_at : Fields → Fields → Fields
  labelled_at c t =
      api.put_in_place ("spec" ∷ "template" ∷ []) (obj (label_template pool group t)) c

  fill-IsOwned :
      (replicas : ℕ) (c child : Fields) (held : Option Fields)
      → as_map (spec_of ("template" ∷ []) c) ≡ held
      → fill api pool group replicas c held ≡ some child
      → IsOwned replicas child
  unfolding fill
  fill-IsOwned replicas c child none at h = absurd (cc)
  fill-IsOwned replicas c child (some t) at h =
      let m1 = labelled_at c t in
      let path : List String = "spec" ∷ "template" ∷ [] in
      let held : api.nested_field path m1 ≡ some (obj (label_template pool group t)) =
        laws.put-get (obj (label_template pool group t)) (obj t) "spec" ("template" ∷ []) c
          (as_map-some (api.nested_field path c) t at) in
      elim (Option-cases
        (api.set_nested (match_labels pool group) ("spec" ∷ "selector" ∷ "matchLabels" ∷ []) m1)) [
          | inl e ↦
              let bad = subst (λ o. scaled api pool group replicas o ≡ some child) e h in
              absurd (cc)
          | inr (m2, e) ↦
              let h2 = subst (λ o. scaled api pool group replicas o ≡ some child) e h in
              elim (Option-cases
                (api.set_nested (num (pos replicas)) ("spec" ∷ "replicas" ∷ []) m2)) [
                  | inl e2 ↦
                      let bad = subst (λ o. owned api pool group o ≡ some child) e2 h2 in
                      absurd (cc)
                  | inr (m3, e2) ↦
                      let h3 : some (own api pool group m3) ≡ some child =
                        subst (λ o. owned api pool group o ≡ some child) e2 h2 in
                      subst (IsOwned replicas) (some-injective (own api pool group m3) child h3)
                        (own-IsOwned replicas m1 m2 m3 t held e e2)
                ]
        ]

module _ (api : ObjectApi) (laws : ObjectLaws api) where
  -- What the controller owns of a child does not depend on the template or on the overrides: a child
  -- that is rendered, over accessors that read back what was set, has the pool's and the group's name,
  -- the pool as its one owner, the replicas of the distribution, the pool's selector, and pods that
  -- carry both labels of that selector.
  pub build_child_workload-IsOwned :
      (pool : PodPool) (group : GroupSpec) (template child : Fields) (replicas : ℕ)
      → build_child_workload api template group pool replicas ≡ some child
      → (api.get_name child ≡ child_name pool.name group.name)
        × (api.get_owner_references child ≡ owner_of pool ∷ [])
        × (api.nested_field ("spec" ∷ "replicas" ∷ []) child ≡ some (num (pos replicas)))
        × (api.nested_field ("spec" ∷ "selector" ∷ "matchLabels" ∷ []) child
            ≡ some (match_labels pool group))
        × ((t : Fields) × (api.nested_field ("spec" ∷ "template" ∷ []) child ≡ some (obj t))
            × (pod_label label_pool t ≡ some (str pool.name))
            × (pod_label label_group t ≡ some (str group.name)))
  unfolding build_child_workload
  build_child_workload-IsOwned pool group template child replicas h =
      elim (Option-cases (apply_overrides template group.overrides)) [
        | inl e ↦
            let bad = subst (λ o. stripped api pool group replicas o ≡ some child) e h in
            absurd (cc)
        | inr (m, e) ↦
            let c = strip_pasted_metadata m in
            fill-IsOwned api laws pool group replicas c child
              (as_map (api.nested_field ("spec" ∷ "template" ∷ []) c)) refl
              (subst (λ o. stripped api pool group replicas o ≡ some child) e h)
      ]
