-- ===== src/Workload/Object/Laws.antt =====
-- What internal/workload/render.go relies on of the accessors of k8s.io/apimachinery.
use podpool_controller.Prelude.{◌≡◌, false, some, List, ◌∷◌, String, str_eq}
use podpool_controller.Json.{Json, Fields}
use podpool_controller.Workload.Object.{ObjectApi, OwnerReference}

module _ (api : ObjectApi) where
  -- A value is read back from where it was set, and from nowhere else below the same field; the
  -- accessors of the metadata leave the spec and each other's fields alone.
  pub record ObjectLaws : Type 0 where
    pub set-get :
        (v : Json) (p : List String) (m n : Fields)
        → api.set_nested v p m ≡ some n
        → api.nested_field p n ≡ some v
    pub set-get_other :
        (v : Json) (k j i : String) (p q : List String) (m n : Fields)
        → api.set_nested v (k ∷ j ∷ p) m ≡ some n
        → str_eq j i ≡ false
        → api.nested_field (k ∷ i ∷ q) n ≡ api.nested_field (k ∷ i ∷ q) m
    pub put-get :
        (v w : Json) (k : String) (p : List String) (m : Fields)
        → api.nested_field (k ∷ p) m ≡ some w
        → api.nested_field (k ∷ p) (api.put_in_place (k ∷ p) v m) ≡ some v
    pub name-spec :
        (s : String) (p : List String) (m : Fields)
        → api.nested_field ("spec" ∷ p) (api.set_name s m) ≡ api.nested_field ("spec" ∷ p) m
    pub namespace-spec :
        (s : String) (p : List String) (m : Fields)
        → api.nested_field ("spec" ∷ p) (api.set_namespace s m) ≡ api.nested_field ("spec" ∷ p) m
    pub labels-spec :
        (ls : List (String × String)) (p : List String) (m : Fields)
        → api.nested_field ("spec" ∷ p) (api.set_labels ls m) ≡ api.nested_field ("spec" ∷ p) m
    pub owners-spec :
        (rs : List OwnerReference) (p : List String) (m : Fields)
        → api.nested_field ("spec" ∷ p) (api.set_owner_references rs m)
          ≡ api.nested_field ("spec" ∷ p) m
    pub name-name : (s : String) (m : Fields) → api.get_name (api.set_name s m) ≡ s
    pub namespace-name :
        (s : String) (m : Fields) → api.get_name (api.set_namespace s m) ≡ api.get_name m
    pub labels-name :
        (ls : List (String × String)) (m : Fields)
        → api.get_name (api.set_labels ls m) ≡ api.get_name m
    pub owners-name :
        (rs : List OwnerReference) (m : Fields)
        → api.get_name (api.set_owner_references rs m) ≡ api.get_name m
    pub owners-owners :
        (rs : List OwnerReference) (m : Fields)
        → api.get_owner_references (api.set_owner_references rs m) ≡ rs
