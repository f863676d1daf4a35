-- ===== src/Workload/Object.antt =====
-- The parts of k8s.io/apimachinery that internal/workload/render.go calls: accessors of unstructured
-- objects, and the reading of an apiVersion. What the code relies on is `IsFaithful`.
pub mod Laws
pub mod Plain
use podpool_controller.Prelude.{
  Bool, true, Option, none, some, List, [], ◌∷◌, String, ◌≡◌, ℤ, if◌then◌else◌,
}
use podpool_controller.Json.{Json, Fields}

pub record OwnerReference : Type 0 where
  pub api_version : String
  pub kind : String
  pub name : String
  pub uid : String
  pub is_controller : Bool
  pub blocks_deletion : Bool

pub record Gvk : Type 0 where
  pub group : String
  pub version : String
  pub kind : String

-- A failure of an accessor and a missing field both come out as `none`, which the code treats alike.
-- `put_in_place` is what an object holds once the map that was found at the path, without a copy, has
-- been changed.
pub record ObjectApi : Type 0 where
  pub nested_field : List String → Fields → Option Json
  pub nested_int64 : List String → Fields → Option ℤ
  pub put_in_place : List String → Json → Fields → Fields
  pub set_nested : Json → List String → Fields → Option Fields
  pub get_name : Fields → String
  pub set_name : String → Fields → Fields
  pub set_namespace : String → Fields → Fields
  pub get_labels : Fields → List (String × String)
  pub set_labels : List (String × String) → Fields → Fields
  pub get_owner_references : Fields → List OwnerReference
  pub set_owner_references : List OwnerReference → Fields → Fields
  pub parse_group_version : String → Option (String × String)
