-- ===== src/Webhook/Report.antt =====
-- `field.Error` and `field.Path` of k8s.io/apimachinery as far as the webhook uses them: a path is
-- the sequence of calls that made it, and how values are spelled in a message is a parameter.
use podpool_controller.Prelude.{ℕ, String, List}
use podpool_controller.Json.{Fields, Raw}
use podpool_controller.Api.{IntOrString, GroupSpec}
use podpool_controller.Workload.Object.{Gvk}

pub data Segment : Type 0 where
  child : String → Segment
  index : ℕ → Segment
  key : String → Segment

pub data ErrorKind : Type 0 where
  required invalid duplicate forbidden internal : ErrorKind

-- `value` is the rejected value of an invalid field, spelled out.
pub record FieldError : Type 0 where
  pub kind : ErrorKind
  pub path : List Segment
  pub value : String
  pub detail : String

-- `quote` is `%q`, `decimal` is `%d`; the others are `String()` methods and error texts.
pub record Texts : Type 0 where
  pub quote : String → String
  pub decimal : ℕ → String
  pub path_text : List Segment → String
  pub kind_text : ErrorKind → String
  pub target_text : IntOrString → String
  pub gvk_text : Gvk → String
  pub raw_text : Raw → String
  pub gvk_error : Raw → String
  pub render_error : Fields → GroupSpec → String
