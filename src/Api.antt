-- ===== src/Api.antt =====
-- api/v1alpha1/podpool_types.go: the custom resource. A pointer is an `Option`. The counts carry a
-- lower bound of 0 or 1 in the schema, so they are natural numbers; an integer that a `target` holds
-- may be of any sign. Times are nanoseconds since the zero `time.Time`, which is 0.
use podpool_controller.Prelude.{ℕ, Bool, List, Option, String, ℤ}
use podpool_controller.Json.{Raw}

-- `intstr.IntOrString`: `Type` says which of the two values counts; a text is its bytes.
pub data IntOrString : Type 0 where
  int_val : ℤ → IntOrString
  str_val : List ℕ → IntOrString

pub record ScalingConstraints : Type 0 where
  pub min : Option ℕ
  pub max : Option ℕ
  pub target : Option IntOrString
  pub opportunistic : Option Bool

pub record GroupSpec : Type 0 where
  pub name : String
  pub scaling : ScalingConstraints
  pub overrides : Option Raw

pub record PodPoolSpec : Type 0 where
  pub replicas : ℕ
  pub workload_template : Raw
  pub groups : List GroupSpec
  pub opportunistic_heartbeat_seconds : Option ℕ
  pub progress_deadline_seconds : Option ℕ

-- `metav1.Condition`, without its transition time.
pub data ConditionStatus : Type 0 where
  true_status false_status unknown_status : ConditionStatus

pub record Condition : Type 0 where
  pub kind : String
  pub status : ConditionStatus
  pub reason : String
  pub message : String
  pub observed_generation : ℕ

pub record WorkloadReference : Type 0 where
  pub api_version : String
  pub kind : String
  pub name : String

pub record GroupStatus : Type 0 where
  pub name : String
  pub ready : Bool
  pub reason : String
  pub message : String
  pub replicas : ℕ
  pub target_replicas : ℕ
  pub ready_replicas : ℕ
  pub updated_replicas : ℕ
  pub share_percent : ℕ
  pub last_progress_time : Option ℕ
  pub workload_ref : Option WorkloadReference

pub record PodPoolStatus : Type 0 where
  pub conditions : List Condition
  pub observed_generation : ℕ
  pub replicas : ℕ
  pub ready_replicas : ℕ
  pub updated_replicas : ℕ
  pub unplaced_replicas : ℕ
  pub selector : String
  pub group_count : ℕ
  pub groups : List GroupStatus

-- The metadata is what the controller and the webhook read of it.
pub record PodPool : Type 0 where
  pub name : String
  pub generate_name : String
  pub namespace : String
  pub uid : String
  pub generation : ℕ
  pub is_deleting : Bool
  pub annotations : List (String × String)
  pub spec : PodPoolSpec
  pub status : PodPoolStatus
