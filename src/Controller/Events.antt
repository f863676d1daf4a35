-- ===== src/Controller/Events.antt =====
-- internal/controller/podpool_controller.go: the events of a pool, and what decides whether one is
-- news. An event recorder is set, as cmd/main.go sets it.
pub mod Laws
use podpool_controller.Prelude.{
  ℕ, Bool, true, false, not, ◌&&◌, ◌||◌, Option, none, some, List, [], ◌∷◌, String, str_eq, concat,
  if◌then◌else◌, at, put, remove, is_some,
}
use podpool_controller.Api.{
  ConditionStatus, true_status, false_status, unknown_status, Condition, GroupStatus, PodPool,
}
use podpool_controller.Controller.Errors.{PendingEvent}
use podpool_controller.Controller.Probe.{probe_key}
use podpool_controller.Controller.Progress.{find_group_status}

pub record Event : Type 0 where
  pub is_warning : Bool
  pub reason : String
  pub action : String
  pub note : String

abbrev pub warning : String → String → String → Event
warning reason action note = record {
  is_warning = true;
  reason = reason;
  action = action;
  note = note;
}

abbrev pub normal : String → String → String → Event
normal reason action note = record {
  is_warning = false;
  reason = reason;
  action = action;
  note = note;
}

abbrev pub same_status : ConditionStatus → ConditionStatus → Bool
same_status true_status true_status = true
same_status false_status false_status = true
same_status unknown_status unknown_status = true
same_status _ _ = false

abbrev pub tuple_changed : Option Condition → Option Condition → Bool
tuple_changed none none = false
tuple_changed none (some _) = true
tuple_changed (some _) none = true
tuple_changed (some p) (some c) =
    not (same_status p.status c.status && (str_eq p.reason c.reason && str_eq p.message c.message))

abbrev has_reason : String → Option Condition → Bool
has_reason reason none = false
has_reason reason (some c) = str_eq c.reason reason

-- `find` is `meta.FindStatusCondition`.
module _ (find : List Condition → String → Option Condition) where
  unfoldable pub condition_tuple_changed : List Condition → List Condition → String → Bool
  condition_tuple_changed prev cur kind = tuple_changed (find prev kind) (find cur kind)

  unfoldable pub ready_reason_is : List Condition → String → Bool
  ready_reason_is conditions reason = has_reason reason (find conditions "Ready")

  unfoldable pub announce_resume : PodPool → PodPool → Bool → List Event
  unfolding condition_tuple_changed
  announce_resume pool before was_paused =
      if was_paused
        && condition_tuple_changed before.status.conditions pool.status.conditions "Ready"
      then normal "Resumed" "ResumeReconciliation" "Reconciliation resumed" ∷ []
      else []

abbrev pub annotation_paused : String
annotation_paused = "podpools.dev/paused"

abbrev is_one_of : String → List String → Bool
is_one_of s [] = false
is_one_of s (t ∷ more) = str_eq s t || is_one_of s more

-- `strconv.ParseBool`.
unfoldable pub parse_bool : String → Option Bool
parse_bool s =
    if is_one_of s ("1" ∷ "t" ∷ "T" ∷ "TRUE" ∷ "true" ∷ "True" ∷ [])
    then some true
    else if is_one_of s ("0" ∷ "f" ∷ "F" ∷ "FALSE" ∷ "false" ∷ "False" ∷ [])
    then some false
    else none

abbrev or_true : Option Bool → Bool
or_true none = true
or_true (some b) = b

unfoldable pub is_paused : PodPool → Bool
unfolding parse_bool
is_paused pool = elim (at str_eq annotation_paused pool.annotations) [
  | none ↦ false
  | some v ↦ or_true (parse_bool v)
]

abbrev other_reason : String → Option GroupStatus → Bool
other_reason reason none = true
other_reason reason (some prev) = not (str_eq prev.reason reason)

unfoldable pub group_event_changed : List GroupStatus → String → String → Bool
unfolding find_group_status
group_event_changed before group reason = other_reason reason (find_group_status before group)

-- The loop that publishes the events of the groups at the end of a pass.
unfoldable pub flush_group_events : List GroupStatus → List PendingEvent → List Event
unfolding group_event_changed
flush_group_events before [] = []
flush_group_events before (pe ∷ pending) =
    let rest = flush_group_events before pending in
    if group_event_changed before pe.group pe.reason
    then warning pe.reason "ReconcileGroup" pe.note ∷ rest
    else rest

-- The groups whose child was last read out of range: a key that is missing reads as false.
abbrev pub Marks : Type 0
Marks = List (String × Bool)

abbrev pub is_marked : Option Bool → Bool
is_marked none = false
is_marked (some b) = b

abbrev out_of_range_event : String → String → String → Event
out_of_range_event kind child group = warning "ChildStatusOutOfRange" "ChildStatus" (
    concat (
      kind ∷ " " ∷ child ∷ " published a replica count outside the representable range; group "
      ∷ group ∷ " is using a clamped value and its reported counts are not the child's" ∷ []))

unfoldable pub report_out_of_range :
    PodPool → String → String → String → Bool → Marks → Marks × List Event
unfolding probe_key
report_out_of_range pool group kind child out_of_range marks =
    let key = probe_key pool group in
    let already = is_marked (at str_eq key marks) in
    if not out_of_range
    then (remove str_eq key marks, [])
    else if not already
    then (put str_eq key true marks, out_of_range_event kind child group ∷ [])
    else (marks, [])
