-- ===== src/Controller/Conditions.antt =====
-- internal/controller/conditions.go: the conditions that a pass publishes. The messages are made of
-- digits, of fixed English words and of group names, which are DNS labels, so a byte is a character.
pub mod Laws
pub mod Messages
use Prim.Native.String.{String as Text, count}
use podpool_controller.Prelude.{
  ℕ, zero, suc, ◌-◌, Bool, true, false, not, ◌&&◌, ◌||◌, Option, none, some, List, [], ◌∷◌, String,
  str_eq, ltb, leb, ◌==◌, if◌then◌else◌, length, concat, codes,
}
use podpool_controller.Api.{
  ConditionStatus, true_status, false_status, unknown_status, Condition, PodPoolStatus, PodPool,
}

pub record ConditionInputs : Type 0 where
  pub target_degraded : Bool
  pub unplaced : ℕ
  pub ready : ℕ
  pub desired : ℕ
  pub failed_groups : List String
  pub stalled_groups : List String
  pub not_owned_groups : List String
  pub terminal_groups : List String
  pub pool_invalid : Bool
  pub paused : Bool
  pub watch_failed : Bool

-- Reason and message of a condition, and its status.
pub record Finding : Type 0 where
  pub status : ConditionStatus
  pub reason : String
  pub message : String

abbrev pub found : ConditionStatus → String → String → Finding
found status reason message = record { status = status; reason = reason; message = message }

abbrev pub condition : String → ℕ → Finding → Condition
condition kind generation f = record {
  kind = kind;
  status = f.status;
  reason = f.reason;
  message = f.message;
  observed_generation = generation;
}

abbrev pub is_empty : List String → Bool
is_empty [] = true
is_empty (_ ∷ _) = false

-- `strings.Join(names, ", ")`.
unfoldable pub join : List String → String
join [] = ""
join (s ∷ []) = s
join (s ∷ t ∷ names) = concat (s ∷ ", " ∷ join (t ∷ names) ∷ [])

-- `s[:n]`.
unfoldable pub prefix : ℕ → String → String
prefix zero s = ""
prefix (suc n) Text.[] = ""
prefix (suc n) (Text.◌∷◌ c s) = Text.◌∷◌ c (prefix n s)

abbrev pub size : String → ℕ
size s = count s

unfoldable pub truncate : String → ℕ → String
unfolding prefix
truncate s max_len =
    if leb (size s) max_len
    then s
    else if leb max_len 3
    then prefix max_len s
    else concat (prefix (max_len - 3) s ∷ "..." ∷ [])

-- `decimal` is `%d`.
module _ (decimal : ℕ → String) where
  unfoldable pub format_group_names_budgeted : List String → String
  unfolding truncate
  format_group_names_budgeted [] = ""
  format_group_names_budgeted (g ∷ []) = truncate g 20
  format_group_names_budgeted (g ∷ h ∷ names) = concat (
      truncate g 20
      ∷ " +"
      ∷ decimal (suc (length names))
      ∷ " more ("
      ∷ decimal (suc (suc (length names)))
      ∷ " total)"
      ∷ [])

  -- Called with at least one name.
  unfoldable pub format_group_names : List String → String
  format_group_names [] = ""
  format_group_names (g ∷ []) = g
  format_group_names (g ∷ h ∷ []) = concat (g ∷ ", " ∷ h ∷ [])
  format_group_names (g ∷ h ∷ names) =
      concat (g ∷ ", " ∷ h ∷ " +" ∷ decimal (length names) ∷ " more" ∷ [])

  unfoldable pub not_owned_message : List String → List String → String
  unfolding format_group_names
  not_owned_message not_owned failed =
      let message =
        concat (
          "Group(s) " ∷ format_group_names not_owned ∷ " are managed by another controller" ∷ []) in
      let others = length failed - length not_owned in
      if ltb 0 others
      then concat (message ∷ "; " ∷ decimal others ∷ " other group(s) also failed" ∷ [])
      else message

  abbrev of_desired : ℕ → ℕ → String → String
  of_desired n desired what = concat (decimal n ∷ "/" ∷ decimal desired ∷ what ∷ [])

  unfoldable pub available : ConditionInputs → Finding
  available i =
      if i.desired == 0
      then found true_status "ScaledToZero" "Pool is scaled to zero replicas"
      else if ltb 0 i.ready
      then found true_status "MinimumReplicasAvailable"
          (of_desired i.ready i.desired " replicas ready")
      else found false_status "NoReplicasAvailable"
          (concat ("0/" ∷ decimal i.desired ∷ " replicas are ready" ∷ []))

  unfoldable pub progressing : ConditionInputs → Finding
  unfolding format_group_names
  progressing i =
      if ltb 0 i.unplaced
      then found false_status "CeilingsBelowDesired" (
          concat
            (decimal i.unplaced ∷ " replicas are permanently unplaced: every group is capped" ∷ []))
      else if not (is_empty i.stalled_groups)
      then found false_status "ProgressDeadlineExceeded" (
          concat (
            "Group(s) " ∷ format_group_names i.stalled_groups ∷ " exceeded progress deadline" ∷ []))
      else if ltb i.ready i.desired
      then found true_status "ReplicasUpdating" (of_desired i.ready i.desired " replicas ready")
      else found false_status "AllReplicasReady" "All replicas are up to date"

  unfoldable pub degraded : ConditionInputs → Finding
  degraded i =
      if ltb 0 i.unplaced
      then found true_status "CeilingsBelowDesired" (
          of_desired i.unplaced i.desired
            " replicas are unplaced: every group has a max or target, and the ceilings do not reach spec.replicas")
      else if i.target_degraded
      then found true_status "AbsoluteConstraintOverride"
          "An absolute min or max is holding a group away from its target"
      else found false_status "TargetsSatisfied" "All target constraints are satisfied"

  unfoldable pub groups_ready : ConditionInputs → Finding
  unfolding join not_owned_message
  groups_ready i =
      if i.pool_invalid
      then found false_status "GroupSpecInvalid"
          "The pool's workloadTemplate is invalid; no group could be reconciled"
      else if is_empty i.failed_groups
      then found true_status "AllGroupsReconciled" "All groups reconciled"
      else if not (is_empty i.not_owned_groups)
      then found false_status "WorkloadNotOwned"
          (not_owned_message i.not_owned_groups i.failed_groups)
      else if length i.terminal_groups == length i.failed_groups
      then found false_status "GroupSpecInvalid" (
          concat (
            "Group(s) "
            ∷ join i.terminal_groups
            ∷ " have spec errors that require a change to resolve"
            ∷ []))
      else found false_status "GroupReconcileFailed"
          (concat ("Failed to reconcile group(s): " ∷ join i.failed_groups ∷ []))

  abbrev pub verdict : ConditionStatus → String → String → Finding
  verdict status reason message = found status reason (truncate message 60)

  unfoldable pub summary_ready : ℕ → ℕ → ℕ → List String → List String → List String → Finding
  unfolding format_group_names_budgeted truncate
  summary_ready ready desired unplaced failed terminal stalled =
      if desired == 0
      then verdict true_status "ScaledToZero" "Scaled to zero"
      else if not (is_empty terminal)
      then verdict false_status "GroupSpecInvalid"
          (concat ("Group spec invalid: " ∷ format_group_names_budgeted terminal ∷ []))
      else if not (is_empty failed)
      then verdict false_status "GroupReconcileFailed"
          (concat ("Group reconcile failed: " ∷ format_group_names_budgeted failed ∷ []))
      else if ltb 0 unplaced
      then verdict false_status "CeilingsBelowDesired"
          (of_desired unplaced desired " unplaced by group ceilings")
      else if ready == 0
      then verdict false_status "NoReplicasAvailable"
          (concat ("0/" ∷ decimal desired ∷ " ready" ∷ []))
      else if not (is_empty stalled)
      then verdict false_status "ProgressDeadlineExceeded"
          (concat ("Stalled: " ∷ format_group_names_budgeted stalled ∷ []))
      else if ltb ready desired
      then verdict false_status "ReplicasUpdating" (of_desired ready desired " ready")
      else verdict true_status "PoolReady" (of_desired ready desired " ready")

  -- `set` is `meta.SetStatusCondition`.
  module _ (set : Condition → List Condition → List Condition) where
    unfoldable pub halted_conditions : PodPoolStatus → String → String → PodPoolStatus
    halted_conditions status reason message =
        let halt = found false_status reason message in
        record status {
          conditions =
              set (condition "Ready" status.observed_generation halt)
                (set (condition "Progressing" status.observed_generation halt) status.conditions);
        }

    abbrev pub published : ℕ → ConditionInputs → List Condition → List Condition
    published generation i conditions =
        set
          (condition "Ready" generation (
            summary_ready i.ready i.desired i.unplaced i.failed_groups i.terminal_groups
              i.stalled_groups))
          (set (condition "GroupsReady" generation (groups_ready i)) (
            set (condition "TargetDegraded" generation (degraded i)) (
              set (condition "Progressing" generation (progressing i))
                (set (condition "Available" generation (available i)) conditions))))

    -- No type of condition has been retired, so there is none to remove first.
    unfoldable pub publish : ℕ → PodPoolStatus → ConditionInputs → PodPoolStatus
    unfolding halted_conditions
    publish generation status i =
        if i.paused
        then halted_conditions status "Paused" "Reconciliation paused"
        else if i.watch_failed
        then halted_conditions status "WatchSetupFailed"
            "No watch could be established for the workload type"
        else record status {
          observed_generation = generation;
          conditions = published generation i status.conditions;
        }

    unfoldable pub set_conditions : PodPool → ConditionInputs → PodPool
    unfolding publish
    set_conditions pool i = record pool { status = publish pool.generation pool.status i }
