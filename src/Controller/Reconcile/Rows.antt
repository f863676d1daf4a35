-- ===== src/Controller/Reconcile/Rows.antt =====
-- internal/controller/podpool_controller.go: the rows of the status that a full pass publishes.
use podpool_controller.Prelude.{
  ℕ, ◌≤◌, Bool, Option, List, [], ◌∷◌, map, String, ◌≡◌, refl, sym, ap, ◌∙◌, length, length-map,
  max_int32, Bool-cases, inl, inr, arith,
}
use podpool_controller.Json.{Fields}
use podpool_controller.Api.{Condition, GroupSpec, GroupStatus, PodPool}
use podpool_controller.Workload.Object.{ObjectApi, Gvk}
use podpool_controller.Workload.Distribution.{Rounding, start, distribute, compute_group_targets}
use podpool_controller.Workload.Distribution.Account.{compute_relates}
use podpool_controller.Controller.Probe.{Observations, capacity_from}
use podpool_controller.Controller.Progress.{
  stamp_group_progress, stamp_all_progress, find_group_status, summarise_groups,
}
use podpool_controller.Controller.Conditions.{
  ConditionInputs, halted_conditions, publish, set_conditions,
}
use podpool_controller.Controller.Sweep.{group_names}
use podpool_controller.Controller.Metrics.{status_names}
use podpool_controller.Controller.Group.{Kube}
use podpool_controller.Controller.Reasons.{Children, assign_reason, assign_group_reasons}
use podpool_controller.Controller.Probing.Surplus.{apply_probes-Laid, laid-length}
use podpool_controller.Controller.Loop.{Collected, nothing_collected}
use podpool_controller.Controller.Loop.Accounts.{reconcile_groups-names}
use podpool_controller.Controller.Reconcile.{Libraries, Answers, Memory}
use podpool_controller.Controller.Reconcile.Body.{final_rows, filled, inputs_of}
use podpool_controller.Controller.Reconcile.Run.{placed, probed, looped, full_exit}

stamp_group_progress-name :
    (gs : GroupStatus) (prev : Option GroupStatus) (changed : Bool) (now : ℕ)
    → (stamp_group_progress gs prev changed now).name ≡ gs.name
unfolding stamp_group_progress
stamp_group_progress-name gs prev changed now = ground arith

same_cons : {a b : String} {s t : List String} → a ≡ b → s ≡ t → a ∷ s ≡ b ∷ t
same_cons e es = rw (e, es) refl

map-names :
    (f : GroupStatus → GroupStatus)
    → ((gs : GroupStatus) → (f gs).name ≡ gs.name)
    → (rows : List GroupStatus) → status_names (map f rows) ≡ status_names rows
map-names f keeps [] = refl
map-names f keeps (gs ∷ rows) = same_cons (keeps gs) (map-names f keeps rows)

stamped-names :
    (before : List GroupStatus) (generation_before : ℕ) (reconciled : String → Bool)
    (generation now : ℕ) (rows : List GroupStatus)
    → status_names (stamp_all_progress before generation_before reconciled generation now rows)
      ≡ status_names rows
unfolding stamp_all_progress
stamped-names before generation_before reconciled generation now [] = refl
stamped-names before generation_before reconciled generation now (gs ∷ rows) =
    let rest = stamped-names before generation_before reconciled generation now rows in
    elim (Bool-cases (reconciled gs.name)) [
      | inl stamped ↦
          rw (stamped)
            (same_cons (stamp_group_progress-name gs (find_group_status before gs.name) _ now) rest)
      | inr left_out ↦ rw (left_out) (same_cons refl rest)
    ]

assign_reason-name :
    (api : ObjectApi) (kube : Kube) (stalled : List String) (children : Children) (gs : GroupStatus)
    → (assign_reason api kube stalled children gs).name ≡ gs.name
unfolding assign_reason
assign_reason-name api kube stalled children gs = ground arith

summarised-names :
    (rounds_down : ℕ → ℕ → Bool) (rows : List GroupStatus)
    → status_names (summarise_groups rounds_down rows).0 ≡ status_names rows
unfolding summarise_groups
summarised-names rounds_down rows = map-names _ (λ gs. refl) rows

targets-length :
    (f : Rounding) (observed : String → Option ℕ) (total : ℕ) (gs : List GroupSpec)
    → total ≤ max_int32
    → length (compute_group_targets f total gs observed).targets ≡ length gs
targets-length f observed total gs h =
    compute_relates f observed total (λ groups targets. length targets ≡ length groups) gs h refl
      (λ z. length-map (λ s. s.target) (start gs) ∙ length-map _ gs)
      (length-map (λ s. s.target) (distribute observed total gs).0
        ∙ sym (length-map (λ s. s.group) (distribute observed total gs).0))

assigned-names :
    (api : ObjectApi) (kube : Kube) (stalled : List String) (children : Children)
    (rows : List GroupStatus)
    → status_names (assign_group_reasons api kube stalled children rows) ≡ status_names rows
unfolding assign_group_reasons
assigned-names api kube stalled children [] = refl
assigned-names api kube stalled children (gs ∷ rows) =
    same_cons (assign_reason-name api kube stalled children gs)
      (assigned-names api kube stalled children rows)

pub set_conditions-groups :
    (decimal : ℕ → String) (set : Condition → List Condition → List Condition) (pool : PodPool)
    (i : ConditionInputs)
    → (set_conditions decimal set pool i).status.groups ≡ pool.status.groups
unfolding set_conditions publish halted_conditions
set_conditions-groups decimal set pool i = ground arith

module _ (libs : Libraries) (ans : Answers) (mem : Memory) (before pool : PodPool) where
  final_rows-names :
      (c : Collected) → status_names (final_rows libs ans before pool c).1 ≡ status_names c.rows
  unfolding final_rows
  final_rows-names c =
      summarised-names libs.rounds_down _
      ∙ (assigned-names libs.api libs.kube _ c.children _ ∙ stamped-names _ _ _ _ _ c.rows)

  looped-names :
      (gvk : Gvk) (template : Fields) (observed : Observations)
      → pool.spec.replicas ≤ max_int32
      → status_names (looped libs ans mem before pool gvk template observed).rows
        ≡ group_names pool.spec.groups
  unfolding looped probed placed
  looped-names gvk template observed h =
      reconcile_groups-names libs.api libs.kube ans.applying pool before.status.groups template gvk
        pool.spec.groups (probed libs ans mem pool observed).targets
        (nothing_collected mem.out_of_range mem.proven)
        (laid-length (
          apply_probes-Laid pool pool.spec.groups (placed libs ans mem pool observed).targets
            observed ans.now mem.probes
            (targets-length libs.rounding (capacity_from pool observed mem.probes)
              pool.spec.replicas pool.spec.groups h)))

  -- No group is lost from the status: whatever failed, a full pass publishes one row for each group of
  -- the spec, in the order of the spec, for a pool whose replicas an int32 holds.
  pub full_exit-names :
      (was_paused : Bool) (gvk : Gvk) (template : Fields) (observed : Observations)
      → pool.spec.replicas ≤ max_int32
      → status_names
          (full_exit libs ans mem before pool was_paused gvk template observed).pool.status.groups
        ≡ group_names pool.spec.groups
  unfolding full_exit
  full_exit-names was_paused gvk template observed h =
      let c = looped libs ans mem before pool gvk template observed in
      let result = placed libs ans mem pool observed in
      let (stalled, rows, totals) = final_rows libs ans before pool c in
      let counted = filled libs ans pool result rows totals in
      ap status_names (
        set_conditions-groups libs.decimal libs.set_condition counted
          (inputs_of libs ans counted result c stalled))
      ∙ (final_rows-names c ∙ looped-names gvk template observed h)
