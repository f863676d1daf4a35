-- ===== src/Controller/Reasons/Laws.antt =====
-- internal/controller/podpool_controller.go: when a row of the status says that its group is ready.
use podpool_controller.Prelude.{
  true, false, not, ◌&&◌, List, String, str_eq, ◌≡◌, refl, inl, inr, Bool-cases, leb, ltb, ◌==◌,
  any, at, arith,
}
use podpool_controller.Api.{GroupStatus}
use podpool_controller.Workload.Object.{ObjectApi}
use podpool_controller.Controller.Group.{Kube}
use podpool_controller.Controller.Reasons.{Children, is_current, assign_reason}

module _ (api : ObjectApi) (kube : Kube) (stalled : List String) (children : Children) where
  -- The row that the assignment leaves, as one statement about a row that had no reason yet.
  abbrev pub IsJudged : GroupStatus → GroupStatus → Type 0
  IsJudged gs row =
      (row.ready ≡ (
        not (any {A = String} (str_eq gs.name) stalled)
        && (is_current api kube (at str_eq gs.name children)
            && leb gs.target_replicas gs.ready_replicas)))
      × (str_eq row.reason "" ≡ false)
      × (row.name ≡ gs.name)
      × (row.replicas ≡ gs.replicas)
      × (row.ready_replicas ≡ gs.ready_replicas)
      × (row.updated_replicas ≡ gs.updated_replicas)
      × (row.target_replicas ≡ gs.target_replicas)
      × (row.share_percent ≡ gs.share_percent)
      × (row.last_progress_time ≡ gs.last_progress_time)
      × (row.workload_ref ≡ gs.workload_ref)

  -- A group that was reconciled counts as ready just when it is not stalled, its child has acted on its
  -- current spec, as far as was read, and no replica of the target is missing; its row then has a
  -- reason, and all else of it but the message is left alone: the name, the four counts, the share, the
  -- time of its progress and the reference to the child.
  pub assign_reason-IsJudged :
      (gs : GroupStatus)
      → str_eq gs.reason "" ≡ true
      → IsJudged gs (assign_reason api kube stalled children gs)
  unfolding assign_reason
  assign_reason-IsJudged gs fresh = elim (Bool-cases (any {A = String} (str_eq gs.name) stalled)) [
    | inl late ↦ rw (fresh, late) (refl, refl, refl, refl, refl, refl, refl, refl, refl, refl)
    | inr timely ↦ elim (Bool-cases (is_current api kube (at str_eq gs.name children))) [
      | inr stale ↦
          rw (fresh, timely, stale) (refl, refl, refl, refl, refl, refl, refl, refl, refl, refl)
      | inl now ↦ elim (Bool-cases (ltb gs.ready_replicas gs.target_replicas)) [
        | inl short ↦
            let missing : leb gs.target_replicas gs.ready_replicas ≡ false = ground arith in
            rw (fresh, timely, now, short, missing)
              (refl, refl, refl, refl, refl, refl, refl, refl, refl, refl)
        | inr full ↦
            let met : leb gs.target_replicas gs.ready_replicas ≡ true = ground arith in
            elim (Bool-cases (gs.target_replicas == 0)) [
              | inl zero_target ↦
                  rw (fresh, timely, now, full, met, zero_target)
                    (refl, refl, refl, refl, refl, refl, refl, refl, refl, refl)
              | inr some_target ↦
                  rw (fresh, timely, now, full, met, some_target)
                    (refl, refl, refl, refl, refl, refl, refl, refl, refl, refl)
            ]
      ]
    ]
  ]
