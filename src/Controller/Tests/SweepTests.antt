-- ===== src/Controller/Tests/SweepTests.antt =====
-- Runs of the sweep and its theorem at a concrete cluster.
use podpool_controller.Prelude.{◌≡◌, refl, some, [], ◌∷◌, String, str_eq, if◌then◌else◌, All}
use podpool_controller.Workload.Object.{Gvk}
use podpool_controller.Workload.Tests.RenderTests.{web_pool, parse_apps}
use podpool_controller.Controller.Sweep.{
  Child, listed, not_found, read, deleted, Cluster, asked_delete, orphan_deleted, sweep_all_orphans,
}
use podpool_controller.Workload.Render.{child_name}
use podpool_controller.Controller.Sweep.Warrant.{IsWarranted, sweep_all_orphans-AllWarranted}

abbrev pub deployments : Gvk
deployments = record { group = "apps"; version = "v1"; kind = "Deployment" }

abbrev child_of : String → String → String → Child
child_of name uid owner = record {
  name = name;
  uid = uid;
  group_label = "x";
  controller_uid = some owner;
}

-- The cache lists the child of a group, one of a group that is gone, one that has meanwhile been
-- adopted by another owner, and a stranger under the pool's labels.
abbrev pub shop : Cluster
shop = record {
  list_cached = λ g. listed (
      child_of "web-base" "a" "u1"
      ∷ child_of "web-gone" "b" "u1"
      ∷ child_of "web-lent" "c" "u1"
      ∷ child_of "web-alien" "d" "u9"
      ∷ []);
  list_uncached = λ g. listed [];
  get = λ g name.
      if str_eq name "web-gone"
      then read (child_of "web-gone" "b2" "u1")
      else if str_eq name "web-lent"
      then read (child_of "web-lent" "c" "u9")
      else not_found;
  delete = λ g name uid. deleted;
  parse_group_version = parse_apps;
}

shop_log :
    (sweep_all_orphans shop [] web_pool deployments ("base" ∷ [])).0
    ≡ asked_delete deployments "web-gone" "b2" ∷ orphan_deleted deployments "web-gone" "x" ∷ []
unfolding sweep_all_orphans child_name
shop_log = refl

sweep_all_orphans-AllWarranted_example :
    All
      (IsWarranted shop web_pool deployments ("base" ∷ []))
      (sweep_all_orphans shop [] web_pool deployments ("base" ∷ [])).0
sweep_all_orphans-AllWarranted_example =
    sweep_all_orphans-AllWarranted shop [] web_pool deployments ("base" ∷ [])
