-- ===== src/Controller/Sweep.antt =====
-- internal/controller/podpool_controller.go and errors.go: the deletion of children that the spec no
-- longer asks for. What the cluster answers is a parameter; what the sweep asks of it is a log.
pub mod SecondLook
pub mod Warrant
use podpool_controller.Prelude.{
  Bool, true, false, not, ◌&&◌, ◌||◌, Option, none, some, List, [], ◌∷◌, ◌++◌, String, str_eq,
  if◌then◌else◌, any, concat,
}
use podpool_controller.Api.{GroupSpec, GroupStatus, WorkloadReference, PodPool}
use podpool_controller.Workload.Object.{Gvk}
use podpool_controller.Workload.Render.{child_name}

-- What the sweep reads of a workload; `controller_uid` is the UID of its controlling owner.
pub record Child : Type 0 where
  pub name : String
  pub uid : String
  pub group_label : String
  pub controller_uid : Option String

pub data ListAnswer : Type 0 where
  unlisted : String → ListAnswer
  listed : List Child → ListAnswer

pub data ReadAnswer : Type 0 where
  not_found : ReadAnswer
  unread : String → ReadAnswer
  read : Child → ReadAnswer

-- A deletion that finds nothing under that name and UID is `moved`.
pub data DeleteAnswer : Type 0 where
  deleted moved : DeleteAnswer
  undeleted : String → DeleteAnswer

-- A list by the pool's labels in its namespace, from the cache or from the API server; an uncached
-- read of a name; and a deletion under a UID as its precondition.
pub record Cluster : Type 0 where
  pub list_cached : Gvk → ListAnswer
  pub list_uncached : Gvk → ListAnswer
  pub get : Gvk → String → ReadAnswer
  pub delete : Gvk → String → String → DeleteAnswer
  pub parse_group_version : String → Option (String × String)

-- A deletion is asked for by kind, name and UID; an event is published with a message.
pub data Action : Type 0 where
  asked_delete : Gvk → String → String → Action
  orphan_deleted : Gvk → String → String → Action

abbrev owned_by : String → Option String → Bool
owned_by uid none = false
owned_by uid (some owner) = str_eq owner uid

unfoldable pub is_controlled_by : Child → PodPool → Bool
is_controlled_by object pool =
    if str_eq pool.uid "" then false else owned_by pool.uid object.controller_uid

abbrev pub same_kind : Gvk → Gvk → Bool
same_kind a b = str_eq a.group b.group && str_eq a.version b.version && str_eq a.kind b.kind

abbrev pub recorded : (String → Option (String × String)) → Option WorkloadReference → Option Gvk
recorded parse none = none
recorded parse (some ref) = elim (parse ref.api_version) [
  | none ↦ none
  | some gv ↦ some record { group = gv.0; version = gv.1; kind = ref.kind }
]

abbrev pub add_stale : Gvk → List Gvk → Option Gvk → Option Gvk
add_stale current seen none = none
add_stale current seen (some stale) =
    if same_kind stale current || any {A = Gvk} (same_kind stale) seen then none else some stale

-- The kinds that the previous status records, other than the current one, each once.
unfoldable pub stale_from :
    (String → Option (String × String)) → Gvk → List Gvk → List GroupStatus → List Gvk
stale_from parse current seen [] = []
stale_from parse current seen (gs ∷ rest) =
    elim (add_stale current seen (recorded parse gs.workload_ref)) [
      | none ↦ stale_from parse current seen rest
      | some stale ↦ stale ∷ stale_from parse current (stale ∷ seen) rest
    ]

unfoldable pub stale_workload_gvks :
    (String → Option (String × String)) → List GroupStatus → Gvk → List Gvk
unfolding stale_from
stale_workload_gvks parse before current = stale_from parse current [] before

-- What the second look at a candidate finds: a failure, nothing to delete, or the object.
pub data Confirmed : Type 0 where
  unconfirmed : String → Confirmed
  left_alone : Confirmed
  orphan : Child → Confirmed

module _ (cluster : Cluster) (pool : PodPool) (gvk : Gvk) (keep : String → Bool) where
  abbrev pub reconsider : ReadAnswer → Confirmed
  reconsider not_found = left_alone
  reconsider (unread e) = unconfirmed e
  reconsider (read fresh) =
      if not (is_controlled_by fresh pool) || keep fresh.name then left_alone else orphan fresh

  unfoldable pub confirm_orphan : Child → Confirmed
  confirm_orphan item = reconsider (cluster.get gvk item.name)

  abbrev after : List Action → List Action × Option String → List Action × Option String
  after actions (log, err) = (actions ++ log, err)

  abbrev pub reported :
      Child → Child → DeleteAnswer → List Action × Option String → List Action × Option String
  reported item fresh deleted rest =
      after
        (asked_delete gvk item.name fresh.uid ∷ orphan_deleted gvk item.name fresh.group_label ∷ [])
        rest
  reported item fresh moved rest = after (asked_delete gvk item.name fresh.uid ∷ []) rest
  reported item fresh (undeleted e) rest = (asked_delete gvk item.name fresh.uid ∷ [], some e)

  abbrev pub removed : Child → Confirmed → List Action × Option String → List Action × Option String
  removed item (unconfirmed e) rest = ([], some e)
  removed item left_alone rest = rest
  removed item (orphan fresh) rest =
      reported item fresh (cluster.delete gvk item.name fresh.uid) rest

  -- The loop over what was listed: the log, and the error that ended it.
  unfoldable pub sweep_items : List Child → List Action × Option String
  unfolding confirm_orphan is_controlled_by
  sweep_items [] = ([], none)
  sweep_items (item ∷ items) =
      let rest = sweep_items items in
      if not (is_controlled_by item pool)
      then rest
      else if keep item.name
      then rest
      else removed item (confirm_orphan item) rest

  unfoldable pub sweep_orphans : ListAnswer → List Action × Option String
  unfolding sweep_items
  sweep_orphans (unlisted e) = ([], some e)
  sweep_orphans (listed items) = sweep_items items

abbrev pub is_child_of : PodPool → List String → String → Bool
is_child_of pool groups name = any {A = String} (λ g. str_eq (child_name pool.name g) name) groups

abbrev pub group_names : List GroupSpec → List String
group_names [] = []
group_names (g ∷ gs) = g.name ∷ group_names gs

abbrev error_text : String → Option String → List String
error_text what none = []
error_text what (some e) = concat (what ∷ ": " ∷ e ∷ []) ∷ []

-- The children that the spec asks for, and of a stale kind those whose group has not been moved yet.
abbrev pub keep_active : PodPool → String → Bool
keep_active pool name = is_child_of pool (group_names pool.spec.groups) name

abbrev pub keep_unmoved : PodPool → List String → String → Bool
keep_unmoved pool reconciled name = keep_active pool name && not (is_child_of pool reconciled name)

unfoldable pub sweep_stale : Cluster → PodPool → List String → List Gvk → List Action × List String
unfolding sweep_orphans
sweep_stale cluster pool reconciled [] = ([], [])
sweep_stale cluster pool reconciled (stale ∷ rest) =
    let here =
      sweep_orphans cluster pool stale (keep_unmoved pool reconciled)
        (cluster.list_uncached stale) in
    let more = sweep_stale cluster pool reconciled rest in
    (
      here.0 ++ more.0,
      error_text (concat ("deleting stale " ∷ stale.kind ∷ " orphans" ∷ [])) here.1 ++ more.1,
    )

-- `reconciled` are the groups that this pass reconciled.
unfoldable pub sweep_all_orphans :
    Cluster → List GroupStatus → PodPool → Gvk → List String → List Action × List String
unfolding sweep_orphans sweep_stale stale_workload_gvks
sweep_all_orphans cluster before pool gvk reconciled =
    let here = sweep_orphans cluster pool gvk (keep_active pool) (cluster.list_cached gvk) in
    let stale =
      sweep_stale cluster pool reconciled
        (stale_workload_gvks cluster.parse_group_version before gvk) in
    (here.0 ++ stale.0, error_text "deleting orphaned workloads" here.1 ++ stale.1)
