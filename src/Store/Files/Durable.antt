-- ===== src/Store/Files/Durable.antt =====
-- `LoadState` after `SaveState`.
use kubeforward.Base.{◌≡◌, ap, ◌∙◌, inl, inr, String, true, none, some, [], Bool-cases, is_empty}
use kubeforward.Session.{RuntimeState}
use kubeforward.Loader.Load.{parsed}
use kubeforward.Store.Nodes.{Nodes, NodesLaws}
use kubeforward.Store.Serialize.{serialize_state}
use kubeforward.Store.RoundTrip.{parse_state_node-serialize_state}
use kubeforward.Store.Files.{
  Saving, Loading, Disk, StateLoadResult, open_and_lock_state_file, load_contents, load_locked,
  load_state, save_state,
}
use kubeforward.Store.Files.Atomic.{open_and_lock_state_file-Same, save_state-Replaces}

-- No call of a `LoadState` fails.
pub record Works (calls : Loading) : Type 0 where
  pub parent : calls.parent_exists ≡ some true
  pub lock_opens : calls.locking.open_lock ≡ none
  pub locks : calls.locking.flock ≡ none
  pub opens : calls.open_input ≡ true

abbrev pub loaded : RuntimeState → StateLoadResult
loaded state = record { state = state; errors = [] }

module _ (N : Nodes) (parent_path : String → String) (path : String) (calls : Loading)
    (works : Works calls) (disk : Disk N parent_path) where
  locks_well : (open_and_lock_state_file N parent_path calls.locking path disk).0 ≡ none
  unfolding open_and_lock_state_file
  locks_well = rw (works.lock_opens, works.locks, open_and_lock_state_file)

  load_locked_well :
      (load_locked N parent_path calls path disk).0 ≡ load_contents N parent_path (disk path)
  unfolding load_locked
  load_locked_well = rw (
    locks_well,
    works.opens,
    open_and_lock_state_file-Same N parent_path path N.empty_contents calls.locking disk,
    load_locked,
  )

  load_state_well :
      (load_state N parent_path calls path disk).0 ≡ load_contents N parent_path (disk path)
  unfolding load_state
  load_state_well = elim (Bool-cases (is_empty (parent_path path))) [
    | inl p ↦ rw (p, load_state) load_locked_well
    | inr p ↦ rw (p, works.parent, load_state) load_locked_well
  ]

module _ (N : Nodes) (laws : NodesLaws N) (parent_path : String → String) (path : String)
    (state : RuntimeState) where
  yaml_load-serialize_state :
      N.yaml_load (N.write (serialize_state N state)) ≡ parsed (serialize_state N state)
  unfolding serialize_state
  yaml_load-serialize_state = laws.load_back _

  load_contents_back :
      load_contents N parent_path (some (N.write (serialize_state N state))) ≡ loaded state
  unfolding load_contents
  load_contents_back =
      rw (yaml_load-serialize_state, parse_state_node-serialize_state N laws state, load_contents)

  -- Under the laws of the nodes that yaml-cpp builds, writes and loads: after a `SaveState` that
  -- succeeded, a `LoadState` of the same path whose calls all work gives the state that was saved,
  -- and no error.
  pub load_state-save_state :
      (saving : Saving N.Contents) (loading : Loading) (disk : Disk N parent_path)
      → Works loading
      → (save_state N parent_path saving path state disk).error ≡ none
      → (load_state N parent_path loading path
          (save_state N parent_path saving path state disk).disk).0
        ≡ loaded state
  load_state-save_state saving loading disk works success =
      let disk' = (save_state N parent_path saving path state disk).disk in
      elim (save_state-Replaces N parent_path path state saving disk) [
        | inl (_, new, _) ↦
            load_state_well N parent_path path loading works disk'
            ∙ ap (load_contents N parent_path) new
            ∙ load_contents_back
        | inr (error, failure, _) ↦ absurd (cc (success, failure))
      ]
