-- ===== src/Monitor/Detection.antt =====
-- `detectVMOrphans` of internal/monitor/monitor.go.
use text.Mathlib.Text.{starts_with}
use dcm_kcli_provider.Prelude.{
  ◌+◌, String, Bool, true, not, ◌&&◌, Option, none, some, List, [], ◌∷◌, if◌then◌else◌,
}
use dcm_kcli_provider.Prelude.Dict.{Dict, insert, remove, contains}
use dcm_kcli_provider.Store.Entry.{ResourceEntry}
use dcm_kcli_provider.Kweb.Api.{VmInfo}
use dcm_kcli_provider.Monitor.State.{Monitor}

-- knownNames
unfoldable pub known_names : List ResourceEntry → Dict Bool
known_names [] = []
known_names (entry ∷ entries) = insert entry.kcli_name true (known_names entries)

-- A VM of the provider's whose name the store does not know.
unfoldable pub is_orphan : Dict Bool → VmInfo → Bool
is_orphan known vm = starts_with vm.name "dcm-" && not (contains vm.name known)

-- the names that the loop has put into `currentOrphans`
unfoldable pub current_orphans : Dict Bool → List VmInfo → Dict Bool
current_orphans known [] = []
current_orphans known (vm ∷ vms) =
    let rest = current_orphans known vms in
    if is_orphan known vm then insert vm.name true rest else rest

-- for name := range m.seenOrphans { if !currentOrphans[name] { delete(…) } }
unfoldable pub forget_orphans : Dict Bool → Dict Bool → Dict Bool → Dict Bool
forget_orphans current [] seen = seen
forget_orphans current ((name, _) ∷ names) seen =
    forget_orphans current names (if contains name current then seen else remove name seen)

module _ {S K : Type 0} where
  -- `if !m.seenOrphans[vm.Name] { … }`
  unfoldable pub note_orphan : String → Monitor S K → Monitor S K
  note_orphan name m = if contains name m.seen_orphans then m else record m {
    seen_orphans = insert name true m.seen_orphans;
    orphan_counter = m.orphan_counter + 1;
  }

  unfoldable pub orphan_loop : Dict Bool → List VmInfo → Monitor S K → Monitor S K
  unfolding note_orphan
  orphan_loop known [] m = m
  orphan_loop known (vm ∷ vms) m =
      orphan_loop known vms (if is_orphan known vm then note_orphan vm.name m else m)

  unfoldable pub detect_vm_orphans :
      Option (List VmInfo) → List ResourceEntry → Monitor S K → Monitor S K
  unfolding orphan_loop current_orphans forget_orphans
  detect_vm_orphans none store_vms m = m
  detect_vm_orphans (some vms) store_vms m =
      let known = known_names store_vms in
      let noted = orphan_loop known vms m in
      record noted {
        seen_orphans =
            forget_orphans (current_orphans known vms) noted.seen_orphans noted.seen_orphans;
      }
