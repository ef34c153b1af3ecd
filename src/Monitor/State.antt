-- ===== src/Monitor/State.antt =====
-- The state of `Monitor` of internal/monitor/monitor.go, its constructor, its accessors, and the maps
-- that a poll builds from kweb's lists.
use dcm_kcli_provider.Events.{Published}
use dcm_kcli_provider.Prelude.{ℕ, String, Bool, false, Option, none, some, List, [], ◌∷◌}
use dcm_kcli_provider.Prelude.Dict.{Dict, insert, contains}
use dcm_kcli_provider.Kweb.Api.{VmInfo, ClusterInfo}
use dcm_kcli_provider.Metrics.{GaugeCall}
use dcm_kcli_provider.Monitor.Publishing.{Debounce}

-- `Config`
pub record Config : Type 0 where
  pub poll_interval : ℕ
  pub debounce_window : ℕ
  pub cluster_create_timeout : ℕ

-- The monitor with the store and the client that it was given. `managed` holds the calls made on the
-- gauge, the newest first; `first_poll_done` says that the channel is closed. `beside` are the
-- events that the publisher has had from requests, the newest first.
pub record Monitor (S K : Type 0) : Type 0 where
  pub store : S
  pub kweb : K
  pub profiles : List String
  pub profile_set : Dict (Unit {0})
  pub debounce : Debounce
  pub orphan_counter : ℕ
  pub seen_orphans : Dict Bool
  pub first_poll_done : Bool
  pub managed : List GaugeCall
  pub beside : List Published

-- `New`, with the calls that have been made on the process's gauge and the readings of the clock for
-- the events to come.
abbrev pub new_monitor : {S K : Type 0} → (ℕ → ℕ) → S → K → List GaugeCall → Monitor S K
new_monitor clock store kweb managed = record {
  store = store;
  kweb = kweb;
  profiles = [];
  profile_set = [];
  debounce = record {
    last_publish = [];
    pending = [];
    published = [];
    status_changes = 0;
    clock = clock;
    taken = [];
  };
  beside = [];
  orphan_counter = 0;
  seen_orphans = [];
  first_poll_done = false;
  managed = managed;
}

-- the copy of the names that `Profiles` gives
abbrev pub profiles_of : {S K : Type 0} → Monitor S K → List String
profiles_of m = m.profiles

abbrev pub orphan_count : {S K : Type 0} → Monitor S K → ℕ
orphan_count m = m.orphan_counter

unfoldable pub has_profile : {S K : Type 0} → String → Monitor S K → Bool
has_profile name m = contains name m.profile_set

-- for _, p := range profiles { pset[p] = struct{}{} }
unfoldable pub profile_set_of : List String → Dict (Unit {0})
profile_set_of [] = []
profile_set_of (p ∷ ps) = insert p tt (profile_set_of ps)

-- Where two VMs share a name the later one stays in the map.
abbrev pub vm_map_from : Dict VmInfo → List VmInfo → Dict VmInfo
vm_map_from acc [] = acc
vm_map_from acc (vm ∷ vms) = vm_map_from (insert vm.name vm acc) vms

unfoldable pub vm_map : List VmInfo → Dict VmInfo
vm_map = vm_map_from []

abbrev pub cluster_map_from : Dict ClusterInfo → List ClusterInfo → Dict ClusterInfo
cluster_map_from acc [] = acc
cluster_map_from acc (cl ∷ cls) = cluster_map_from (insert cl.name cl acc) cls

unfoldable pub cluster_map : List ClusterInfo → Dict ClusterInfo
cluster_map = cluster_map_from []

abbrev pub slice_of : Option (List VmInfo) → List VmInfo
slice_of none = []
slice_of (some vms) = vms
