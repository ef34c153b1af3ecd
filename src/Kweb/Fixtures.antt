-- ===== src/Kweb/Fixtures.antt =====
-- Two kwebs for the runs on concrete data, whose state is the list of the names that they know.
use dcm_kcli_provider.Prelude.{String, true, false, some, List, [], ◌∷◌, map}
use dcm_kcli_provider.Prelude.Result.{ok, err}
use dcm_kcli_provider.Kweb.Api.{unreachable, VmInfo, ClusterInfo, KwebClient}

-- kweb: the names of its VMs and clusters, all running.
abbrev pub vm_info : String → VmInfo
vm_info name = record {
  name = name;
  status = "up";
  ip = "10.0.0.7";
  id = "";
  num_cpus = 2;
  memory = 512;
  profile = "fedora41";
  plan = "";
  kube = "";
  kube_type = "";
  creation_date = "";
  user = "fedora";
}

abbrev pub cluster_info : String → ClusterInfo
cluster_info name = record {
  name = name;
  status = "";
  version = "1.30";
  cluster_type = "k3s";
  plan = "";
  vms = "";
  nodes = [];
}

-- A kweb that answers every call.
abbrev pub kweb_up : KwebClient (List String)
kweb_up = record {
  create_vm = λ name _ _ k. (ok tt, name ∷ k);
  list_vms = λ k. (ok (some (map vm_info k)), k);
  get_vm = λ name k. (ok (vm_info name), k);
  delete_vm = λ _ k. (ok tt, k);
  list_profiles = λ k. (ok [], k);
  create_cluster = λ name _ _ k. (ok tt, name ∷ k);
  list_clusters = λ k. (ok (map cluster_info k), k);
  get_cluster = λ name k. (ok (cluster_info name), k);
  get_cluster_kubeconfig = λ name k. (ok "current-context: dev", k);
  delete_cluster = λ _ k. (ok tt, k);
  check_health = λ k. (ok true, k);
}

-- A kweb that cannot be reached.
abbrev pub kweb_down : KwebClient (List String)
kweb_down = record {
  create_vm = λ _ _ _ k. (err unreachable, k);
  list_vms = λ k. (err unreachable, k);
  get_vm = λ _ k. (err unreachable, k);
  delete_vm = λ _ k. (err unreachable, k);
  list_profiles = λ k. (err unreachable, k);
  create_cluster = λ _ _ _ k. (err unreachable, k);
  list_clusters = λ k. (err unreachable, k);
  get_cluster = λ _ k. (err unreachable, k);
  get_cluster_kubeconfig = λ _ k. (err unreachable, k);
  delete_cluster = λ _ k. (err unreachable, k);
  check_health = λ k. (ok false, k);
}
