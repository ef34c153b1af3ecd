-- ===== src/Api/Helpers.antt =====
-- internal/api/server/helpers.go, and the functions of vm_handlers.go and cluster_handlers.go that
-- read a specification. A fresh UUID is an argument. Native texts are UTF-8: `slice` cuts between
-- bytes where Go does, except that it leaves a character out which Go would cut in two.
use Prim.Native.String.{len, slice}
use text.Mathlib.Text.{starts_with}
use dcm_kcli_provider.Prelude.{
  ℕ, ◌*◌, ◌%◌, String, Bool, true, false, not, Option, none, some, List, [], ◌∷◌, ◌==◌, ◌<>◌, ltb,
  if◌then◌else◌,
}
use dcm_kcli_provider.Prelude.Dict.{lookup, insert, contains}
use dcm_kcli_provider.Kweb.Api.{Value, str, object, Fields, end, field, Params}
use dcm_kcli_provider.Store.Entry.{ResourceEntry}
use dcm_kcli_provider.Text.{int_mod, codes, atoi, trim_space, strip_suffix}
use dcm_kcli_provider.Api.Types.{ServiceMetadata, ProviderHints, VmSpec, Vm, ClusterSpec, Cluster}

abbrev pub dcm_prefix : String
dcm_prefix = "dcm-"

-- p != nil && *p != ""
abbrev pub given : Option String → Option String
given none = none
given (some s) = if s == "" then none else some s

unfoldable pub resolve_id : Option String → String → String
resolve_id client_id uuid = elim (given client_id) [ none ↦ uuid | some id ↦ id ]

-- strings.TrimPrefix(s, dcmPrefix)
unfoldable pub trim_dcm_prefix : String → String
trim_dcm_prefix s = if starts_with s dcm_prefix then slice s (len dcm_prefix) (len s) else s

unfoldable pub slice_contains : List String → String → Bool
slice_contains [] s = false
slice_contains (v ∷ ss) s = let rest = slice_contains ss s in if v == s then true else rest

-- The map's keys; all its values are true.
abbrev pub allowed_kcli_hint_keys : List String
allowed_kcli_hint_keys =
    "image" ∷ "network" ∷ "pool" ∷ "numcpus" ∷ "memory" ∷ "disks" ∷ "nets" ∷ "dns" ∷ "domain"
    ∷ "reservedns" ∷ "reservehost" ∷ "start" ∷ "keys" ∷ "iso" ∷ "cloudinit" ∷ "autostart" ∷ "flavor"
    ∷ "storemetadata" ∷ "sharedfolders" ∷ "kernel" ∷ "initrd" ∷ "cmdline" ∷ "placement"
    ∷ "yamlinventory" ∷ "cpuhotplug" ∷ "memoryhotplug" ∷ "numa" ∷ "pcidevices" ∷ "tpm" ∷ "rng"
    ∷ "zerotier_net" ∷ "virttype" ∷ "tags" ∷ "ctlplanes" ∷ "workers" ∷ "version" ∷ "sdn"
    ∷ "network_type" ∷ "api_ip" ∷ []

-- the body of the loop of `mergeKcliHints`
unfoldable pub merge_hint : List String → String → Value → Params → Params
merge_hint exclude_keys k v params =
    if slice_contains exclude_keys k
    then params
    else if not (slice_contains allowed_kcli_hint_keys k)
    then params
    else if contains k params
    then params
    else insert k v params

unfoldable pub merge_loop : List String → Fields → Params → Params
unfolding merge_hint
merge_loop exclude_keys end params = params
merge_loop exclude_keys (field k v hints) params =
    merge_loop exclude_keys hints (merge_hint exclude_keys k v params)

-- hints["kcli"].(map[string]interface{})
abbrev as_object : Option Value → Option Fields
as_object (some (object m)) = some m
as_object _ = none

unfoldable pub kcli_hints : Option ProviderHints → Option Fields
kcli_hints none = none
kcli_hints (some hints) = as_object (lookup "kcli" hints)

unfoldable pub merge_kcli_hints : Option ProviderHints → List String → Params → Params
unfolding kcli_hints merge_loop
merge_kcli_hints hints exclude_keys params = elim (kcli_hints hints) [
  | none ↦ params
  | some m ↦ merge_loop exclude_keys m params
]

-- m[k].(string), where it is not empty
unfoldable pub text_field : String → Fields → Option String
text_field k end = none
text_field k (field j (str s) m) =
    let rest = text_field k m in if j == k then given (some s) else rest
text_field k (field j v m) = let rest = text_field k m in if j == k then none else rest

hint_text : String → Option ProviderHints → Option String
hint_text k hints = elim (kcli_hints hints) [ none ↦ none | some m ↦ text_field k m ]

-- a size in MB, where the text has a unit and a number; the product wraps as an `int` does
scaled : ℕ → Option (List ℕ) → Option (Option ℕ)
scaled factor none = none
scaled factor (some digits) =
    some (elim (atoi digits) [ none ↦ none | some v ↦ some (v * factor % int_mod) ])

-- `none` for every error of the source
unfoldable pub parse_memory_size : String → Option ℕ
unfolding scaled
parse_memory_size size =
    let s = trim_space (codes size) in
    elim (scaled (1024 * 1024) (strip_suffix (codes "TB") s)) [
      | some r ↦ r
      | none ↦ elim (scaled 1024 (strip_suffix (codes "GB") s)) [
        | some r ↦ r
        | none ↦ elim (scaled 1 (strip_suffix (codes "MB") s)) [ some r ↦ r | none ↦ none ]
      ]
    ]

unfoldable pub resolve_vm_profile : VmSpec → String
unfolding hint_text
resolve_vm_profile spec = elim (hint_text "profile" spec.provider_hints) [
  | some p ↦ p
  | none ↦ elim spec.guest_os [ some os ↦ os.kind | none ↦ "fedora41" ]
]

unfoldable pub resolve_cluster_type : ClusterSpec → String
unfolding hint_text
resolve_cluster_type spec = elim (hint_text "cluster_type" spec.provider_hints) [
  | some ct ↦ ct
  | none ↦ "generic"
]

-- name[:63]
abbrev pub max_name_len : ℕ
max_name_len = 63

truncated : String → String
truncated name = if ltb max_name_len (len name) then slice name 0 max_name_len else name

metadata_name : Option ServiceMetadata → Option String
metadata_name none = none
metadata_name (some md) = given (some md.name)

-- `resolveVMName` and `resolveClusterName`, which differ in the type of the specification alone
resolve_name : Option ServiceMetadata → Option String → String → String
resolve_name md client_id uuid = elim (metadata_name md) [
  | some name ↦ name
  | none ↦ elim (given client_id) [ some id ↦ truncated id | none ↦ slice uuid 0 8 ]
]

unfoldable pub resolve_vm_name : VmSpec → Option String → String → String
unfolding truncated metadata_name resolve_name
resolve_vm_name spec = resolve_name spec.metadata

unfoldable pub resolve_cluster_name : ClusterSpec → Option String → String → String
unfolding truncated metadata_name resolve_name
resolve_cluster_name spec = resolve_name spec.metadata

unfoldable pub entry_to_vm : ResourceEntry → Vm
entry_to_vm entry = record {
  id = some entry.id;
  ip = none;
  path = some ("vms/" <> entry.id);
  spec = record {
    access = none;
    guest_os = some (record { kind = "" });
    memory = none;
    metadata = some (record { name = trim_dcm_prefix entry.kcli_name });
    provider_hints = none;
    service_type = "vm";
    additional_properties = [];
    vcpu = none;
  };
  ssh_user = none;
  status = some entry.status;
}

unfoldable pub entry_to_cluster : ResourceEntry → Cluster
entry_to_cluster entry = record {
  api_endpoint = none;
  id = some entry.id;
  kubeconfig = none;
  path = some ("clusters/" <> entry.id);
  spec = record {
    metadata = some (record { name = trim_dcm_prefix entry.kcli_name });
    nodes = none;
    provider_hints = none;
    service_type = "cluster";
    version = none;
    additional_properties = [];
  };
  status = some entry.status;
}
