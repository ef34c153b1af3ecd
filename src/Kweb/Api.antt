-- ===== src/Kweb/Api.antt =====
-- The data and the errors of internal/kweb/client.go, and the calls that the monitor and the handlers
-- make of it (internal/api/server/impl.go, internal/monitor/interfaces.go).
use dcm_kcli_provider.Prelude.{ℕ, String, Bool, Option, List}
use dcm_kcli_provider.Prelude.Result.{Result}
use dcm_kcli_provider.Prelude.Dict.{Dict}

-- `ErrKwebUnreachable`, `ErrConflict`, `ErrNotFound`, `*KwebError`, and any other error by its text.
pub data KwebError : Type 0 where
  unreachable conflict not_found : KwebError
  http_error : ℕ → String → KwebError
  other_error : String → KwebError

pub record VmInfo : Type 0 where
  pub name : String
  pub status : String
  pub ip : String
  pub id : String
  pub num_cpus : ℕ
  pub memory : ℕ
  pub profile : String
  pub plan : String
  pub kube : String
  pub kube_type : String
  pub creation_date : String
  pub user : String

pub record ClusterInfo : Type 0 where
  pub name : String
  pub status : String
  pub version : String
  pub cluster_type : String
  pub plan : String
  pub vms : String
  pub nodes : List (List String)

-- The values that the program puts into a `map[string]interface{}` of parameters, or finds in one: a
-- `number` is a count that it puts there itself, and a `float`, by its 64 bits, is what encoding/json
-- makes of a number.
mutual
  pub data Value : Type 0 where
    str : String → Value
    number : ℕ → Value
    float : ℕ → Value
    boolean : Bool → Value
    null : Value
    array : Values → Value
    object : Fields → Value

  pub data Values : Type 0 where
    nil : Values
    cons : Value → Values → Values

  pub data Fields : Type 0 where
    end : Fields
    field : String → Value → Fields → Fields

abbrev pub Params : Type 0
Params = Dict Value

-- `KwebClient`, each call with what kweb and the client keep, of type `K`, passed on. The VM list
-- may be a nil slice, `none`, which the monitor tells from an empty one.
pub record KwebClient (K : Type 0) : Type 0 where
  pub create_vm : String → String → Params → K → Result KwebError (Unit {0}) × K
  pub list_vms : K → Result KwebError (Option (List VmInfo)) × K
  pub get_vm : String → K → Result KwebError VmInfo × K
  pub delete_vm : String → K → Result KwebError (Unit {0}) × K
  pub list_profiles : K → Result KwebError (List String) × K
  pub create_cluster : String → String → Params → K → Result KwebError (Unit {0}) × K
  pub list_clusters : K → Result KwebError (List ClusterInfo) × K
  pub get_cluster : String → K → Result KwebError ClusterInfo × K
  pub get_cluster_kubeconfig : String → K → Result KwebError String × K
  pub delete_cluster : String → K → Result KwebError (Unit {0}) × K
  pub check_health : K → Result KwebError Bool × K
