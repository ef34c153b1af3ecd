-- ===== src/Api/Types.antt =====
-- The resources of the API, as internal/api/server/server.gen.go declares them (a pointer field is an
-- `Option`, and a nil map an empty one; labels and disks, which no handler reads, are left out), and the
-- problem responses of internal/api/server/impl.go.
use dcm_kcli_provider.Prelude.{ℕ, String, Option, some, eqb, if◌then◌else◌, List}
use dcm_kcli_provider.Prelude.Dict.{Dict}
use dcm_kcli_provider.Kweb.Api.{Value}

pub record Access : Type 0 where
  pub ssh_public_key : Option String

pub record ServiceMetadata : Type 0 where
  pub name : String

pub record GuestOs : Type 0 where
  pub kind : String

pub record Memory : Type 0 where
  pub size : String

pub record Vcpu : Type 0 where
  pub count : Option ℕ

abbrev pub ProviderHints : Type 0
ProviderHints = Dict Value

pub record VmSpec : Type 0 where
  pub access : Option Access
  pub guest_os : Option GuestOs
  pub memory : Option Memory
  pub metadata : Option ServiceMetadata
  pub provider_hints : Option ProviderHints
  pub service_type : String
  pub vcpu : Option Vcpu
  pub additional_properties : Dict Value

pub record Vm : Type 0 where
  pub id : Option String
  pub ip : Option String
  pub path : Option String
  pub spec : VmSpec
  pub ssh_user : Option String
  pub status : Option String

pub record ControlPlaneNodes : Type 0 where
  pub count : Option ℕ

pub record WorkerNodes : Type 0 where
  pub count : Option ℕ

pub record Nodes : Type 0 where
  pub control_plane : Option ControlPlaneNodes
  pub workers : Option WorkerNodes

pub record ClusterSpec : Type 0 where
  pub metadata : Option ServiceMetadata
  pub nodes : Option Nodes
  pub provider_hints : Option ProviderHints
  pub service_type : String
  pub version : Option String
  pub additional_properties : Dict Value

pub record Cluster : Type 0 where
  pub api_endpoint : Option String
  pub id : Option String
  pub kubeconfig : Option String
  pub path : Option String
  pub spec : ClusterSpec
  pub status : Option String

-- `Error` of the API: an RFC 7807 problem, whose `instance` no handler sets.
pub record Problem : Type 0 where
  pub detail : Option String
  pub status : Option ℕ
  pub title : String
  pub kind : String

unfoldable pub status_text : ℕ → String
status_text code =
    if eqb code 400
    then "Bad Request"
    else if eqb code 404
    then "Not Found"
    else if eqb code 409
    then "Conflict"
    else if eqb code 500
    then "Internal Server Error"
    else if eqb code 502
    then "Bad Gateway"
    else "Error"

unfoldable pub problem_error : ℕ → String → Problem
unfolding status_text
problem_error status detail = record {
  detail = some detail;
  status = some status;
  title = status_text status;
  kind = "about:blank";
}

pub record ListParams : Type 0 where
  pub max_page_size : Option ℕ
  pub page_token : Option String

-- A response: a resource with its HTTP status, 204, or a problem with its status.
pub data Response (A : Type 0) : Type 0 where
  resource : ℕ → A → Response A
  no_content : Response A
  problem : ℕ → Problem → Response A

abbrev pub http_status : {A : Type 0} → Response A → ℕ
http_status (resource status _) = status
http_status no_content = 204
http_status (problem status _) = status

unfoldable pub problem_response : {A : Type 0} → ℕ → String → Response A
unfolding problem_error
problem_response status detail = problem status (problem_error status detail)

-- A page of a list.
pub record Page (A : Type 0) : Type 0 where
  pub next_page_token : Option String
  pub results : List A
