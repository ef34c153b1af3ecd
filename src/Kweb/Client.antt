-- ===== src/Kweb/Client.antt =====
-- internal/kweb/client.go: the client of kweb. The network, with its rate limiter and its deadlines, is
-- a parameter, and so is what encoding/json and url.PathEscape make of a text; the limit on the size of
-- a response is part of the network. Concurrent health checks do not overlap here.
pub mod Health
pub mod Answers
use dcm_kcli_provider.Prelude.{
  ℕ, String, Bool, true, false, not, ◌&&◌, Option, none, some, List, [], ◌∷◌, ◌==◌, ◌<>◌, map, leb,
  eqb, since_lt, if◌then◌else◌,
}
use dcm_kcli_provider.Prelude.Result.{Result, ok, err}
use dcm_kcli_provider.Prelude.Dict.{Dict, lookup, insert}
use dcm_kcli_provider.Metrics.{KwebRequest, record_kweb}
use dcm_kcli_provider.Kweb.Api.{
  KwebError, unreachable, not_found, other_error, VmInfo, ClusterInfo, Value, str, Params,
  KwebClient,
}
use dcm_kcli_provider.Text.{itoa}
use dcm_kcli_provider.Kweb.Parse.{trimmed, parse_error_body, parse_response}

-- 5 seconds, in nanoseconds
abbrev pub health_cache_ttl : ℕ
health_cache_ttl = 5_000_000_000

-- What is used of net/http and golang.org/x/time/rate. `request` gives the error of a request that
-- cannot be made, `wait` that of the limiter; an exchange that fails is `none`, and the body of an
-- answer may fail to be read.
pub record Network (N : Type 0) : Type 0 where
  pub request : String → Option String
  pub wait : N → Option String × N
  pub exchange : String → String → Option String → N → Option (ℕ × Result String String) × N

pub record KubeInfo : Type 0 where
  pub kind : String
  pub plan : String
  pub vms : String

-- encoding/json at the types that the client reads and writes, and url.PathEscape
pub record Codec : Type 0 where
  pub marshal : Params → Result String String
  pub structured : String → Option (Dict Value)
  pub vm_list : String → Result String (Option (List VmInfo))
  pub vm : String → Result String VmInfo
  pub profile_names : String → Result String (List String)
  pub kubes : String → Result String (Dict String)
  pub kube_info : String → Option KubeInfo
  pub raw_fields : String → Result String (Dict String)
  pub version : String → Option String
  pub nodes : String → Option (List (List String))
  pub escape : String → String

pub record Client (N : Type 0) : Type 0 where
  pub net : N
  pub requests : List KwebRequest
  pub health_cached : Bool
  pub health : Result KwebError Bool
  pub health_checked : ℕ

abbrev body_of : Result String String → Result KwebError String
body_of (ok payload) = ok payload
body_of (err m) = err (other_error m)

-- for k, v := range params { body[k] = v }
pub with_params : Params → Params → Params
with_params [] body = body
with_params ((k, v) ∷ params) body = with_params params (insert k v body)

-- an error of the decoder, with the text that the client puts before it
parsed {ℓ} : {A : Type ℓ} → String → Result String A → Result KwebError A
parsed what (ok a) = ok a
parsed what (err m) = err (other_error ("parsing " <> what <> ": " <> m))

abbrev info_of : Option KubeInfo → KubeInfo
info_of none = record { kind = ""; plan = ""; vms = "" }
info_of (some info) = info

module _ (J : Codec) where
  cluster_of : String × String → ClusterInfo
  cluster_of (name, raw) =
      let info = info_of (J.kube_info raw) in
      record {
        name = name;
        status = "";
        version = "";
        cluster_type = info.kind;
        plan = info.plan;
        vms = info.vms;
        nodes = [];
      }

  abbrev version_of : Option String → String
  version_of none = ""
  version_of (some v) = elim (J.version v) [ none ↦ "" | some version ↦ version ]

  abbrev nodes_of : Option String → List (List String)
  nodes_of none = []
  nodes_of (some n) = elim (J.nodes n) [ none ↦ [] | some nodes ↦ nodes ]

  abbrev status_of : List (List String) → String
  status_of [] = ""
  status_of (_ ∷ _) = "active"

  detailed : String → Dict String → Result KwebError ClusterInfo
  detailed name [] = err not_found
  detailed name (f ∷ fs) =
      let nodes = nodes_of (lookup "nodes" (f ∷ fs)) in
      ok (record {
        name = name;
        status = status_of nodes;
        version = version_of (lookup "version" (f ∷ fs));
        cluster_type = "";
        plan = "";
        vms = "";
        nodes = nodes;
      })

  named_vm : VmInfo → Result KwebError VmInfo
  named_vm vm = if vm.name == "" then err not_found else ok vm

module _ {N : Type 0} (net : Network N) (J : Codec) (base_url : String) where
  -- the exchange of a call, up to the reading of the body
  exchange : String → String → Option String → N → Result KwebError (ℕ × String) × N
  exchange method path body n = elim (net.request (base_url <> path)) [
    | some m ↦ (err (other_error m), n)
    | none ↦
        let (limited, n₁) = net.wait n in
        elim limited [
          | some m ↦ (err (other_error ("rate limiter: " <> m)), n₁)
          | none ↦
              let (answer, n₂) = net.exchange method (base_url <> path) body n₁ in
              elim answer [
                | none ↦ (err unreachable, n₂)
                | some (status, read) ↦ elim (body_of read) [
                  | err e ↦ (err e, n₂)
                  | ok payload ↦ (ok (status, payload), n₂)
                ]
              ]
        ]
  ]

  abbrev pub checked : Result KwebError (ℕ × String) → Result KwebError (Unit {0})
  checked (err e) = err e
  checked (ok (status, payload)) = parse_response J.structured status payload

  abbrev got : Result KwebError (ℕ × String) → Result KwebError String
  got (err e) = err e
  got (ok (status, payload)) =
      if leb 400 status then err (parse_error_body J.structured status payload) else ok payload

  do_post : String → Params → N → Result KwebError (Unit {0}) × N
  unfolding exchange
  do_post path body n = elim (J.marshal body) [
    | err m ↦ (err (other_error m), n)
    | ok text ↦ let (r, n₁) = exchange "POST" path (some text) n in (checked r, n₁)
  ]

  do_get : String → N → Result KwebError String × N
  unfolding exchange
  do_get path n = let (r, n₁) = exchange "GET" path none n in (got r, n₁)

  do_delete : String → N → Result KwebError (Unit {0}) × N
  unfolding exchange
  do_delete path n = let (r, n₁) = exchange "DELETE" path none n in (checked r, n₁)

  -- metrics.RecordKweb(operation, err), beside what the call made of the network
  recorded {ℓ} : {A : Type ℓ} → String → Result KwebError A → N → Client N → Client N
  recorded operation r n c = record c { net = n; requests = record_kweb operation r c.requests }

  post : String → String → Params → Client N → Result KwebError (Unit {0}) × Client N
  unfolding do_post recorded
  post operation path body c = let (r, n) = do_post path body c.net in (r, recorded operation r n c)

  remove_at : String → String → Client N → Result KwebError (Unit {0}) × Client N
  unfolding do_delete recorded
  remove_at operation path c = let (r, n) = do_delete path c.net in (r, recorded operation r n c)

  -- a call of `doGet` and what its caller reads of the payload
  read_at {ℓ} :
      {A : Type ℓ}
      → String
      → String
      → (String → Result KwebError A)
      → Client N
      → Result KwebError A × Client N
  unfolding do_get recorded
  read_at operation path read c =
      let (r, n) = do_get path c.net in
      (elim r [ err e ↦ err e | ok payload ↦ read payload ], recorded operation r n c)

  read_vm : String → Result KwebError VmInfo
  unfolding named_vm parsed
  read_vm payload = elim (parsed "vm info" (J.vm payload)) [ err e ↦ err e | ok vm ↦ named_vm J vm ]

  read_clusters : String → Result KwebError (List ClusterInfo)
  unfolding cluster_of parsed
  read_clusters payload = elim (parsed "cluster list" (J.kubes payload)) [
    | err e ↦ err e
    | ok kubes ↦ ok (map (cluster_of J) kubes)
  ]

  read_cluster : String → String → Result KwebError ClusterInfo
  unfolding detailed parsed
  read_cluster name payload = elim (parsed "cluster info" (J.raw_fields payload)) [
    | err e ↦ err e
    | ok raw ↦ detailed J name raw
  ]

  -- `checkHealthUncached`: its answer, beside the outcome that it counts
  health_exchange : N → (Result KwebError Bool × Result KwebError (Unit {0})) × N
  health_exchange n =
      let (limited, n₁) = net.wait n in
      elim limited [
        | some m ↦ ((err (other_error ("rate limiter: " <> m)), err (other_error m)), n₁)
        | none ↦ elim (net.request (base_url <> "/host")) [
          | some m ↦ ((err (other_error m), err (other_error m)), n₁)
          | none ↦
              let (answer, n₂) = net.exchange "GET" (base_url <> "/host") none n₁ in
              elim answer [
                | none ↦ ((err unreachable, err unreachable), n₂)
                | some (status, _) ↦
                    if eqb status 200
                    then ((ok true, ok tt), n₂)
                    else ((ok false, err (other_error ("HTTP " <> itoa status))), n₂)
              ]
        ]
      ]

  pub check_health_uncached : Client N → Result KwebError Bool × Client N
  unfolding health_exchange recorded
  check_health_uncached c =
      let ((answer, counted), n) = health_exchange c.net in
      (answer, recorded "health_check" counted n c)

  pub check_health : ℕ → Client N → Result KwebError Bool × Client N
  unfolding check_health_uncached
  check_health now c =
      if c.health_cached && since_lt now c.health_checked health_cache_ttl
      then (c.health, c)
      else (let (answer, c₁) = check_health_uncached c in
          (answer, record c₁ { health_cached = true; health = answer; health_checked = now }))

  -- the client as the handlers and the monitor use it
  pub http_client : ℕ → KwebClient (Client N)
  unfolding post remove_at read_at with_params read_vm read_clusters read_cluster check_health
      parsed
  http_client now = record {
    create_vm = λ name profile params.
        post "create_vm" "/vms"
          (with_params params (("name", str name) ∷ ("profile", str profile) ∷ []));
    list_vms = read_at "list_vms" "/vms" (λ payload. parsed "vm list" (J.vm_list payload));
    get_vm = λ name. read_at "get_vm" ("/vms/" <> J.escape name) read_vm;
    delete_vm = λ name. remove_at "delete_vm" ("/vms/" <> J.escape name);
    list_profiles =
        read_at "list_profiles" "/vmprofiles"
          (λ payload. parsed "profiles" (J.profile_names payload));
    create_cluster = λ name cluster_type params.
        post "create_cluster" "/kubes"
          (with_params params (("cluster", str name) ∷ ("kubetype", str cluster_type) ∷ []));
    list_clusters = read_at "list_clusters" "/kubes" read_clusters;
    get_cluster = λ name. read_at "get_cluster" ("/kubes/" <> J.escape name) (read_cluster name);
    get_cluster_kubeconfig = λ name.
        read_at "get_kubeconfig" ("/kubes/" <> J.escape name <> "/kubeconfig")
          (λ payload. ok (trimmed payload));
    delete_cluster = λ name. remove_at "delete_cluster" ("/kubes/" <> J.escape name);
    check_health = check_health now;
  }
