-- ===== src/Cmd/Demo/Status.antt =====
-- `handleStatus` and `parsePodItems` of cmd/demo-ui/main.go.
use kube_pfs.Base.{
  ℕ, ◌+◌, Bool, true, false, ◌||◌, ◌&&◌, none, some, List, [], ◌∷◌, ◌++◌, map, Fallible, done, fail,
  ◌==◌, leb, if◌then◌else◌,
}
use kube_pfs.Table.{Table, lookup, insert}
use kube_pfs.Text.{Text, codes, text_eq}
use kube_pfs.Text.Search.{has_prefix}

-- The struct that the output of kubectl is decoded into.
pub record Condition : Type 0 where
  pub kind : Text
  pub status : Text

pub record RawPod : Type 0 where
  pub namespace : Text
  pub name : Text
  pub phase : Text
  pub conditions : List Condition

pub record PodItem : Type 0 where
  pub namespace : Text
  pub name : Text
  pub phase : Text
  pub ready : Bool

pub record ClusterStatus : Type 0 where
  pub connected : Bool
  pub generated_at : Text
  pub namespaces : Table ℕ
  pub phases : Table ℕ
  pub components : Table Text
  pub error : Text
  pub observability_health : Text

-- counts[key]++
unfoldable pub increment : Text → Table ℕ → Table ℕ
increment key counts = insert key (elim (lookup key counts) [ none ↦ 1 | some n ↦ n + 1 ]) counts

module _ (equal_fold : Text → Text → Bool) where
  -- A condition "Ready" that is "True"; strings.EqualFold is a parameter.
  unfoldable pub is_ready : List Condition → Bool
  is_ready [] = false
  is_ready (c ∷ cs) =
      (text_eq c.kind (codes "Ready") && equal_fold c.status (codes "True")) || is_ready cs

  abbrev pub pod_item : RawPod → PodItem
  pod_item raw = record {
    namespace = raw.namespace;
    name = raw.name;
    phase = raw.phase;
    ready = is_ready raw.conditions;
  }

  -- `parsePodItems`, given json.Unmarshal.
  unfoldable pub parse_pod_items : (Text → Fallible (List RawPod)) → Text → Fallible (List PodItem)
  parse_pod_items unmarshal blob = elim (unmarshal blob) [
    | fail e ↦ fail e
    | done raw ↦ done (map pod_item raw)
  ]

abbrev pub is_prometheus : PodItem → Bool
is_prometheus pod = has_prefix (codes "kube-pfs-prometheus") pod.name

abbrev pub is_grafana : PodItem → Bool
is_grafana pod = has_prefix (codes "kube-pfs-grafana") pod.name

-- One pod of the loop, for the status so far and `obsReady`.
unfoldable pub count_pod : PodItem → ClusterStatus × ℕ → ClusterStatus × ℕ
count_pod pod (status, obs_ready) =
    let counted = record status {
      namespaces = increment pod.namespace status.namespaces;
      phases = increment pod.phase status.phases;
    } in
    let more = if pod.ready then obs_ready + 1 else obs_ready in
    if is_prometheus pod
    then (
      record counted { components = insert (codes "prometheus") pod.phase status.components },
      more,
    )
    else if is_grafana pod
    then (
      record counted { components = insert (codes "grafana") pod.phase status.components },
      more,
    )
    else (counted, obs_ready)

unfoldable pub count_pods : List PodItem → ClusterStatus × ℕ → ClusterStatus × ℕ
count_pods [] state = state
count_pods (pod ∷ pods) state = count_pods pods (count_pod pod state)

unfoldable pub health : ℕ → Text
health obs_ready =
    if leb 2 obs_ready
    then codes "healthy"
    else if obs_ready == 1
    then codes "degraded"
    else codes "down"

abbrev pub unknown_status : Text → ClusterStatus
unknown_status generated_at = record {
  connected = false;
  generated_at = generated_at;
  namespaces = [];
  phases = [];
  components = [];
  error = [];
  observability_health = codes "unknown";
}

-- The handler, given what runCommand answered. It always answers with the status 200.
unfoldable pub handle_status :
    (Text → Text → Bool) → (Text → Fallible (List RawPod)) → Text → Fallible Text → ClusterStatus
handle_status equal_fold unmarshal generated_at output =
    let status = unknown_status generated_at in
    elim output [
      | fail e ↦ record status { error = e }
      | done out ↦ elim (parse_pod_items equal_fold unmarshal out) [
        | fail e ↦ record status { error = codes "parse kubectl output: " ++ e }
        | done items ↦
            let (counted, obs_ready) = count_pods items (record status { connected = true }, 0) in
            record counted { observability_health = health obs_ready }
      ]
    ]
