-- ===== src/Cmd/Demo/Routes.antt =====
-- `main` of cmd/demo-ui/main.go: the way of a request through its middleware and its routes. The line that loggingMiddleware writes to the log is left out.
use kube_pfs.Base.{
  All, ℕ, ◌≡◌, refl, true, inl, inr, arith, Bool, Bool-cases, Option, none, some, List, [], ◌∷◌,
  map, Fallible, if◌then◌else◌,
}
use kube_pfs.Cmd.Demo.{Reply, Server, handle_config, with_cors}
use kube_pfs.Cmd.Demo.Benchmarks.{Floats, Listing, Job, BenchSummary, handle_latest_benchmark}
use kube_pfs.Cmd.Demo.Query.{Web, handle_prom_query}
use kube_pfs.Cmd.Demo.Status.{RawPod, ClusterStatus, handle_status}
use kube_pfs.Cmd.Demo.Timeline.{handle_faults}
use kube_pfs.Cmd.Flags.{is_one_of}
use kube_pfs.Cmd.Host.{Event, EventCodec}
use kube_pfs.FileSystem.{Contents}
use kube_pfs.Table.{lookup}
use kube_pfs.Text.{Text, codes, text_eq}
use kube_pfs.Text.Path.{clean}

-- What the handlers are registered for, and the pattern of each.
pub data Route : Type 0 where
  static status faults latest prometheus config : Route

abbrev pub pattern_of : Route → Text
pattern_of static = codes "/"
pattern_of status = codes "/api/status"
pattern_of faults = codes "/api/faults"
pattern_of latest = codes "/api/benchmarks/latest"
pattern_of prometheus = codes "/api/prometheus"
pattern_of config = codes "/api/demo/config"

-- The routes in the order in which main registers them.
abbrev pub routes : List Route
routes = static ∷ status ∷ faults ∷ latest ∷ prometheus ∷ config ∷ []

-- The parts of a request that are read.
pub record Request : Type 0 where
  pub method : Text
  pub path : Text
  pub expr : Text

-- What the handlers read besides the request: the clock, what runCommand answers, the disk, the
-- functions of encoding/json and strings, and the client of net/http. `file` is http.FileServer.
pub record Outside (floats : Floats) : Type 1 where
  pub now : Text
  pub pods : Fallible Text
  pub equal_fold : Text → Text → Bool
  pub unmarshal_pods : Text → Fallible (List RawPod)
  pub codec : EventCodec
  pub read_file : Text → Contents
  pub read_dir : Text → Listing
  pub exists : Text → Bool
  pub unmarshal_jobs : Text → Fallible (List (Job floats))
  pub web : Web
  pub file : Request → ℕ × Text

-- What is written as the body of a response.
pub data Body (floats : Floats) : Type 0 where
  of_file : ℕ × Text → Body floats
  of_status : ClusterStatus → Body floats
  of_faults : Reply (List Event) → Body floats
  of_latest : Reply (Option (BenchSummary floats)) → Body floats
  of_query : Reply Text → Body floats
  of_config : Reply (List (Text × Text)) → Body floats

-- What becomes of a response: with_cors ends it with the status 204, the ServeMux answers itself,
-- or a handler writes it.
pub data Content (floats : Floats) : Type 0 where
  no_content by_mux : Content floats
  written : Body floats → Content floats

-- The headers are those of withCORS; a handler that writes JSON adds the type of its content.
pub record Response (floats : Floats) : Type 0 where
  pub headers : List (Text × Text)
  pub content : Content floats

-- The pattern that http.ServeMux chooses for a path among those that are registered, if it does not
-- answer itself, as it does with a redirection from a path that is not clean. The pattern for the
-- path itself takes precedence over the others.
pub record Mux : Type 0 where
  pub match : List Text → Text → Option Text
  pub match_own :
      (ps : List Text) (p : Text) → is_one_of p ps ≡ true → clean p ≡ p → match ps p ≡ some p

abbrev pub route_of : List Route → Text → Option Route
route_of [] pattern = none
route_of (r ∷ rs) pattern =
    let rest = route_of rs pattern in if text_eq (pattern_of r) pattern then some r else rest

module _ (floats : Floats) (outside : Outside floats) (server : Server) where
  unfoldable pub handle : Request → Route → Body floats
  handle req static = of_file (outside.file req)
  handle req status =
      of_status (handle_status outside.equal_fold outside.unmarshal_pods outside.now outside.pods)
  handle req faults = of_faults (handle_faults outside.codec server outside.read_file)
  handle req latest = of_latest (
      handle_latest_benchmark floats outside.unmarshal_jobs outside.exists outside.read_file
        outside.now server outside.read_dir)
  handle req prometheus = of_query (handle_prom_query outside.web server req.expr)
  handle req config = of_config (handle_config server)

  -- withCORS around loggingMiddleware around the ServeMux of main.
  unfoldable pub respond : Mux → Request → Response floats
  unfolding with_cors handle
  respond mux req =
      let handled = with_cors req.method in
      record {
        headers = handled.headers;
        content =
            if handled.reaches
            then elim (mux.match (map pattern_of routes) req.path) [
              | none ↦ by_mux
              | some pattern ↦ elim (route_of routes pattern) [
                | none ↦ by_mux
                | some route ↦ written (handle req route)
              ]
            ]
            else no_content;
      }

  pattern_of-clean : (r : Route) → clean (pattern_of r) ≡ pattern_of r
  unfolding clean text_eq
  pattern_of-clean static = refl
  pattern_of-clean status = refl
  pattern_of-clean faults = refl
  pattern_of-clean latest = refl
  pattern_of-clean prometheus = refl
  pattern_of-clean config = refl

  registered : (r : Route) → is_one_of (pattern_of r) (map pattern_of routes) ≡ true
  unfolding text_eq
  registered static = refl
  registered status = refl
  registered faults = refl
  registered latest = refl
  registered prometheus = refl
  registered config = refl

  route_of-pattern_of : (r : Route) → route_of routes (pattern_of r) ≡ some r
  unfolding text_eq
  route_of-pattern_of static = refl
  route_of-pattern_of status = refl
  route_of-pattern_of faults = refl
  route_of-pattern_of latest = refl
  route_of-pattern_of prometheus = refl
  route_of-pattern_of config = refl

  respond-pattern_of :
      (mux : Mux) (req : Request) (r : Route)
      → req.path ≡ pattern_of r
      → (respond mux req).content
        ≡ (if text_eq req.method (codes "OPTIONS") then no_content else written (handle req r))
  unfolding respond with_cors
  respond-pattern_of mux req r h =
      let found =
        mux.match_own (map pattern_of routes) (pattern_of r) (registered r) (pattern_of-clean r) in
      let chosen : mux.match (map pattern_of routes) req.path ≡ some (pattern_of r) = rw h found in
      elim (Bool-cases (text_eq req.method (codes "OPTIONS"))) [
        | inl e ↦ ground (arith, e)
        | inr e ↦ rw (e, chosen, route_of-pattern_of r) refl
      ]

  -- The paths of the demo, each with the body of its responses to the method and the "expr" of a
  -- request.
  abbrev pub bodies : Request → List (Text × Body floats)
  bodies req =
      (codes "/", of_file (outside.file (record req { path = codes "/" })))
      ∷ (
        codes "/api/status",
        of_status
            (handle_status outside.equal_fold outside.unmarshal_pods outside.now outside.pods),
      )
      ∷ (codes "/api/faults", of_faults (handle_faults outside.codec server outside.read_file))
      ∷ (
        codes "/api/benchmarks/latest",
        of_latest (
            handle_latest_benchmark floats outside.unmarshal_jobs outside.exists outside.read_file
              outside.now server outside.read_dir),
      )
      ∷ (codes "/api/prometheus", of_query (handle_prom_query outside.web server req.expr))
      ∷ (codes "/api/demo/config", of_config (handle_config server))
      ∷ []

  -- Every response allows other origins; and each of the six paths of the demo answers with the body
  -- that belongs to it, by whatever other method than OPTIONS, and with no content by OPTIONS.
  pub respond-handle :
      (mux : Mux) (req : Request)
      → (lookup (codes "Access-Control-Allow-Origin") (respond mux req).headers ≡ some (codes "*"))
        × All
            (λ entry.
              (respond mux (record req { path = entry.0 })).content
              ≡ (if text_eq req.method (codes "OPTIONS") then no_content else written entry.1))
            (bodies req)
  unfolding respond with_cors handle lookup text_eq
  respond-handle mux req =
      let at : Text → Request = λ p. record req { path = p } in
      (
        elim (Bool-cases (text_eq req.method (codes "OPTIONS"))) [
          | inl e ↦ ground (arith, e)
          | inr e ↦ ground (arith, e)
        ],
        (
          respond-pattern_of mux (at (codes "/")) static refl,
          (
            respond-pattern_of mux (at (codes "/api/status")) status refl,
            (
              respond-pattern_of mux (at (codes "/api/faults")) faults refl,
              (
                respond-pattern_of mux (at (codes "/api/benchmarks/latest")) latest refl,
                (
                  respond-pattern_of mux (at (codes "/api/prometheus")) prometheus refl,
                  (respond-pattern_of mux (at (codes "/api/demo/config")) config refl, tt),
                ),
              ),
            ),
          ),
        ),
      )
