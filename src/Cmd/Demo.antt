-- ===== src/Cmd/Demo.antt =====
-- cmd/demo-ui/main.go: the handlers of the demo, as functions from what they read to what they
-- answer. A value that is written as JSON is kept as it is.
pub mod Timeline
pub mod Logged
pub mod Injected
pub mod Status
pub mod Counted
pub mod Benchmarks
pub mod Latest
pub mod Query
pub mod Routes
pub mod Main
use kube_pfs.Base.{
  ℕ, ◌+◌, ◌-◌, Bool, true, false, ◌||◌, ◌&&◌, not, Option, none, some, List, [], ◌∷◌, ◌++◌, map,
  Fallible, done, fail, ◌==◌, ltb, leb, length, drop, if◌then◌else◌,
}
use kube_pfs.Text.{Text, codes, text_eq}
use kube_pfs.Text.Edit.{trim_space}
use kube_pfs.Text.Path.{clean, join}

-- What a handler writes: its value with the status 200, an error of writeErrMsg with its status, or
-- the answer of another server with its status and its bytes.
pub data Reply {ℓ} (A : Type ℓ) : Type ℓ where
  answer : A → Reply A
  error_reply : ℕ → Text → Reply A
  passed_on : ℕ → Text → Reply A

-- filepath.Join(parts...)
unfoldable pub join_parts : List Text → Text
join_parts [] = []
join_parts (p ∷ ps) = if text_eq p [] then join_parts ps else clean (join (p ∷ ps))

-- strings.TrimRight(s, c), for one character
unfoldable pub trim_right_char : ℕ → Text → Text
trim_right_char c [] = []
trim_right_char c (d ∷ s) =
    let rest = trim_right_char c s in if d == c && text_eq rest [] then [] else d ∷ rest

-- envOrDefault, given what os.Getenv answered.
unfoldable pub env_or_default : Text → Text → Text
env_or_default value fallback = let v = trim_space value in if text_eq v [] then fallback else v

-- The server that `main` makes, given the values of the flags "repo-root" and "prom-url".
pub record Server : Type 0 where
  pub repo_root : Text
  pub prometheus_url : Text

unfoldable pub new_server : Text → Text → Server
new_server repo_root prom_url = record {
  repo_root = repo_root;
  prometheus_url = trim_right_char b'/' prom_url;
}

-- handleConfig
unfoldable pub handle_config : Server → Reply (List (Text × Text))
handle_config server =
    answer
      ((codes "prometheusURL", server.prometheus_url) ∷ (codes "repoRoot", server.repo_root) ∷ [])

-- runCommand, given the combined output and the error, if there is one.
unfoldable pub command_output : Text → Option Text → Fallible Text
command_output out none = done out
command_output out (some e) =
    let trimmed = trim_space out in
    if text_eq trimmed [] then fail e else fail (e ++ (codes ": " ++ trimmed))

-- The response that the middleware starts to write: its status, its headers, and whether the
-- handler behind it is called.
pub record Handled : Type 0 where
  pub headers : List (Text × Text)
  pub status : Option ℕ
  pub reaches : Bool

-- withCORS, on a response without headers
unfoldable pub with_cors : Text → Handled
with_cors method =
    let headers =
      (codes "Access-Control-Allow-Origin", codes "*")
      ∷ (codes "Access-Control-Allow-Headers", codes "Content-Type")
      ∷ (codes "Access-Control-Allow-Methods", codes "GET, OPTIONS")
      ∷ [] in
    if text_eq method (codes "OPTIONS")
    then record { headers = headers; status = some 204; reaches = false }
    else record { headers = headers; status = none; reaches = true }
