-- ===== src/Cmd/Demo/Query.antt =====
-- `handlePromQuery` of cmd/demo-ui/main.go. The URLs of net/url and the client of net/http are
-- parameters.
use kube_pfs.Base.{ℕ, Option, none, some, [], ◌++◌, Fallible, done, fail, if◌then◌else◌}
use kube_pfs.Cmd.Demo.{Reply, error_reply, passed_on, Server}
use kube_pfs.Text.{Text, codes, text_eq}
use kube_pfs.Text.Edit.{trim_space}

pub record Web : Type 1 where
  pub Url : Type 0
  -- url.Parse
  pub parse_url : Text → Fallible Url
  -- u.String(), with the parameter "query" set in its query
  pub with_query : Text → Url → Text
  -- http.NewRequestWithContext, for a GET: `none` is a nil error.
  pub new_request : Text → Option Text
  -- http.DefaultClient.Do: the status and what io.ReadAll makes of the body.
  pub send : Text → Fallible (ℕ × Fallible Text)

-- The handler, given the parameter "expr" of the request.
unfoldable pub handle_prom_query : Web → Server → Text → Reply Text
handle_prom_query web server param =
    let expr = trim_space param in
    if text_eq expr []
    then error_reply 400 (codes "query param 'expr' is required")
    else elim (web.parse_url (server.prometheus_url ++ codes "/api/v1/query")) [
      | fail e ↦ error_reply 500 e
      | done u ↦
          let url = web.with_query expr u in
          elim (web.new_request url) [
            | some e ↦ error_reply 500 e
            | none ↦ elim (web.send url) [
              | fail e ↦ error_reply 502 e
              | done (status, body) ↦ elim body [
                | fail e ↦ error_reply 502 e
                | done b ↦ passed_on status b
              ]
            ]
          ]
    ]
