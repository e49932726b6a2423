-- ===== src/Cmd/Demo/Main.antt =====
-- `main` of cmd/demo-ui/main.go: its flags, and the server that it starts.
use kube_pfs.Base.{Option, none, some, List, [], ◌∷◌, ◌++◌, done, fail}
use kube_pfs.Cmd.Demo.{Server, new_server, env_or_default}
use kube_pfs.Cmd.Program.{Program, Outcome, run}
use kube_pfs.Text.{Text, codes}

-- The flags, given KUBE_PFS_PROM_URL.
abbrev pub demo_program : Text → Program
demo_program env = record {
  name = codes "demo ui";
  flags =
      (codes "listen", codes ":8088")
      ∷ (codes "repo-root", codes ".")
      ∷ (codes "prom-url", env_or_default env (codes "http://127.0.0.1:9090"))
      ∷ [];
  metrics_flag = none;
}

-- main, given what fs.Sub answers, and in the end ListenAndServe on an address.
unfoldable pub main_demo :
    {Fs : Type 0} → Text → Option Text → (Text → Option Text) → List Text → Fs → Outcome Server × Fs
main_demo env sub listen_and_serve =
    run (demo_program env)
      (λ flag f. elim sub [
        | some e ↦ (fail (codes "load embedded static files: " ++ e), f)
        | none ↦ (done (new_server (flag (codes "repo-root")) (flag (codes "prom-url"))), f)
      ])
      (λ flag. listen_and_serve (flag (codes "listen")))
