-- ===== src/Fixtures/Cluster/Checks.antt =====
-- src/cluster/fixtures.rs: what the handlers check of the bodies of requests.
use sdb_controller.Prelude.{
  Bool, true, false, not, ◌&&◌, Option, none, some, String, ◌==◌, List, [], ◌∷◌, any, if◌then◌else◌,
}
use sdb_controller.Resources.Core.{
  EnvVar, Container, Deployment, DeploymentSpec, null, string, array, cons, PatchOperation, test,
  add, remove, replace,
}
use sdb_controller.Fixtures.Cluster.{get, as_str}

abbrev eq_text : Option String → String → Bool
eq_text none t = false
eq_text (some s) t = s == t

abbrev env_of_first : List Container → List EnvVar
env_of_first [] = []
env_of_first (k ∷ ks) = k.env

abbrev env_of_spec : Option DeploymentSpec → List EnvVar
env_of_spec none = []
env_of_spec (some spec) = env_of_first spec.template.containers

-- `json["spec"]["template"]["spec"]["containers"][0]["env"]`
abbrev pub env_of : Deployment → List EnvVar
env_of dp = env_of_spec dp.spec

abbrev pub has : String → List EnvVar → Bool
has name env = any (λ (e : EnvVar). e.name == name) env

abbrev pub has_kv : String → String → List EnvVar → Bool
has_kv name val env = any (λ (e : EnvVar). e.name == name && eq_text e.value val) env

abbrev pub expected_env : (creation_mode : Bool) → List EnvVar → Bool
expected_env true env = has_kv "SURREAL_UNAUTHENTICATED" "true" env && not (has "SURREAL_AUTH" env)
expected_env false env =
    has_kv "SURREAL_AUTH" "true" env
    && has "SURREAL_PATH" env
    && not (has "SURREAL_UNAUTHENTICATED" env)

-- `assert_json_include!` with the two operations that add a finalizer to an object without any.
abbrev pub adds_finalizer : String → List PatchOperation → Bool
adds_finalizer name (test p null ∷ add q (array (cons (string f) more)) ∷ ops) =
    p == "/metadata/finalizers" && q == "/metadata/finalizers" && f == name
adds_finalizer name other = false

abbrev pub removes_finalizer : String → List PatchOperation → Bool
removes_finalizer name (test p (string f) ∷ remove q ∷ ops) =
    p == "/metadata/finalizers/0" && f == name && q == "/metadata/finalizers/0"
removes_finalizer name other = false

-- The first `replace` at "/spec/rootSecret" gives the reference that is expected.
abbrev pub sets_root_secret : List PatchOperation → Bool
sets_root_secret [] = false
sets_root_secret (replace path value ∷ ops) =
    let rest = sets_root_secret ops in
    if path == "/spec/rootSecret"
    then eq_text (as_str (get "name" value)) "test-surrealdb-root"
      && eq_text (as_str (get "namespace" value)) "default"
    else rest
sets_root_secret (op ∷ ops) = sets_root_secret ops
