-- ===== src/Fixtures/Asked.antt =====
-- src/cluster/fixtures.rs, src/database/fixtures.rs and src/user/fixtures.rs: requests of the `kube` client
-- and the assertions on their methods and URIs.
use text.Mathlib.TextLemmas.{append-nil, append_assoc}
use sdb_controller.Prelude.{◌≡◌, refl, ◌∙◌, ap, true, String, ◌<>◌, ◌==◌, eq_refl}
use sdb_controller.Api.{Call}
use sdb_controller.Fixtures.Texts.{contains, contains-front}
use sdb_controller.Fixtures.Wire.{Wire, IsKubernetes, path_of, mark, method_of}
use sdb_controller.Fixtures.Server.{asks, asks_exactly}

pub marked : (a n s : String) → (a <> (n <> s)) <> "?" ≡ a <> (n <> (s <> "?"))
marked a n s = append_assoc a (n <> s) "?" ∙ ap (λ t. a <> t) (append_assoc n s "?")

pub unmarked : (s : String) → s <> "" ≡ s
unmarked s = append-nil s

module _ (wire : Wire) (k : IsKubernetes wire) (call : Call) where
  method_lem : (m : String) → method_of call ≡ m → (wire.method call == m) ≡ true
  method_lem m e = rw (k.methods call ∙ e) (eq_refl m)

  pub asks_lem :
      (m text : String)
      → method_of call ≡ m
      → path_of call <> mark call ≡ text
      → asks wire m text call ≡ true
  unfolding asks
  asks_lem m text e g =
      let found : contains text (wire.uri call) ≡ true =
        rw (k.uris call, g) (contains-front text (wire.query call)) in
      rw (method_lem m e, found) refl

  pub asks_exactly_lem :
      (m text : String)
      → method_of call ≡ m
      → wire.query call ≡ ""
      → path_of call <> mark call ≡ text
      → asks_exactly wire m text call ≡ true
  unfolding asks_exactly
  asks_exactly_lem m text e q g =
      let same : wire.uri call ≡ text =
        k.uris call ∙ ap (λ t. t <> wire.query call) g ∙ ap (λ t. text <> t) q ∙ unmarked text in
      rw (method_lem m e, same, eq_refl text) refl
