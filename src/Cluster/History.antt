-- ===== src/Cluster/History.antt =====
-- src/cluster/crd.rs: a cluster over many reconciliations.
use mathlib.Core.Path.{subst}
use sdb_controller.Prelude.{◌≡◌, refl, true, ◌⊎◌, inl, inr, List, [], ◌∷◌, All}
use sdb_controller.Resources.Cluster.{Cluster, Phase, new, not_ready, in_progress, ready}
use sdb_controller.Cluster.Reconcile.{current, reconcile}
use sdb_controller.Cluster.Transitions.{
  ◌⟶◌, prepare, create, refuse, tidb_up, bootstrapped, settled, unsettled, lost, recovered, Follows,
  reconcile-Follows,
}
use sdb_controller.Cluster.Grounds.{HasGrounds, IsJustified, IsSql, IsPromoted}
use sdb_controller.Cluster.Bootstrap.{IsRootDefinition}
use sdb_controller.Cluster.Order.{reconcile-IsJustified}
use sdb_controller.Api.{Call, patch_cluster_status, request_text, is_ok, Entry, Kube, trace}
use sdb_controller.Api.Grounds.{Some}

abbrev pub Writes : Phase → Call → Type 0
Writes p (patch_cluster_status ns name q) = q ≡ p
Writes p other = ⊥

-- A cluster begins in the phase New. Each reconciliation finds it in the phase that it has and leaves it
-- there, or in a phase that the reconciliation writes; between two of them anything else may change.
module _ ⦃K : Kube⦄ where
  pub data Runs : Phase → List (List Entry) → Type 0 where
    fresh : Runs new []
    kept :
        {p : Phase} {logs : List (List Entry)}
        → Runs p logs
        → (c : Cluster) (s : K.State) → current c.status ≡ p
        → Runs p (trace (reconcile c) s ∷ logs)
    moved :
        {p q : Phase} {logs : List (List Entry)}
        → Runs p logs
        → (c : Cluster) (s : K.State) → current c.status ≡ p
        → Some (λ e. Writes q e.call) (trace (reconcile c) s)
        → Runs q (trace (reconcile c) s ∷ logs)

-- The phases after the bootstrap.
abbrev pub IsLate : Phase → Type 0
IsLate in_progress = Unit
IsLate ready = Unit
IsLate not_ready = Unit
IsLate other = ⊥

IsLate-edge : {p q : Phase} → p ⟶ q → IsLate q → (q ≡ in_progress) ⊎ IsLate p
IsLate-edge prepare h = absurd h
IsLate-edge create h = absurd h
IsLate-edge refuse h = absurd h
IsLate-edge tidb_up h = absurd h
IsLate-edge bootstrapped h = inl refl
IsLate-edge settled h = inr tt
IsLate-edge unsettled h = inr tt
IsLate-edge lost h = inr tt
IsLate-edge recovered h = inr tt

written_edge : {p q : Phase} (call : Call) → Writes q call → Follows p call → p ⟶ q
written_edge {p} (patch_cluster_status ns name r) w f = subst (λ q. p ⟶ q) w f
written_edge other w f = absurd w

edge-Some :
    {p q : Phase} (l : List Entry)
    → Some (λ e. Writes q e.call) l
    → All (λ e. Follows p e.call) l
    → p ⟶ q
edge-Some [] w f = absurd w
edge-Some (e ∷ l) (inl w) (f, g) = written_edge e.call w f
edge-Some (e ∷ l) (inr w) (f, g) = edge-Some l w g

-- The server accepted the SQL that defines the root user.
abbrev IsRootCall : Call → Type 0
IsRootCall (request_text request) = IsRootDefinition request.body
IsRootCall other = ⊥

abbrev pub IsBootstrapped : List Entry → Type 0
IsBootstrapped l = Some (λ e. IsRootCall e.call × (is_ok e.reply ≡ true)) l

-- Some log shows that the server accepted the definition of the root user.
abbrev pub SomeBootstrapped : List (List Entry) → Type 0
SomeBootstrapped [] = ⊥
SomeBootstrapped (l ∷ logs) = IsBootstrapped l ⊎ SomeBootstrapped logs

module _ ⦃K : Kube⦄ where
  root_call : (c : Cluster) (call : Call) → IsSql c call → IsRootCall call
  root_call c (request_text request) (ns, home, (method, uri, body)) = body
  root_call c other h = absurd h

  promoted-IsBootstrapped : (c : Cluster) (l : List Entry) → IsPromoted c l → IsBootstrapped l
  promoted-IsBootstrapped c [] h = absurd h
  promoted-IsBootstrapped c (e ∷ l) (inl ((sql, accepted), seen)) =
      inl (root_call c e.call sql, accepted)
  promoted-IsBootstrapped c (e ∷ l) (inr h) = inr (promoted-IsBootstrapped c l h)

  in_progress_grounds :
      (c : Cluster) (call : Call) (l : List Entry)
      → Writes in_progress call
      → HasGrounds c call l
      → IsBootstrapped l
  in_progress_grounds c (patch_cluster_status ns name q) l w g =
      promoted-IsBootstrapped c l (subst (λ q. HasGrounds c (patch_cluster_status ns name q) l) w g)
  in_progress_grounds c other l w g = absurd w

  written-IsBootstrapped :
      (c : Cluster) (l : List Entry)
      → Some (λ e. Writes in_progress e.call) l
      → IsJustified c l
      → IsBootstrapped l
  written-IsBootstrapped c [] w j = absurd w
  written-IsBootstrapped c (e ∷ l) (inl w) (g, j) = inr (in_progress_grounds c e.call l w g)
  written-IsBootstrapped c (e ∷ l) (inr w) (g, j) = inr (written-IsBootstrapped c l w j)

  -- A cluster that began in the phase New and is now in InProgress, Ready or NotReady had, in one of its
  -- reconciliations, the SQL that defines the root user accepted by the server.
  pub late-IsBootstrapped :
      (p : Phase) (logs : List (List Entry)) → Runs p logs → IsLate p → SomeBootstrapped logs
  late-IsBootstrapped p logs fresh h = absurd h
  late-IsBootstrapped p (l ∷ logs) (kept r c s e) h = inr (late-IsBootstrapped p logs r h)
  late-IsBootstrapped q (l ∷ logs) (moved {p} r c s e w) h = elim (IsLate-edge edge h) [
    | inl x ↦ inl (
        written-IsBootstrapped c (trace (reconcile c) s)
          (subst (λ q. Some (λ e. Writes q e.call) (trace (reconcile c) s)) x w)
          (reconcile-IsJustified c s))
    | inr late ↦ inr (late-IsBootstrapped p logs r late)
  ]
    where
      edge : p ⟶ q
      edge = edge-Some (trace (reconcile c) s) w (
          subst (λ p. All (λ e. Follows p e.call) (trace (reconcile c) s)) e
            (reconcile-Follows c s))
