-- ===== src/Cluster/Convergence.antt =====
-- src/cluster/crd.rs: a cluster that is reconciled again and again, with the phase that the API server
-- keeps.
use mathlib.Core.Path.{subst}
use sdb_controller.Prelude.{
  ℕ, zero, suc, ◌≤◌, ◌≡◌, refl, arith, sym, ap, ◌∙◌, Option, none, some, get_or, String, is_some,
  if◌then◌else◌, Bool-cases, inl, inr,
}
use sdb_controller.Resources.Core.{OwnerReference}
use sdb_controller.Resources.Cluster.{
  Cluster, Status, Phase, new, preparing, in_creation, not_ready, in_progress, ready, error,
}
use sdb_controller.Cluster.Actions.{tikv_backend_configured}
use sdb_controller.Cluster.Reconcile.{current, reconcile}
use sdb_controller.Cluster.Progress.{successor, Advances, reconcile-Advances}
use sdb_controller.Cluster.Progress.Steps.{IsAccepting, IsComplete, stored}
use sdb_controller.Api.{Kube, start}

-- The merge patch of a status changes its phase alone.
abbrev merged : Option Status → Phase → Status
merged none p = record { phase = some p; tidb_cluster_ref = none }
merged (some s) p = record s { phase = some p }

abbrev pub with_phase : Cluster → Option Phase → Cluster
with_phase c none = c
with_phase c (some p) = record c { status = some (merged c.status p) }

current-merged : (s : Option Status) (p : Phase) → current (some (merged s p)) ≡ p
current-merged none p = refl
current-merged (some s) p = refl

module _ ⦃K : Kube⦄ (ns : String) where
  -- One reconciliation, and the cluster as the API server has it afterwards.
  unfoldable pub round : Cluster × K.State → Cluster × K.State
  round (c, s) = let w = (reconcile c (start s)).1 in (with_phase c (stored c ns w.log), w.state)

  unfoldable pub rounds : ℕ → Cluster × K.State → Cluster × K.State
  rounds zero x = x
  rounds (suc n) x = rounds n (round x)

-- The phases that a cluster leaves.
abbrev pub IsHealthy : Phase → Type 0
IsHealthy error = ⊥
IsHealthy other = Unit {0}

-- How many reconciliations are left until the phase Ready.
abbrev pub remaining : Cluster → Phase → ℕ
remaining c new = if is_some c.spec.tidb_cluster then 4 else 3
remaining c preparing = 3
remaining c in_creation = 2
remaining c in_progress = 1
remaining c not_ready = 1
remaining c ready = 0
remaining c error = 0

module _ ⦃K : Kube⦄ (good : IsAccepting) (ns secret : String) (oref : OwnerReference) where
  with_phase-IsComplete :
      (c : Cluster) (o : Option Phase)
      → IsComplete c ns secret oref
      → IsComplete (with_phase c o) ns secret oref
  unfolding tikv_backend_configured
  with_phase-IsComplete c none full = full
  with_phase-IsComplete c (some p) full = record {
    home = full.home;
    owner = full.owner;
    root = full.root;
    backend = full.backend;
  }

  remaining-with_phase :
      (c : Cluster) (o : Option Phase) (p : Phase) → remaining (with_phase c o) p ≡ remaining c p
  remaining-with_phase c none p = refl
  remaining-with_phase c (some q) new = refl
  remaining-with_phase c (some q) preparing = refl
  remaining-with_phase c (some q) in_creation = refl
  remaining-with_phase c (some q) in_progress = refl
  remaining-with_phase c (some q) not_ready = refl
  remaining-with_phase c (some q) ready = refl
  remaining-with_phase c (some q) error = refl

  round-phase :
      (c : Cluster) (s : K.State) (p : Phase) (o : Option Phase)
      → IsComplete c ns secret oref
      → current c.status ≡ p
      → successor c ns p ≡ o
      → current (round ns (c, s)).0.status ≡ get_or o p
  unfolding round
  round-phase c s p o full e g =
      let h : Advances c ns o (reconcile c (start s)) none =
        subst (λ o. Advances c ns o (reconcile c (start s)) none) (ap (successor c ns) e ∙ g)
          (reconcile-Advances good c ns secret oref full s) in
      after o h
    where
      after :
          (o : Option Phase)
          → Advances c ns o (reconcile c (start s)) none
          → current (with_phase c (stored c ns (reconcile c (start s)).1.log)).status ≡ get_or o p
      after none (d, k) = ap (λ o. current (with_phase c o).status) k ∙ e
      after (some q) (d, k) =
          ap (λ o. current (with_phase c o).status) k ∙ current-merged c.status q

  abbrev Settles : ℕ → Type 0
  Settles n =
      (c : Cluster) (s : K.State) (p : Phase)
      → IsComplete c ns secret oref
      → current c.status ≡ p
      → IsHealthy p
      → remaining c p ≤ n
      → current (rounds ns n (c, s)).0.status ≡ ready

  round-Settles :
      (n : ℕ)
      → Settles n
      → (c : Cluster) (s : K.State) (p : Phase) (o : Option Phase) → IsComplete c ns secret oref
      → current c.status ≡ p
      → successor c ns p ≡ o
      → IsHealthy (get_or o p)
      → remaining c (get_or o p) ≤ n
      → current (rounds ns (suc n) (c, s)).0.status ≡ ready
  unfolding rounds round
  round-Settles n ih c s p o full e g healthy b =
      let q = stored c ns (reconcile c (start s)).1.log in
      ih (with_phase c q) _ (get_or o p) (with_phase-IsComplete c q full)
        (round-phase c s p o full e g) healthy
        (subst (λ k. k ≤ n) (sym (remaining-with_phase c q (get_or o p))) b)

  new-Settles :
      (n : ℕ)
      → Settles n
      → (c : Cluster) (s : K.State) → IsComplete c ns secret oref
      → current c.status ≡ new
      → remaining c new ≤ suc n
      → current (rounds ns (suc n) (c, s)).0.status ≡ ready
  new-Settles n ih c s full e b = elim (Bool-cases (is_some c.spec.tidb_cluster)) [
    | inl t ↦
        round-Settles n ih c s new (some preparing) full e (rw t refl) tt
          (let b' : 4 ≤ suc n = subst (λ x. (if x then 4 else 3) ≤ suc n) t b in omega arith)
    | inr f ↦
        round-Settles n ih c s new (some in_creation) full e (rw f refl) tt
          (let b' : 3 ≤ suc n = subst (λ x. (if x then 4 else 3) ≤ suc n) f b in omega arith)
  ]

  settles : (n : ℕ) → Settles n
  unfolding rounds
  settles zero c s new full e h b = elim (Bool-cases (is_some c.spec.tidb_cluster)) [
    | inl t ↦ let x : ⊥ = ground (arith, t, b) in absurd x
    | inr f ↦ let x : ⊥ = ground (arith, f, b) in absurd x
  ]
  settles zero c s preparing full e h b = let x : ⊥ = omega arith in absurd x
  settles zero c s in_creation full e h b = let x : ⊥ = omega arith in absurd x
  settles zero c s in_progress full e h b = let x : ⊥ = omega arith in absurd x
  settles zero c s not_ready full e h b = let x : ⊥ = omega arith in absurd x
  settles zero c s ready full e h b = e
  settles zero c s error full e h b = absurd h
  settles (suc n) c s new full e h b = new-Settles n (settles n) c s full e b
  settles (suc n) c s preparing full e h b =
      round-Settles n (settles n) c s preparing (some in_creation) full e refl tt (omega arith)
  settles (suc n) c s in_creation full e h b =
      round-Settles n (settles n) c s in_creation (some in_progress) full e refl tt (omega arith)
  settles (suc n) c s in_progress full e h b =
      round-Settles n (settles n) c s in_progress (some ready) full e refl tt (omega arith)
  settles (suc n) c s not_ready full e h b =
      round-Settles n (settles n) c s not_ready (some ready) full e refl tt (omega arith)
  settles (suc n) c s ready full e h b =
      round-Settles n (settles n) c s ready none full e refl tt (omega arith)
  settles (suc n) c s error full e h b = absurd h

  -- Where every request succeeds and shows what the controller waits for, a cluster that has a
  -- namespace, an owner reference, a root secret and a backend, and is not in the phase Error, is in
  -- the phase Ready after as many reconciliations as its phase has `remaining`, at most four, and
  -- after any more of them.
  pub rounds-Settles :
      (c : Cluster) (s : K.State)
      → IsComplete c ns secret oref
      → IsHealthy (current c.status)
      → (n : ℕ) → remaining c (current c.status) ≤ n
      → current (rounds ns n (c, s)).0.status ≡ ready
  rounds-Settles c s full healthy n b = settles n c s (current c.status) full refl healthy b
