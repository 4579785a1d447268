-- ===== src/Api/Grounds.antt =====
-- What the requests before a request in the log show. The log has the latest request first.
use sdb_controller.Prelude.{◌≡◌, refl, true, Option, none, some, List, [], ◌∷◌, ◌⊎◌, All}
use sdb_controller.Api.Calls.{Call}
use sdb_controller.Api.Effects.{
  Kube, Entry, World, M, Outcome, done, failed, panic, is_done, continue, unwrap, ◌>>=◌,
}

-- Some request of the log is answered as `P` says.
abbrev pub Some : (Entry → Type 0) → List Entry → Type 0
Some P [] = ⊥
Some P (e ∷ l) = P e ⊎ Some P l

-- Some request of the log is answered as `P` says, and `Q` holds of the requests before it.
abbrev pub Later : (Entry → Type 0) → (List Entry → Type 0) → List Entry → Type 0
Later P Q [] = ⊥
Later P Q (e ∷ l) = (P e × Q l) ⊎ Later P Q l

-- `G` holds of every request and of the requests before it.
abbrev pub Justified : (Call → List Entry → Type 0) → List Entry → Type 0
Justified G [] = Unit
Justified G (e ∷ l) = G e.call l × Justified G l

module _ (G : Call → List Entry → Type 0) where
  pub All-Justified :
      {P : Entry → Type 0} (l : List Entry)
      → ((e : Entry) (before : List Entry) → P e → G e.call before)
      → All P l
      → Justified G l
  All-Justified [] h a = tt
  All-Justified (e ∷ l) h (p, a) = (h e l p, All-Justified l h a)

-- A step in front of an action, for what holds of a log at its end.
module _ ⦃K : Kube⦄ (J : List Entry → Type 0) {A B : Type 0} (f : A → M B) (w : World K.State) where
  pub after :
      (m : M A)
      → J (m w).1.log
      → ((a : A) → J (m w).1.log → J (f a (m w).1).1.log)
      → J ((m >>= f) w).1.log
  unfolding ◌>>=◌
  after m j g = next (m w) j g
    where
      next :
          (x : Outcome A × World K.State)
          → J x.1.log
          → ((a : A) → J x.1.log → J (f a x.1).1.log)
          → J (continue x.0 f x.1).1.log
      next (done a, w') j g = g a j
      next (failed e, w') j g = j
      next (panic, w') j g = j

  -- The rest may use that the step succeeded, and that it left `N`.
  pub after_done :
      (N : List Entry → Type 0) (m : M A)
      → J (m w).1.log × (is_done (m w).0 ≡ true → N (m w).1.log)
      → ((a : A) → J (m w).1.log → N (m w).1.log → J (f a (m w).1).1.log)
      → J ((m >>= f) w).1.log
  unfolding ◌>>=◌
  after_done N m (j, n) g = next (m w) j n g
    where
      next :
          (x : Outcome A × World K.State)
          → J x.1.log
          → (is_done x.0 ≡ true → N x.1.log)
          → ((a : A) → J x.1.log → N x.1.log → J (f a x.1).1.log)
          → J (continue x.0 f x.1).1.log
      next (done a, w') j n g = g a j (n refl)
      next (failed e, w') j n g = j
      next (panic, w') j n g = j

  pub after_unwrap :
      (o : Option A)
      → J w.log
      → ((a : A) → o ≡ some a → J (f a w).1.log)
      → J ((unwrap o >>= f) w).1.log
  unfolding ◌>>=◌ unwrap
  after_unwrap none j g = j
  after_unwrap (some a) j g = g a refl
