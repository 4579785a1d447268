-- ===== src/Password/Calm.antt =====
-- src/cluster/crd.rs and src/user/crd.rs: the panics that the making of a password may meet.
use sdb_controller.Prelude.{ℕ}
use sdb_controller.Password.{generate_secure_password, generate_user_password}
use sdb_controller.Password.Shape.{
  IsFair, Yields, generate_secure_password-Shape, generate_user_password-Shape,
}
use sdb_controller.Api.{Kube, Outcome, done, failed, panic}
use sdb_controller.Api.Calm.{Returns, IsCalm}

Yields-Returns : {A : Type 0} (P : A → Type 0) (o : Outcome A) → Yields P o → Returns o
Yields-Returns P (done a) h = tt
Yields-Returns P (failed e) h = tt
Yields-Returns P panic h = h

module _ ⦃K : Kube⦄ where
  pub generate_secure_password-IsCalm : (n : ℕ) → IsFair → IsCalm (generate_secure_password n)
  generate_secure_password-IsCalm n fair = record {
    at = λ w. Yields-Returns _ _ (generate_secure_password-Shape fair n w);
  }

  pub generate_user_password-IsCalm : IsFair → IsCalm generate_user_password
  generate_user_password-IsCalm fair = record {
    at = λ w. Yields-Returns _ _ (generate_user_password-Shape fair w);
  }
