-- ===== src/Credentials/Sent.antt =====
-- src/service.rs and its callers: what sending SQL leaves in the log.
use sdb_controller.Prelude.{
  ◌≡◌, refl, sym, ◌≢◌, arith, true, Option, none, some, String, List, [], ◌∷◌, ◌⊎◌, inl, inr,
}
use sdb_controller.Service.{Client, Builder, Request, body, post, send_request}
use sdb_controller.Credentials.{basic_auth_header, sql_url, send_sql}
use sdb_controller.Api.{
  Call, request_text, execute, is_ok, Entry, Outcome, done, failed, panic, World, Kube, M, raise,
  settled, send, lift, ◌>>=◌,
}
use sdb_controller.Api.Logs.{Logs}
use sdb_controller.Api.Grounds.{Justified}

-- The SQL that a request carries.
abbrev pub sql_of : Call → Option String
sql_of (request_text request) = some request.body
sql_of (execute request) = some request.body
sql_of other = none

abbrev pub text_of : Request → String
text_of (Request.kube r) = r.body
text_of (Request.reqwest r) = r.body

-- The log has a request with this SQL that was answered with success.
abbrev pub Accepted : String → List Entry → Type 0
Accepted sql [] = ⊥
Accepted sql (e ∷ l) = ((sql_of e.call ≡ some sql) × (is_ok e.reply ≡ true)) ⊎ Accepted sql l

-- The log, the latest request first, has an accepted request with `later` and before it one with
-- `first`.
abbrev pub AcceptedAfter : (first later : String) → List Entry → Type 0
AcceptedAfter first later [] = ⊥
AcceptedAfter first later (e ∷ l) =
    ((sql_of e.call ≡ some later) × (is_ok e.reply ≡ true) × Accepted first l)
    ⊎ AcceptedAfter first later l

module _ ⦃K : Kube⦄ where
  text-body : (b : Builder) (sql : String) {r : Request} → body b sql ≡ done r → text_of r ≡ sql
  unfolding body
  text-body (Builder.kube h) sql e = ground arith
  text-body (Builder.reqwest h) sql e = ground arith

  -- One request with the SQL, answered with success if the action succeeds, or none and a failure.
  abbrev pub OneSent : String → List Entry → Outcome (Unit {0}) → List Entry → Type 0
  OneSent sql before o after =
      ((after ≡ before) × (o ≢ done tt))
      ⊎ ((e : Entry) × (after ≡ e ∷ before)
          × (sql_of e.call ≡ some sql)
          × (o ≡ done tt → is_ok e.reply ≡ true))

  send_request_lem :
      (cli : Client) (r : Request) (w : World K.State)
      → OneSent (text_of r) w.log (send_request cli r w).0 (send_request cli r w).1.log
  unfolding send_request ◌>>=◌ send lift raise
  send_request_lem Client.kube (Request.kube r) w = inr (
    record { call = request_text r; reply = (K.respond (request_text r) w.state).0 },
    ground arith,
    refl,
    ground arith,
  )
  send_request_lem Client.reqwest (Request.reqwest r) w = inr (
    record { call = execute r; reply = (K.respond (execute r) w.state).0 },
    ground arith,
    refl,
    ground arith,
  )
  send_request_lem Client.kube (Request.reqwest r) w = inl (refl, ground arith)
  send_request_lem Client.reqwest (Request.kube r) w = inl (refl, ground arith)

  -- A pure step in front of an action leaves the log to it.
  after_settled :
      {A : Type 0} (sql : String) (o : Outcome A) (f : A → M (Unit {0})) (w : World K.State)
      → ((a : A) → o ≡ done a → OneSent sql w.log (f a w).0 (f a w).1.log)
      → OneSent sql w.log ((settled o >>= f) w).0 ((settled o >>= f) w).1.log
  unfolding ◌>>=◌ settled
  after_settled sql (done a) f w h = h a refl
  after_settled sql (failed e) f w h = inl (refl, ground arith)
  after_settled sql panic f w h = inl (refl, ground arith)

  sent_body :
      (cli : Client) (b : Builder) (sql : String) (r : Request) (w : World K.State)
      → body b sql ≡ done r
      → OneSent sql w.log (send_request cli r w).0 (send_request cli r w).1.log
  sent_body cli b sql r w e = rw (sym (text-body b sql e)) (send_request_lem cli r w)

  pub send_sql_lem :
      (cli : Client) (cluster_ns cluster_name user pass sql : String) (w : World K.State)
      → OneSent sql w.log
          (send_sql cli cluster_ns cluster_name user pass sql w).0
          (send_sql cli cluster_ns cluster_name user pass sql w).1.log
  unfolding send_sql
  send_sql_lem cli cluster_ns cluster_name user pass sql w =
      after_settled sql (post cli (sql_url cluster_ns cluster_name)) _ w λ b _.
        after_settled sql (basic_auth_header user pass) _ w
          λ auth _. after_settled sql (body _ sql) _ w λ r e. sent_body cli _ sql r w e

  -- What is known of every request with this SQL holds of all that is sent.
  pub Logs-send_sql :
      {P : Entry → Type 0} (cli : Client) (cluster_ns cluster_name user pass sql : String)
      → ((e : Entry) → sql_of e.call ≡ some sql → P e)
      → Logs P (send_sql cli cluster_ns cluster_name user pass sql)
  Logs-send_sql cli cluster_ns cluster_name user pass sql h = record {
    at = λ w k. elim (send_sql_lem cli cluster_ns cluster_name user pass sql w) [
      | inl (e, _) ↦ rw e k
      | inr (x, e, s, _) ↦ rw e (h x s, k)
    ];
  }

  -- A request for SQL writes no phase, and after a success the SQL is accepted.
  pub sent_Justified :
      {G : Call → List Entry → Type 0} (sql : String) (o : Outcome (Unit {0}))
      {before after : List Entry}
      → ((call : Call) (l : List Entry) → sql_of call ≡ some sql → G call l)
      → OneSent sql before o after
      → Justified G before
      → Justified G after
        × (o ≡ done tt → Accepted sql after)
        × ((first : String) → o ≡ done tt → Accepted first before → AcceptedAfter first sql after)
  sent_Justified sql o g (inl (e, n)) j = (rw e j, λ d. absurd (n d), λ first d. absurd (n d))
  sent_Justified sql o g (inr (x, e, s, k)) j =
      (rw e (g x.call _ s, j), λ d. rw e (inl (s, k d)), λ first d a. rw e (inl (s, k d, a)))
