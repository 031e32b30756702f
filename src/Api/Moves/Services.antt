-- ===== src/Api/Moves/Services.antt =====
-- The moves of the services.
use mathlib.Core.Path.{subst}
use shark_42tokyo_tuning.Prelude.{
  ◌≡◌, refl, sym, ap, ◌∙◌, inl, inr, ◌⊎◌, ℕ, ◌+◌, String, Option, none, some, List, [], ◌∷◌, Result,
  Error, ok, err, panic, Result-cases,
}
use shark_42tokyo_tuning.Prelude.Int.{ℤ}
use shark_42tokyo_tuning.Model.{Time, User, Order, RequestItem}
use shark_42tokyo_tuning.Env.{Env, SqlResult, int, text, time}
use shark_42tokyo_tuning.World.{pool, tx, World, Action, ◌>>=◌, lift, >>=-eq-ok}
use shark_42tokyo_tuning.Repository.Store.{exec_tx}
use shark_42tokyo_tuning.Repository.Store.Transaction.{Committed, exec_tx-TxOutcome}
use shark_42tokyo_tuning.Repository.Session.{insert_session, create, exec_insert, remember}
use shark_42tokyo_tuning.Repository.User.{find_by_user_name}
use shark_42tokyo_tuning.Repository.Order.{insert_query, update_statuses}
use shark_42tokyo_tuning.Repository.Order.Coherent.{DbLaws, Serves-reads}
use shark_42tokyo_tuning.Repository.Order.Methods.{update_statuses_cases, batch_create_cases}
use shark_42tokyo_tuning.Service.Timeout.{Race, finishes, expires, with_timeout}
use shark_42tokyo_tuning.Service.Auth.{
  session_duration, mapping_error, lookup_failed, check_password, start_session, admit, log_in,
  login,
}
use shark_42tokyo_tuning.Service.Product.{orders_to_create, insert_all, create_orders}
use shark_42tokyo_tuning.Service.Robot.{order_ids, plan_delivery, generate_delivery_plan}
use shark_42tokyo_tuning.Service.Robot.Plan.{nothing, updated, plan_delivery-eq-ok}
use shark_42tokyo_tuning.Handler.Response.{Response, answer, answer_state}
use shark_42tokyo_tuning.Api.Good.{IsGood}
use shark_42tokyo_tuning.Api.Moves.{
  Transaction, Move, stay, start_session as session_started, set_status, write_nothing,
  insert_orders, deliver,
}
use shark_42tokyo_tuning.Api.Moves.Reads.{Reads, check_password-Reads}

module _ {e : Env} where
  -- An action that makes one move at most.
  abbrev pub Moves : Option (ℤ × String) → {A : Type 0} → Action e A → Type 0
  Moves r m = (w : World e) → IsGood w → Move e r w.db ((m w).1).db

  pub Reads-Moves : {A : Type 0} (r : Option (ℤ × String)) (m : Action e A) → Reads m → Moves r m
  Reads-Moves r m h w good = stay (h w)

  pub answer-Moves :
      {A : Type 0} (r : Option (ℤ × String)) (m : Action e A) (f : A → Response)
      (g : Error → Response)
      → Moves r m
      → Moves r (answer m f g)
  answer-Moves r m f g h w good = rw (answer_state m f g w) (h w good)

  pub with_timeout-Moves :
      {A : Type 0} (r : Option (ℤ × String)) (race : Race) (m : Action e A)
      → Moves r m
      → Moves r (with_timeout race m)
  unfolding with_timeout
  with_timeout-Moves r finishes m h = h
  with_timeout-Moves r expires m h = h

  create-Move :
      (r : Option (ℤ × String)) (uuid : Result String) (now : Time) (user_id : ℤ) (duration : ℕ)
      (w : World e)
      → Move e r w.db ((create uuid now user_id duration w).1).db
  unfolding create exec_insert remember
  create-Move r (err x) now user_id duration w = stay refl
  create-Move r panic now user_id duration w = stay refl
  create-Move r (ok id) now user_id duration w =
      elim (Result-cases
        (e.exec w.db insert_session (text id ∷ int user_id ∷ time (now + duration) ∷ []))) [
          | inl (d, x) ↦ rw x (session_started _ x)
          | inr (inl (x, f)) ↦ rw f (stay refl)
          | inr (inr f) ↦ rw f (stay refl)
        ]

  -- Reads, and then a session.
  admit-Move :
      (r : Option (ℤ × String)) (uuid : Result String) (now : Time) (password : String)
      (user : User) (w : World e)
      → Move e r w.db ((admit uuid now password user w).1).db
  unfolding admit start_session mapping_error
  admit-Move r uuid now password user w = elim (Result-cases (check_password user password w).0) [
    | inl (_, p) ↦ rw p (
        subst
          (λ d.
            Move e r d
              ((create uuid now user.user_id session_duration (check_password user password w).1).1
                ).db)
          (check_password-Reads user password w)
          (create-Move r uuid now user.user_id session_duration (check_password user password w).1))
    | inr (inl (x, p)) ↦ rw p (stay (check_password-Reads user password w))
    | inr (inr p) ↦ rw p (stay (check_password-Reads user password w))
  ]

  log_in-Move :
      (uuid : Result String) (now : Time) (user_name password : String) (w : World e)
      → Move e none w.db ((log_in uuid now user_name password w).1).db
  unfolding log_in mapping_error find_by_user_name
  log_in-Move uuid now user_name password w =
      elim (Result-cases (mapping_error lookup_failed (find_by_user_name user_name) w).0) [
        | inl (user, p) ↦ rw p (admit-Move none uuid now password user w)
        | inr (inl (x, p)) ↦ rw p (stay refl)
        | inr (inr p) ↦ rw p (stay refl)
      ]

  pub login-Moves :
      (race : Race) (uuid : Result String) (now : Time) (user_name password : String)
      → Moves none (login {e = e} race uuid now user_name password)
  unfolding login
  login-Moves race uuid now user_name password =
      with_timeout-Moves none race (log_in uuid now user_name password)
        λ w good. log_in-Move uuid now user_name password w

  pub update_statuses-Moves :
      (id : ℤ) (status : String)
      → Moves (some (id, status)) (update_statuses {e = e} (id ∷ []) status)
  update_statuses-Moves id status w good = elim (update_statuses_cases id [] status w) [
    | inl (same, _) ↦ stay (ap (λ (v : World e). v.db) same)
    | inr (u, _) ↦ rw u.left (
        set_status id status refl
          (record { sql = u.sql; args = u.args; built = u.built; written = u.written }))
  ]

-- What the services write in a transaction.
module _ {e : Env} where
  -- The moves of a transaction are those of its commits.
  tx-Move :
      {A : Type 0} (r : Option (ℤ × String)) (fn : Action e A) (w : World e)
      → w.conn ≡ pool
      → ((a : A) (c : Committed fn w a (exec_tx fn w).1) → Move e r w.db c.db')
      → Move e r w.db ((exec_tx fn w).1).db
  tx-Move r fn w h k = elim (exec_tx-TxOutcome fn w h) [
    | inl (a, p, c) ↦ rw c.result (k a c)
    | inr (same, _, _, _) ↦ stay same
  ]

  committed :
      {A : Type 0} (fn : Action e A) (w : World e) {a : A} {w' : World e} (c : Committed fn w a w')
      (left : e.Db)
      → (c.left).db ≡ left
      → Transaction e w.db c.begun left c.db'
  committed fn w c left same = record {
    begin_ok = c.begin_ok;
    commit_ok = ap (e.commit w.db) (sym same) ∙ c.commit_ok;
  }

  -- The insert of the orders, if there are any.
  insert_all_cases :
      (os : List Order) (w : World e)
      → (((insert_all os w).1).db ≡ w.db)
        ⊎ ((result : SqlResult) × (e.named_exec w.db insert_query os
              ≡ ok (((insert_all os w).1).db, result)))
  unfolding insert_all
  insert_all_cases [] w = inl refl
  insert_all_cases (o ∷ os) w = elim (batch_create_cases (o ∷ os) w) [
    | inl same ↦ inl (ap (λ (v : World e). v.db) same)
    | inr i ↦ inr (i.result, rw i.left i.written)
  ]

  pub create_orders-Moves :
      (user_id : ℤ) (items : List RequestItem) → Moves none (create_orders {e = e} user_id items)
  unfolding create_orders
  create_orders-Moves user_id items w good =
      let fn : Action e (List ℤ) = lift (orders_to_create e.lo user_id items) >>= insert_all in
      tx-Move none fn w good.pooled λ ids c.
        let (orders, _, ran) =
          >>=-eq-ok (lift (orders_to_create e.lo user_id items)) insert_all
            (record w { conn = tx; db = c.begun }) c.ran in
        let same : ((insert_all orders (record w { conn = tx; db = c.begun })).1).db ≡ (c.left).db =
          ap (λ (p : Result (List ℤ) × World e). (p.1).db) ran in
        elim (insert_all_cases orders (record w { conn = tx; db = c.begun })) [
          | inl unchanged ↦ write_nothing c.begun (committed fn w c c.begun (sym same ∙ unchanged))
          | inr (result, written) ↦
              insert_orders c.begun (c.left).db orders result (committed fn w c (c.left).db refl)
                (written ∙ ap (λ d. ok (d, result)) same)
        ]

  pub generate_delivery_plan-Moves :
      (laws : DbLaws e) (race : Race) (robot_id : String) (capacity : ℤ)
      → Moves none (generate_delivery_plan {e = e} race robot_id capacity)
  unfolding generate_delivery_plan
  generate_delivery_plan-Moves laws race robot_id capacity =
      with_timeout-Moves none race (exec_tx (plan_delivery robot_id capacity)) λ w good.
        tx-Move none (plan_delivery robot_id capacity) w good.pooled λ plan c.
          let serves = Serves-reads (laws.begin_reads w.db c.begun c.begin_ok) good.serves in
          let (_, _, _, marked) =
            plan_delivery-eq-ok robot_id capacity (record w { conn = tx; db = c.begun }) serves
              c.ran in
          let fn = plan_delivery robot_id capacity in
          elim marked [
            | nothing _ same ↦ write_nothing c.begun (committed fn w c c.begun same)
            | updated sql args built written ↦
                deliver c.begun (c.left).db (order_ids plan.orders)
                  (committed fn w c (c.left).db refl)
                  (record { sql = sql; args = args; built = built; written = written })
          ]
