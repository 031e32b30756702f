-- ===== src/Api/Services.antt =====
-- The services, and the invariant of the server's state.
use shark_42tokyo_tuning.Prelude.{
  ◌≡◌, inl, inr, ℕ, ◌+◌, String, Option, none, some, List, [], ◌∷◌, Result, Error, ok, err, panic,
  internal_server, Result-cases, Bool-cases, str_eq, concat,
}
use shark_42tokyo_tuning.Prelude.Int.{ℤ, pos, eqb_ℤ}
use shark_42tokyo_tuning.Prelude.Texts.{trim_space}
use shark_42tokyo_tuning.Model.{Time, ListRequest, RequestItem, User}
use shark_42tokyo_tuning.Env.{Env, Arg, int, text, time}
use shark_42tokyo_tuning.World.{pool, World, Action, query}
use shark_42tokyo_tuning.Repository.Store.{exec_tx}
use shark_42tokyo_tuning.Repository.Order.{
  update_statuses, cached_count, fetch_page, list_searched, list_all, list_orders, join_and,
  search_pattern, search_count_query,
}
use shark_42tokyo_tuning.Repository.Order.Coherent.{DbLaws, Serves, Serves-reads}
use shark_42tokyo_tuning.Repository.Order.Methods.{update_statuses_cases, cached_count-ReadsThrough}
use shark_42tokyo_tuning.Repository.Product.{list_products, list_total, total_from}
use shark_42tokyo_tuning.Repository.User.{find_by_user_name}
use shark_42tokyo_tuning.Repository.Session.{insert_session, create, exec_insert, remember}
use shark_42tokyo_tuning.Service.Auth.{
  session_duration, make_password_cache_key, holds, mapping_error, lookup_failed, check_password,
  start_session, admit, log_in, login,
}
use shark_42tokyo_tuning.Service.Auth.Password.{check_password-Vouched}
use shark_42tokyo_tuning.Service.Timeout.{Race, finishes, with_timeout}
use shark_42tokyo_tuning.Service.Order.{fetch_orders}
use shark_42tokyo_tuning.Service.Robot.{plan_delivery, generate_delivery_plan, update_order_status}
use shark_42tokyo_tuning.Service.Robot.Coherent.{
  generate_delivery_plan-Serves, update_order_status-Serves,
}
use shark_42tokyo_tuning.Service.Product.{create_orders, fetch_products}
use shark_42tokyo_tuning.Service.Product.Coherent.{create_orders-Serves}
use shark_42tokyo_tuning.Api.Frame.{
  exec_tx-SamePasswords, exec_tx-pooled, plan_delivery-SamePasswords, create_orders-SamePasswords,
  update_statuses-SamePasswords,
}
use shark_42tokyo_tuning.Api.Good.{IsGood, Safe, >>=-Safe, continue-Safe, with_timeout-Safe}

module _ {e : Env} (laws : DbLaws e) where
  -- The state after an action that left the passwords alone.
  IsGood-after :
      (w w' : World e)
      → w'.conn ≡ pool
      → Serves e w'.db w'.order_state
      → w'.password_cache ≡ w.password_cache
      → IsGood w
      → IsGood w'
  IsGood-after w w' p s same good = record {
    pooled = p;
    serves = s;
    vouched = rw same (good.vouched);
  }

  pub generate_delivery_plan-Safe :
      (race : Race) (robot_id : String) (capacity : ℤ)
      → Safe (generate_delivery_plan {e = e} race robot_id capacity)
  unfolding generate_delivery_plan with_timeout
  generate_delivery_plan-Safe race robot_id capacity = with_timeout-Safe race _ λ w good.
      IsGood-after w (exec_tx (plan_delivery robot_id capacity) w).1
        (exec_tx-pooled _ w good.pooled)
        (generate_delivery_plan-Serves laws finishes robot_id capacity w good.pooled good.serves)
        (exec_tx-SamePasswords (plan_delivery robot_id capacity)
          (plan_delivery-SamePasswords robot_id capacity) w)
        good

  pub create_orders-Safe :
      (user_id : ℤ) (items : List RequestItem) → Safe (create_orders {e = e} user_id items)
  unfolding create_orders
  create_orders-Safe user_id items w good =
      IsGood-after w (create_orders user_id items w).1 (exec_tx-pooled _ w good.pooled)
        (create_orders-Serves laws user_id items w good.pooled good.serves)
        (create_orders-SamePasswords user_id items w) good

  update_statuses-pooled :
      (i : ℤ) (is : List ℤ) (status : String) (w : World e)
      → w.conn ≡ pool
      → ((update_statuses (i ∷ is) status w).1).conn ≡ pool
  update_statuses-pooled i is status w h = elim (update_statuses_cases i is status w) [
    | inl (same, _) ↦ rw same h
    | inr (u, _) ↦ rw u.left h
  ]

  pub update_order_status-Safe :
      (race : Race) (order_id : ℤ) (status : String)
      → Safe (update_order_status {e = e} race order_id status)
  unfolding update_order_status with_timeout
  update_order_status-Safe race order_id status = with_timeout-Safe race _ λ w good.
      IsGood-after w (update_statuses (order_id ∷ []) status w).1
        (update_statuses-pooled order_id [] status w good.pooled)
        (update_order_status-Serves laws finishes order_id status w good.serves)
        (update_statuses-SamePasswords (order_id ∷ []) status w) good

  -- A session is written to the database and to its cache.
  create-Safe :
      (uuid : Result String) (now : Time) (user_id : ℤ) (duration : ℕ)
      → Safe (create {e = e} uuid now user_id duration)
  unfolding create exec_insert remember
  create-Safe (err x) now user_id duration w good = good
  create-Safe panic now user_id duration w good = good
  create-Safe (ok id) now user_id duration w good =
      elim (Result-cases
        (e.exec w.db insert_session (text id ∷ int user_id ∷ time (now + duration) ∷ []))) [
          | inl (d, x) ↦ rw x (record {
            pooled = good.pooled;
            serves = Serves-reads (laws.session_reads w.db d _ x) good.serves;
            vouched = good.vouched;
          })
          | inr (inl (x, f)) ↦ rw f good
          | inr (inr f) ↦ rw f good
        ]

  mapping_error-Safe :
      {A : Type 0} (f : Error → Error) (m : Action e A) → Safe m → Safe (mapping_error f m)
  unfolding mapping_error
  mapping_error-Safe f m h w good = h w good

  check_password-Safe :
      (user : User) (password : String) → Safe (check_password {e = e} user password)
  unfolding check_password
  check_password-Safe user password w good =
      let vouched = (check_password-Vouched user password w good.vouched).0 in
      elim (Bool-cases
        (holds (make_password_cache_key e.crypto user.password_hash password) w.password_cache)) [
          | inl known ↦ rw known good
          | inr new ↦ elim (Bool-cases ((e.crypto).matches user.password_hash password)) [
            | inl m ↦
                rw (new, m)
                  (record {
                    pooled = good.pooled;
                    serves = good.serves;
                    vouched = rw (new, m) at vouched;
                  })
            | inr no_match ↦ rw (new, no_match) good
          ]
        ]

  pub login-Safe :
      (race : Race) (uuid : Result String) (now : Time) (user_name password : String)
      → Safe (login {e = e} race uuid now user_name password)
  unfolding login log_in admit start_session find_by_user_name
  login-Safe race uuid now user_name password = with_timeout-Safe race _ (
      >>=-Safe _ (admit uuid now password)
        (mapping_error-Safe lookup_failed (find_by_user_name user_name) λ w good. good)
        λ user.
          >>=-Safe (check_password user password) (λ _. start_session uuid now user)
            (check_password-Safe user password)
            λ _.
              mapping_error-Safe (λ x. internal_server)
                (create uuid now user.user_id session_duration)
                (create-Safe uuid now user.user_id session_duration))

  -- A list changes at most the caches of counts.
  fetch_page-Safe :
      (total : ℤ) (conds : String) (args : List Arg) (req : ListRequest)
      → Safe (fetch_page {e = e} total conds args req)
  unfolding fetch_page
  fetch_page-Safe total conds args req w good = elim (Bool-cases (eqb_ℤ total (pos 0))) [
    | inl zero ↦ rw zero good
    | inr some_rows ↦ rw some_rows (continue-Safe _ _ (λ rows v g. g) w good)
  ]

  cached_count-Safe : (user_id : ℤ) → Safe (cached_count {e = e} user_id)
  cached_count-Safe user_id w good =
      let (read, (s, left, serves)) = cached_count-ReadsThrough user_id w good.serves in
      rw left (record { pooled = good.pooled; serves = serves; vouched = good.vouched })

  list_all-Safe : (user_id : ℤ) (req : ListRequest) → Safe (list_all {e = e} user_id req)
  unfolding list_all
  list_all-Safe user_id req =
      >>=-Safe (cached_count user_id)
        (λ total. fetch_page total (join_and ("o.user_id = ?" ∷ [])) (int user_id ∷ []) req)
        (cached_count-Safe user_id) (λ total. fetch_page-Safe total _ (int user_id ∷ []) req)

  list_searched-Safe :
      (user_id : ℤ) (s : String) (req : ListRequest) → Safe (list_searched {e = e} user_id s req)
  unfolding list_searched
  list_searched-Safe user_id s req w good =
      let conds = join_and ("o.user_id = ?" ∷ "p.name LIKE ?" ∷ []) in
      let args = int user_id ∷ text (search_pattern s req.match_type) ∷ [] in
      continue-Safe (e.get_int w.db (search_count_query conds) args)
        (λ total. fetch_page total conds args req) (λ total. fetch_page-Safe total conds args req) w
        good

  list_orders-Safe : (user_id : ℤ) (req : ListRequest) → Safe (list_orders {e = e} user_id req)
  unfolding list_orders
  list_orders-Safe user_id req w good = elim (Bool-cases (str_eq (trim_space req.search) "")) [
    | inl all ↦ rw all (list_all-Safe user_id req w good)
    | inr searched ↦ rw searched (list_searched-Safe user_id (trim_space req.search) req w good)
  ]

  pub fetch_orders-Safe :
      (race : Race) (user_id : ℤ) (req : ListRequest) → Safe (fetch_orders {e = e} race user_id req)
  unfolding fetch_orders
  fetch_orders-Safe race user_id req =
      with_timeout-Safe race (list_orders user_id req) (list_orders-Safe user_id req)

  total_from-Safe :
      (search filter : String) (args : List Arg) (c : Option ℤ)
      → Safe (total_from {e = e} search filter args c)
  unfolding total_from
  total_from-Safe search filter args (some v) w good = good
  total_from-Safe search filter args none w good =
      continue-Safe (e.get_int w.db (concat "SELECT COUNT(1) FROM products " filter) args) _
        (λ total v g. record { pooled = g.pooled; serves = g.serves; vouched = g.vouched }) w good

  list_total-Safe : (search : String) → Safe (list_total {e = e} search)
  unfolding list_total
  list_total-Safe search w good =
      total_from-Safe search _ _ _ _
        (record { pooled = good.pooled; serves = good.serves; vouched = good.vouched })

  pub fetch_products-Safe : (req : ListRequest) → Safe (fetch_products {e = e} req)
  unfolding fetch_products list_products
  fetch_products-Safe req =
      >>=-Safe (list_total req.search) _ (list_total-Safe req.search)
        λ total. >>=-Safe (query _) _ (λ w good. good) (λ products w good. good)
