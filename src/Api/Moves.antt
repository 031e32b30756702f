-- ===== src/Api/Moves.antt =====
-- What a call of the server writes to the database.
mod Reads
mod Services
pub mod Steps
use shark_42tokyo_tuning.Prelude.{◌≡◌, String, Option, none, some, List, [], ◌∷◌, ok}
use shark_42tokyo_tuning.Prelude.Int.{ℤ}
use shark_42tokyo_tuning.Model.{Order}
use shark_42tokyo_tuning.Env.{Env, Arg, SqlResult}
use shark_42tokyo_tuning.World.{World}
use shark_42tokyo_tuning.Repository.Session.{insert_session}
use shark_42tokyo_tuning.Repository.Order.{insert_query, update_query}
use shark_42tokyo_tuning.Api.{
  Step, authenticate, sign_in, see_products, buy, see_orders, plan, report,
}

module _ (e : Env) where
  -- The statement that sets the status of the orders with the ids.
  pub record Update (d : e.Db) (ids : List ℤ) (status : String) (d' : e.Db) : Type 0 where
    pub sql : String
    pub args : List Arg
    pub built : e.sqlx_in update_query status ids ≡ ok (sql, args)
    pub written : e.exec d (e.rebind sql) args ≡ ok d'

  -- A transaction on `d` that read `begun`, left `left`, and was committed as `d'`.
  pub record Transaction (d begun left d' : e.Db) : Type 0 where
    pub begin_ok : e.begin d ≡ ok begun
    pub commit_ok : e.commit d left ≡ ok d'

  -- Nothing is written; or one session; or one status, that which a robot has reported; or one
  -- transaction is committed, which has written nothing, one batch of orders, or one status
  -- "delivering".
  pub data Move (reported : Option (ℤ × String)) (d d' : e.Db) : Type 0 where
    stay : d' ≡ d → Move reported d d'
    start_session : (args : List Arg) → e.exec d insert_session args ≡ ok d' → Move reported d d'
    set_status :
        (id : ℤ) (status : String)
        → reported ≡ some (id, status)
        → Update d (id ∷ []) status d'
        → Move reported d d'
    write_nothing : (begun : e.Db) → Transaction d begun begun d' → Move reported d d'
    insert_orders :
        (begun left : e.Db) (orders : List Order) (result : SqlResult)
        → Transaction d begun left d'
        → e.named_exec begun insert_query orders ≡ ok (left, result)
        → Move reported d d'
    deliver :
        (begun left : e.Db) (ids : List ℤ)
        → Transaction d begun left d'
        → Update begun ids "delivering" left
        → Move reported d d'

module _ {e : Env} where
  -- The order and the status that a call reports.
  abbrev pub reported_by : {w w' : World e} → Step w w' → Option (ℤ × String)
  reported_by (authenticate now session_id) = none
  reported_by (sign_in race uuid now body) = none
  reported_by (see_products user body) = none
  reported_by (buy user body) = none
  reported_by (see_orders race user body) = none
  reported_by (plan race capacity) = none
  reported_by (report race none) = none
  reported_by (report race (some req)) = some (req.order_id, req.new_status)
