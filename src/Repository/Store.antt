-- ===== src/Repository/Store.antt =====
-- webapp/backend/internal/repository/store.go
pub mod Transaction
use shark_42tokyo_tuning.Prelude.{ok, err, panic, Result, Error, some, none, [], ◌∷◌}
use shark_42tokyo_tuning.Prelude.Int.{ℤ, pos}
use shark_42tokyo_tuning.Env.{SessionEntry, Env, Lru}
use shark_42tokyo_tuning.World.{OrderRepoState, Conn, pool, tx, World, Action}

-- The state of an order repository, its map made by `newOrderRepository`.
abbrev pub new_order_state : OrderRepoState
new_order_state = record {
  shipping_orders_version = pos 0;
  shipping_orders_cache = none;
  count_by_user = [];
}

-- `initSessionCache` and `initListCountCache`, where the cache is not there yet.
abbrev pub init_session_cache : (lru : Lru SessionEntry) → lru.Cache
init_session_cache lru = lru.empty

abbrev pub init_list_count_cache : (lru : Lru ℤ) → lru.Cache
init_list_count_cache lru = lru.empty

module _ {e : Env} where
  -- `NewStore`: every cache is empty.
  unfoldable pub new_store : e.Db → World e
  new_store d = record {
    conn = pool;
    db = d;
    order_state = new_order_state;
    session_cache = init_session_cache e.session_lru;
    list_count_cache = init_list_count_cache e.count_lru;
    password_cache = [];
  }

  -- The end of `ExecTx`: an error or a panic rolls back, and so does a commit that fails. The caches
  -- are shared with the transaction's store, so they stay as the function left them.
  unfoldable pub rolled_back : {A : Type 0} → e.Db → Result A → World e → Result A × World e
  rolled_back base r w = (r, record w { conn = pool; db = base })

  -- A commit that returns an error is taken to have written nothing.
  unfoldable pub commit_tx : {A : Type 0} → A → Result e.Db → e.Db → World e → Result A × World e
  unfolding rolled_back
  commit_tx a (ok d) base w = (ok a, record w { conn = pool; db = d })
  commit_tx a (err x) base w = rolled_back base (err x) w
  commit_tx a panic base w = rolled_back base panic w

  unfoldable pub finish_tx : {A : Type 0} → e.Db → Result A → World e → Result A × World e
  unfolding rolled_back commit_tx
  finish_tx base (ok a) w = commit_tx a (e.commit base w.db) base w
  finish_tx base (err x) w = rolled_back base (err x) w
  finish_tx base panic w = rolled_back base panic w

  unfoldable pub in_tx : {A : Type 0} → Result e.Db → Action e A → Action e A
  unfolding finish_tx
  in_tx (ok d) fn w = let (r, w') = fn (record w { conn = tx; db = d }) in finish_tx w.db r w'
  in_tx (err x) fn w = (err x, w)
  in_tx panic fn w = (panic, w)

  unfoldable pub on_conn : {A : Type 0} → Conn → Action e A → Action e A
  unfolding in_tx
  on_conn pool fn w = in_tx (e.begin w.db) fn w
  on_conn tx fn w = fn w

  -- `ExecTx`. A store that is a transaction already runs the function in it.
  unfoldable pub exec_tx : {A : Type 0} → Action e A → Action e A
  unfolding on_conn
  exec_tx fn w = on_conn w.conn fn w
