-- ===== src/Repository/Order/Race.antt =====
-- The critical sections of `GetShippingOrders` against the writers of orders: repository/order.go,
-- taken apart at the lock. The database is what the query of the shipping orders reads.
pub mod Current
pub mod Stale
use shark_42tokyo_tuning.Prelude.{
  ℕ, suc, ◌+◌, ◌^◌, ◌<◌, ◌≡◌, Bool, true, false, none, some, List, [], ◌∷◌, if◌then◌else◌, ◌==◌,
}
use shark_42tokyo_tuning.Prelude.Int.{ℤ, pos}
use shark_42tokyo_tuning.Model.{Order}
use shark_42tokyo_tuning.Env.{Slice}
use shark_42tokyo_tuning.World.{OrderRepoState}
use shark_42tokyo_tuning.Repository.Order.{drop_shipping, store_shipping}

-- Where a call of `GetShippingOrders` stands: before its first section; behind a miss, with the
-- version that it saw; behind its query; and returned.
pub data Reader : Type 0 where
  idle : Reader
  missed : (version : ℤ) → Reader
  fetched : (version : ℤ) (rows : Slice Order) → Reader
  returned : (rows : Slice Order) → Reader

-- `writing` counts the updates on the pool that are written and have not dropped the cache yet;
-- `uncommitted` holds, for each open transaction that has dropped the cache, the rows that its
-- commit leaves.
pub record System : Type 0 where
  pub db : Slice Order
  pub order_state : OrderRepoState
  pub readers : ℕ → Reader
  pub writing : ℕ
  pub uncommitted : List (Slice Order)

abbrev pub update : (ℕ → Reader) → ℕ → Reader → ℕ → Reader
update f i r j = if i == j then r else f j

-- The version counts up below the greatest int.
abbrev pub Counts : OrderRepoState → Type 0
Counts s = (n : ℕ) × (s.shipping_orders_version ≡ pos n) × (n + 1 < 2 ^ 63)

-- One section, query or commit. The steps of transactions are taken if `with_tx` is true.
pub data Step (with_tx : Bool) (s : System) : System → Type 0 where
  hit :
      (i : ℕ) (l : List Order)
      → s.readers i ≡ idle
      → s.order_state.shipping_orders_cache ≡ some l
      → Step with_tx s (record s { readers = update s.readers i (returned (some l)) })
  miss :
      (i : ℕ)
      → s.readers i ≡ idle
      → s.order_state.shipping_orders_cache ≡ none
      → Step with_tx s
          (record s { readers = update s.readers i (missed s.order_state.shipping_orders_version) })
  fetch :
      (i : ℕ) (v : ℤ)
      → s.readers i ≡ missed v
      → Step with_tx s (record s { readers = update s.readers i (fetched v s.db) })
  store :
      (i : ℕ) (v : ℤ) (rows : Slice Order)
      → s.readers i ≡ fetched v rows
      → Step with_tx s (record s {
        order_state = store_shipping v rows s.order_state;
        readers = update s.readers i (returned rows);
      })
  again : (i : ℕ) → Step with_tx s (record s { readers = update s.readers i idle })
  -- `UpdateStatuses` on the pool: its statement, and `onUpdateShippingOnly`.
  write : (rows : Slice Order) → Step with_tx s (record s { db = rows; writing = suc s.writing })
  drop :
      (n : ℕ)
      → s.writing ≡ suc n
      → Counts s.order_state
      → Step with_tx s (record s { order_state = drop_shipping s.order_state; writing = n })
  -- A method in a transaction drops the cache behind its statement; the commit follows.
  drop_in_tx :
      (rows : Slice Order)
      → with_tx ≡ true
      → Counts s.order_state
      → Step with_tx s (record s {
        order_state = drop_shipping s.order_state;
        uncommitted = rows ∷ s.uncommitted;
      })
  commit :
      (rows : Slice Order) (rest : List (Slice Order))
      → with_tx ≡ true
      → s.uncommitted ≡ rows ∷ rest
      → Step with_tx s (record s { db = rows; uncommitted = rest })

pub data Reach (with_tx : Bool) (s : System) : System → Type 0 where
  here : Reach with_tx s s
  next : {t u : System} → Reach with_tx s t → Step with_tx t u → Reach with_tx s u

-- Nothing is cached, and nothing is under way.
abbrev pub start : Slice Order → System
start db = record {
  db = db;
  order_state = record {
    shipping_orders_version = pos 0;
    shipping_orders_cache = none;
    count_by_user = [];
  };
  readers = λ i. idle;
  writing = 0;
  uncommitted = [];
}
