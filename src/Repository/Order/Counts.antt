-- ===== src/Repository/Order/Counts.antt =====
-- The sections of `ListOrders` that count a user's orders against the writers of orders:
-- repository/order.go, taken apart at the lock. Of the database, the number of orders of each user.
pub mod Short
use shark_42tokyo_tuning.Prelude.{
  ℕ, suc, ◌+◌, ◌≡◌, ◌==◌, if◌then◌else◌, none, some, List, [], ◌∷◌, ◌++◌,
}
use shark_42tokyo_tuning.Prelude.Int.{ℤ, pos, eqb_ℤ, lookup, insert}
use shark_42tokyo_tuning.Env.{Lo}
use shark_42tokyo_tuning.World.{OrderRepoState}
use shark_42tokyo_tuning.Repository.Order.{drop_shipping, counts_dropped}

-- Where a call of `ListOrders` without a search stands: before its first section; behind a miss of
-- the user's count; behind its query; and with its total.
pub data Lister : Type 0 where
  idle : Lister
  missed : (user_id : ℤ) → Lister
  counted : (user_id total : ℤ) → Lister
  listed : (user_id total : ℤ) → Lister

-- `uncommitted` holds, for each open transaction that has dropped the counts, the users of the
-- orders that it has inserted.
pub record System : Type 0 where
  pub db : ℤ → ℕ
  pub order_state : OrderRepoState
  pub listers : ℕ → Lister
  pub uncommitted : List (List ℤ)

abbrev pub update : (ℕ → Lister) → ℕ → Lister → ℕ → Lister
update f i r j = if i == j then r else f j

-- How many of the orders are the user's.
unfoldable pub orders_of : ℤ → List ℤ → ℕ
orders_of u [] = 0
orders_of u (v ∷ vs) = let rest = orders_of u vs in if eqb_ℤ v u then suc rest else rest

-- One section, query, commit or rollback.
pub data Step (lo : Lo) (s : System) : System → Type 0 where
  hit :
      (i : ℕ) (u n : ℤ)
      → s.listers i ≡ idle
      → lookup u s.order_state.count_by_user ≡ some n
      → Step lo s (record s { listers = update s.listers i (listed u n) })
  miss :
      (i : ℕ) (u : ℤ)
      → s.listers i ≡ idle
      → lookup u s.order_state.count_by_user ≡ none
      → Step lo s (record s { listers = update s.listers i (missed u) })
  count :
      (i : ℕ) (u : ℤ)
      → s.listers i ≡ missed u
      → Step lo s (record s { listers = update s.listers i (counted u (pos (s.db u))) })
  store :
      (i : ℕ) (u n : ℤ)
      → s.listers i ≡ counted u n
      → Step lo s (record s {
        order_state = record s.order_state {
          count_by_user = insert u n s.order_state.count_by_user;
        };
        listers = update s.listers i (listed u n);
      })
  again : (i : ℕ) → Step lo s (record s { listers = update s.listers i idle })
  -- `BatchCreate` drops the counts behind its statement; a commit, or a rollback, follows.
  drop_in_tx :
      (u : ℤ) (us : List ℤ)
      → Step lo s (record s {
        order_state = counts_dropped lo.uniq (u ∷ us) s.order_state;
        uncommitted = (u ∷ us) ∷ s.uncommitted;
      })
  commit :
      (before : List (List ℤ)) (us : List ℤ) (after : List (List ℤ))
      → s.uncommitted ≡ before ++ us ∷ after
      → Step lo s (record s { db = λ u. orders_of u us + s.db u; uncommitted = before ++ after })
  roll_back :
      (before : List (List ℤ)) (us : List ℤ) (after : List (List ℤ))
      → s.uncommitted ≡ before ++ us ∷ after
      → Step lo s (record s { uncommitted = before ++ after })
  -- `UpdateStatuses`
  set_statuses : Step lo s (record s { order_state = drop_shipping s.order_state })

pub data Reach (lo : Lo) (s : System) : System → Type 0 where
  here : Reach lo s s
  next : {t u : System} → Reach lo s t → Step lo t u → Reach lo s u

-- Nothing is cached, and nothing is under way.
abbrev pub start : (ℤ → ℕ) → System
start db = record {
  db = db;
  order_state = record {
    shipping_orders_version = pos 0;
    shipping_orders_cache = none;
    count_by_user = [];
  };
  listers = λ i. idle;
  uncommitted = [];
}
