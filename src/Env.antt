-- ===== src/Env.antt =====
-- What the backend calls and does not implement: MySQL through sqlx, the LRU caches of golang-lru,
-- the list functions of samber/lo, bcrypt and SHA-256. Each is a record of operations, with the
-- documented laws that the theorems use.
use shark_42tokyo_tuning.Prelude.{
  ℕ, String, Bool, Option, none, some, List, [], ◌∷◌, ◌++◌, ◌≡◌, ◌≢◌, ◌<◌, ◌⊎◌, replicate, Result,
  ok, ◌>>=◌, length,
}
use shark_42tokyo_tuning.Prelude.Int.{ℤ, pos, contains}
use shark_42tokyo_tuning.Model.{Time, User, Product, Order, RequestItem}

-- An argument of a query.
pub data Arg : Type 0 where
  int : ℤ → Arg
  text : String → Arg
  time : Time → Arg

-- A Go slice: nil, or its elements.
abbrev pub Slice : Type 0 → Type 0
Slice A = Option (List A)

abbrev pub elems : {A : Type 0} → Slice A → List A
elems none = []
elems (some xs) = xs

-- The local type `row` of `ListOrders`.
pub record OrderRow : Type 0 where
  pub order_id : ℤ
  pub product_id : ℤ
  pub product_name : String
  pub shipped_status : String
  pub created_at : Option Time
  pub arrived_at : Option Time

-- `sql.Result`.
pub record SqlResult : Type 0 where
  pub last_insert_id : Result ℤ
  pub rows_affected : Result ℤ

-- `DBTX` and the transactions of sqlx. A `Db` is what a connection, or a transaction, reads; a
-- write returns what is read after it.
pub record Database : Type 1 where
  pub Db : Type 0
  pub get_int : Db → String → List Arg → Result ℤ
  pub get_user : Db → String → List Arg → Result User
  pub select_orders : Db → String → List Arg → Result (Slice Order)
  pub select_rows : Db → String → List Arg → Result (Slice OrderRow)
  pub select_products : Db → String → List Arg → Result (Slice Product)
  pub exec : Db → String → List Arg → Result Db
  pub named_exec : Db → String → List Order → Result (Db × SqlResult)
  -- `sqlx.In` on a text and a list of ids, and `Rebind`.
  pub sqlx_in : String → String → List ℤ → Result (String × List Arg)
  pub rebind : String → String
  -- `BeginTxx`, and `Commit` of a transaction on its base.
  pub begin : Db → Result Db
  pub commit : Db → Db → Result Db

-- `lru.Cache[string, V]`; `contents` is what it holds.
pub record Lru (V : Type 0) : Type 1 where
  pub Cache : Type 0
  pub empty : Cache
  pub contents : Cache → String → Option V
  pub get : Cache → String → Option V × Cache
  pub add : Cache → String → V → Cache
  pub remove : Cache → String → Cache
  pub contents-empty : (k : String) → contents empty k ≡ none
  pub get_lem : (c : Cache) (k : String) → (get c k).0 ≡ contents c k
  pub contents-get : (c : Cache) (k j : String) → contents (get c k).1 j ≡ contents c j
  pub contents-add_self : (c : Cache) (k : String) (v : V) → contents (add c k v) k ≡ some v
  -- An entry that makes room for another is gone.
  pub contents-add_ne :
      (c : Cache) (k j : String) (v : V)
      → j ≢ k
      → (contents (add c k v) j ≡ contents c j) ⊎ (contents (add c k v) j ≡ none)
  pub contents-remove_self : (c : Cache) (k : String) → contents (remove c k) k ≡ none
  pub contents-remove_ne :
      (c : Cache) (k j : String) → j ≢ k → contents (remove c k) j ≡ contents c j

-- The functions of samber/lo, at the types of their calls. A negative count of `RepeatBy` is left
-- open.
pub record Lo : Type 0 where
  pub uniq : List ℤ → List ℤ
  pub contains-uniq : (x : ℤ) (xs : List ℤ) → contains x (uniq xs) ≡ contains x xs
  pub repeat_by : ℤ → Order → Result (List Order)
  pub repeat_by-pos : (n : ℕ) (o : Order) → repeat_by (pos n) o ≡ ok (replicate n o)
  pub flat_map : List RequestItem → (RequestItem → Result (List Order)) → Result (List Order)
  pub flat_map-nil : (f : RequestItem → Result (List Order)) → flat_map [] f ≡ ok []
  pub flat_map-cons :
      (item : RequestItem) (items : List RequestItem) (f : RequestItem → Result (List Order))
      → flat_map (item ∷ items) f ≡ (f item >>= λ a. flat_map items f >>= λ b. ok (a ++ b))

-- `sessionCacheEntry` of repository/session.go.
pub record SessionEntry : Type 0 where
  pub user_id : ℤ
  pub expires_at : Time

-- Every number of the list is a byte.
abbrev pub IsBytes : List ℕ → Type 0
IsBytes [] = Unit
IsBytes (b ∷ bs) = (b < 256) × IsBytes bs

-- `bcrypt.CompareHashAndPassword(hash, password) == nil`, and `sha256.Sum256`.
pub record Crypto : Type 0 where
  pub matches : String → String → Bool
  pub sha256 : String → List ℕ
  pub length-sha256 : (s : String) → length (sha256 s) ≡ 32
  pub sha256-IsBytes : (s : String) → IsBytes (sha256 s)

pub record Env : Type 1 where
  pub database : Database
  pub open database use {
    Db, get_int, get_user, select_orders, select_rows, select_products, exec, named_exec, sqlx_in,
    rebind, begin, commit,
  }
  pub lo : Lo
  pub crypto : Crypto
  pub session_lru : Lru SessionEntry
  pub count_lru : Lru ℤ
