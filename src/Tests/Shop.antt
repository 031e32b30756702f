-- ===== src/Tests/Shop.antt =====
-- A database with one table of orders, and caches, list functions and hashes that compute.
use shark_42tokyo_tuning.Prelude.{
  ◌≡◌, ◌≢◌, refl, ap, inl, inr, ℕ, zero, suc, String, Bool, false, ◌||◌, Option, none, some, List,
  [], ◌∷◌, ◌++◌, map, replicate, if◌then◌else◌, str_eq, eq_iff, concat, arith, ltb, length,
  Bool-cases, Result, ok, err, panic, no_rows, ◌>>=◌,
}
use shark_42tokyo_tuning.Prelude.Int.{ℤ, pos, negsuc, eqb_ℤ}
use shark_42tokyo_tuning.Model.{User, Order, RequestItem}
use shark_42tokyo_tuning.Env.{
  Arg, int, text, time, SqlResult, Database, Lru, Lo, SessionEntry, IsBytes, Crypto, Env,
}
use shark_42tokyo_tuning.World.{pool, OrderRepoState, World}

-- The rows that a status selects, and the orders of a user.
abbrev pub shipping_rows : List Order → List Order
shipping_rows [] = []
shipping_rows (o ∷ os) =
    let rest = shipping_rows os in if str_eq o.shipped_status "shipping" then o ∷ rest else rest

abbrev pub orders_of : ℤ → List Order → ℕ
orders_of u [] = 0
orders_of u (o ∷ os) = let rest = orders_of u os in if eqb_ℤ o.user_id u then suc rest else rest

-- The ids among the arguments of a query.
abbrev pub ids_of : List Arg → List ℤ
ids_of [] = []
ids_of (int n ∷ rest) = n ∷ ids_of rest
ids_of (text s ∷ rest) = ids_of rest
ids_of (time t ∷ rest) = ids_of rest

abbrev pub among : ℤ → List ℤ → Bool
among x [] = false
among x (y ∷ ys) = eqb_ℤ y x || among x ys

abbrev pub set_statuses : String → List ℤ → List Order → List Order
set_statuses status ids [] = []
set_statuses status ids (o ∷ os) =
    let rest = set_statuses status ids os in
    if among o.order_id ids then record o { shipped_status = status } ∷ rest else o ∷ rest

-- The statement that updates statuses has the status before the ids; another writes nothing here.
abbrev pub updated_rows : String → List Arg → List Order → List Order
updated_rows q (text status ∷ ids) d =
    if str_eq q "INSERT INTO user_sessions (session_uuid, user_id, expires_at) VALUES (?, ?, ?)"
    then d
    else set_statuses status (ids_of ids) d
updated_rows q (int n ∷ ids) d = d
updated_rows q (time t ∷ ids) d = d
updated_rows q [] d = d

abbrev pub count_rows : List Arg → List Order → Result ℤ
count_rows (int u ∷ rest) d = ok (pos (orders_of u d))
count_rows (text s ∷ rest) d = err no_rows
count_rows (time t ∷ rest) d = err no_rows
count_rows [] d = err no_rows

abbrev pub alice : User
alice = record { user_id = pos 1; password_hash = "h:secret"; user_name = "alice" }

abbrev pub user_rows : List Arg → Result User
user_rows (text s ∷ rest) = if str_eq s "alice" then ok alice else err no_rows
user_rows (int n ∷ rest) = err no_rows
user_rows (time t ∷ rest) = err no_rows
user_rows [] = err no_rows

abbrev pub rows_inserted : List Order → SqlResult
rows_inserted os = record { last_insert_id = ok (pos 1); rows_affected = ok (pos (length os)) }

-- The ids that AUTO_INCREMENT gives.
abbrev pub id_rank : ℤ → ℕ
id_rank (pos n) = n
id_rank (negsuc n) = 0

abbrev pub next_id : List Order → ℕ
next_id [] = 1
next_id (o ∷ os) =
    let rest = next_id os in
    let own = suc (id_rank o.order_id) in if ltb rest own then own else rest

abbrev pub numbered : ℕ → List Order → List Order
numbered n [] = []
numbered n (o ∷ os) = record o { order_id = pos n } ∷ numbered (suc n) os

abbrev pub insert_rows : List Order → List Order → List Order
insert_rows os d = numbered (next_id d) os ++ d

abbrev pub shop_database : Database
shop_database = record {
  Db = List Order;
  get_int = λ d q args. count_rows args d;
  get_user = λ d q args. user_rows args;
  select_orders = λ d q args. ok (some (shipping_rows d));
  select_rows = λ d q args. ok none;
  select_products = λ d q args. ok none;
  exec = λ d q args. ok (updated_rows q args d);
  named_exec = λ d q os. ok (insert_rows os d, rows_inserted os);
  sqlx_in = λ q status ids. ok (q, text status ∷ map int ids);
  rebind = λ q. q;
  begin = λ d. ok d;
  commit = λ d v. ok v;
}

-- A cache that never makes room.
abbrev pub put : {V : Type 0} → (String → Option V) → String → Option V → String → Option V
put c k v j = if str_eq j k then v else c j

pub put_self : {V : Type 0} (c : String → Option V) (k : String) (v : Option V) → put c k v k ≡ v
put_self c k v = rw ((eq_iff k k).1 refl) refl

pub put_ne :
    {V : Type 0} (c : String → Option V) (k j : String) (v : Option V) → j ≢ k → put c k v j ≡ c j
put_ne c k j v ne = elim (Bool-cases (str_eq j k)) [
  | inl same ↦ absurd (ne ((eq_iff j k).0 same))
  | inr other ↦ rw other refl
]

abbrev pub map_lru : (V : Type 0) → Lru V
map_lru V = record {
  Cache = String → Option V;
  empty = λ k. none;
  contents = λ c k. c k;
  get = λ c k. (c k, c);
  add = λ c k v. put c k (some v);
  remove = λ c k. put c k none;
  contents-empty = λ k. refl;
  get_lem = λ c k. refl;
  contents-get = λ c k j. refl;
  contents-add_self = λ c k v. put_self c k (some v);
  contents-add_ne = λ c k j v ne. inl (put_ne c k j (some v) ne);
  contents-remove_self = λ c k. put_self c k none;
  contents-remove_ne = λ c k j ne. put_ne c k j none ne;
}

abbrev pub repeat_order : ℤ → Order → Result (List Order)
repeat_order (pos n) o = ok (replicate n o)
repeat_order (negsuc n) o = panic

abbrev pub flat : List RequestItem → (RequestItem → Result (List Order)) → Result (List Order)
flat [] f = ok []
flat (i ∷ is) f = f i >>= λ a. flat is f >>= λ b. ok (a ++ b)

abbrev pub plain_lo : Lo
plain_lo = record {
  uniq = λ xs. xs;
  contains-uniq = λ x xs. refl;
  repeat_by = repeat_order;
  repeat_by-pos = λ n o. refl;
  flat_map = flat;
  flat_map-nil = λ f. refl;
  flat_map-cons = λ i is f. refl;
}

pub zeros-IsBytes : (n : ℕ) → IsBytes (replicate n 0)
zeros-IsBytes zero = tt
zeros-IsBytes (suc n) = (omega arith, zeros-IsBytes n)

pub length-zeros : (n : ℕ) → length {A = ℕ} (replicate n 0) ≡ n
length-zeros zero = refl
length-zeros (suc n) = ap suc (length-zeros n)

-- A hash that ends in the password, and a digest of zeros.
abbrev pub plain_crypto : Crypto
plain_crypto = record {
  matches = λ hash password. str_eq hash (concat "h:" password);
  sha256 = λ s. replicate 32 0;
  length-sha256 = λ s. length-zeros 32;
  sha256-IsBytes = λ s. zeros-IsBytes 32;
}

abbrev pub shop : Env
shop = record {
  database = shop_database;
  lo = plain_lo;
  crypto = plain_crypto;
  session_lru = map_lru SessionEntry;
  count_lru = map_lru ℤ;
}

abbrev pub order_of : ℕ → ℕ → ℕ → Order
order_of id weight value = record {
  order_id = pos id;
  user_id = pos 1;
  product_id = pos id;
  product_name = "";
  shipped_status = "shipping";
  weight = pos weight;
  value = pos value;
  created_at = 0;
  arrived_at = none;
}

-- With room for 5, the first two together are worth more than the third.
abbrev pub three_orders : List Order
three_orders = order_of 1 2 30 ∷ order_of 2 3 30 ∷ order_of 3 5 50 ∷ []

abbrev pub empty_caches : OrderRepoState
empty_caches = record {
  shipping_orders_version = pos 0;
  shipping_orders_cache = none;
  count_by_user = [];
}

abbrev pub shop_world : World shop
shop_world = record {
  conn = pool;
  db = three_orders;
  order_state = empty_caches;
  session_cache = λ k. none;
  list_count_cache = λ k. none;
  password_cache = [];
}

-- The same shop with its caches filled.
abbrev pub warm_world : World shop
warm_world = record shop_world {
  order_state = record {
    shipping_orders_version = pos 4;
    shipping_orders_cache = some three_orders;
    count_by_user = (pos 1, pos 3) ∷ [];
  };
}
