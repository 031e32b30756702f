-- ===== src/Repository/Order/Coherent.antt =====
-- The caches of the order repository against what the database reads.
use shark_42tokyo_tuning.Prelude.{
  ◌≡◌, refl, sym, ap, ◌∙◌, String, Bool, true, false, Option, none, some, List, [], ◌∷◌, map, arith,
  if◌then◌else◌, Result, ok,
}
use shark_42tokyo_tuning.Prelude.Int.{
  ℤ, eqb_ℤ_iff, IntMap, lookup, insert, delete, contains, lookup-delete, lookup-insert,
}
use shark_42tokyo_tuning.Model.{Order}
use shark_42tokyo_tuning.Env.{Env, Arg, int, Slice, SqlResult}
use shark_42tokyo_tuning.World.{OrderRepoState}
use shark_42tokyo_tuning.Repository.Session.{insert_session}
use shark_42tokyo_tuning.Repository.Order.{
  insert_query, update_query, shipping_query, count_query, shipped_status_enum_shipping,
  drop_shipping, delete_all, counts_dropped, store_shipping,
}

module _ (e : Env) where
  -- What the database reads for the two cached queries.
  abbrev pub shipping : e.Db → Result (Slice Order)
  shipping d = e.select_orders d shipping_query (int shipped_status_enum_shipping ∷ [])

  abbrev pub count_of : ℤ → e.Db → Result ℤ
  count_of u d = e.get_int d count_query (int u ∷ [])

  pub record SameReads (d d' : e.Db) : Type 0 where
    pub shipping_eq : shipping d ≡ shipping d'
    pub count_eq : (u : ℤ) → count_of u d ≡ count_of u d'

  -- What MySQL and sqlx promise when no other connection writes: a new transaction reads what its
  -- base reads, a commit keeps what the transaction reads, an update of statuses changes no
  -- user's count, an insert changes the counts of the inserted users alone, and a new session is
  -- no order.
  pub record DbLaws : Type 0 where
    pub begin_reads : (d v : e.Db) → e.begin d ≡ ok v → SameReads d v
    pub commit_reads : (d v d' : e.Db) → e.commit d v ≡ ok d' → SameReads v d'
    pub update_counts :
        (d d' : e.Db) (status : String) (ids : List ℤ) (q : String) (args : List Arg) (u : ℤ)
        → e.sqlx_in update_query status ids ≡ ok (q, args)
        → e.exec d (e.rebind q) args ≡ ok d'
        → count_of u d ≡ count_of u d'
    pub insert_counts :
        (d d' : e.Db) (r : SqlResult) (orders : List Order) (u : ℤ)
        → e.named_exec d insert_query orders ≡ ok (d', r)
        → contains u (map (λ o. o.user_id) orders) ≡ false
        → count_of u d ≡ count_of u d'
    pub session_reads :
        (d d' : e.Db) (args : List Arg) → e.exec d insert_session args ≡ ok d' → SameReads d d'

  -- What the caches hold is what the database reads.
  pub record Serves (d : e.Db) (s : OrderRepoState) : Type 0 where
    pub shipping_held :
        (l : List Order) → s.shipping_orders_cache ≡ some l → shipping d ≡ ok (some l)
    pub count_held : (u n : ℤ) → lookup u s.count_by_user ≡ some n → count_of u d ≡ ok n

pub lookup-delete_all :
    (us : List ℤ) (u : ℤ) (m : IntMap)
    → lookup u (delete_all us m) ≡ (if contains u us then none else lookup u m)
unfolding delete_all contains
lookup-delete_all [] u m = refl
lookup-delete_all (v ∷ us) u m =
    ground (arith, lookup-delete_all us u (delete v m), lookup-delete v u m)

-- A count that is still cached is that of another user.
dropped_count :
    {c c' : Result ℤ} {held : Option ℤ} {n : ℤ} (b : Bool)
    → (b ≡ false → c ≡ c')
    → (held ≡ some n → c ≡ ok n)
    → (if b then none else held) ≡ some n
    → c' ≡ ok n
dropped_count true same h p = cc
dropped_count false same h p = sym (same refl) ∙ h p

module _ {e : Env} where
  pub SameReads-sym : {d d' : e.Db} → SameReads e d d' → SameReads e d' d
  SameReads-sym h = record { shipping_eq = sym h.shipping_eq; count_eq = λ u. sym (h.count_eq u) }

  pub Serves-reads :
      {d d' : e.Db} {s : OrderRepoState} → SameReads e d d' → Serves e d s → Serves e d' s
  Serves-reads same h = record {
    shipping_held = λ l p. sym same.shipping_eq ∙ h.shipping_held l p;
    count_held = λ u n p. sym (same.count_eq u) ∙ h.count_held u n p;
  }

  pub Serves-drop_shipping :
      {d d' : e.Db} {s : OrderRepoState}
      → ((u : ℤ) → count_of e u d ≡ count_of e u d')
      → Serves e d s
      → Serves e d' (drop_shipping s)
  unfolding drop_shipping
  Serves-drop_shipping same h = record {
    shipping_held = λ l p. cc;
    count_held = λ u n p. sym (same u) ∙ h.count_held u n p;
  }

  pub Serves-counts_dropped :
      {d d' : e.Db} {s : OrderRepoState} (us : List ℤ)
      → ((u : ℤ) → contains u us ≡ false → count_of e u d ≡ count_of e u d')
      → Serves e d s
      → Serves e d' (counts_dropped (e.lo).uniq us s)
  unfolding counts_dropped lookup
  Serves-counts_dropped [] same h = record { shipping_held = λ l p. cc; count_held = λ u n p. cc }
  Serves-counts_dropped {s} (v ∷ us) same h = record {
    shipping_held = λ l p. cc;
    count_held = λ u n p. dropped_count (contains u (v ∷ us)) (same u) (h.count_held u n) (
        sym (
          lookup-delete_all ((e.lo).uniq (v ∷ us)) u s.count_by_user
          ∙ ap (λ b. if b then none else lookup u s.count_by_user)
              ((e.lo).contains-uniq u (v ∷ us)))
        ∙ p);
  }

  pub Serves-store_shipping :
      {d : e.Db} {s : OrderRepoState} (ver : ℤ) (orders : Slice Order)
      → shipping e d ≡ ok orders
      → Serves e d s
      → Serves e d (store_shipping ver orders s)
  unfolding store_shipping
  Serves-store_shipping {d} {s} ver orders q h = record {
    shipping_held = λ l p. ground (arith, h.shipping_held l);
    count_held = λ u n p. ground (arith, h.count_held u n);
  }

  pub Serves-count :
      {d : e.Db} {s : OrderRepoState} (u n : ℤ)
      → count_of e u d ≡ ok n
      → Serves e d s
      → Serves e d (record s { count_by_user = insert u n s.count_by_user })
  Serves-count {d} {s} u n q h = record {
    shipping_held = h.shipping_held;
    count_held = λ v k p.
        ground (arith, lookup-insert u v n s.count_by_user, eqb_ℤ_iff u v, h.count_held v k);
  }
