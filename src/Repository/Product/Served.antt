-- ===== src/Repository/Product/Served.antt =====
-- The cache of product totals against what the database counts.
use shark_42tokyo_tuning.Prelude.{
  ◌≡◌, refl, sym, ap, ◌∙◌, inl, inr, String, Option, none, some, concat, str_eq, eq_iff, Result, ok,
  panic, Result-cases, Bool-cases, Option-cases,
}
use shark_42tokyo_tuning.Prelude.Int.{ℤ}
use shark_42tokyo_tuning.Prelude.Texts.{trim_space}
use shark_42tokyo_tuning.Env.{Env}
use shark_42tokyo_tuning.World.{World}
use shark_42tokyo_tuning.Repository.Product.{where_clause, pattern_args, total_from, list_total}

module _ (e : Env) where
  -- The count that the database reads for a search.
  abbrev pub total_of : e.Db → String → Result ℤ
  total_of d search =
      e.get_int d (concat "SELECT COUNT(1) FROM products " (where_clause (trim_space search)))
        (pattern_args (trim_space search))

  -- Every cached total is the count of the database for the text that it is cached by.
  abbrev pub TotalsServed : e.Db → (e.count_lru).Cache → Type 0
  TotalsServed d cache =
      (search : String) (n : ℤ)
      → (e.count_lru).contents cache search ≡ some n
      → total_of d search ≡ ok n

some_ok : {m n : ℤ} → some m ≡ some n → Path (Result ℤ) (ok m) (ok n)
some_ok p = ap (λ (v : Option ℤ). elim v [ none ↦ panic | some n ↦ ok n ]) p

module _ (e : Env) where
  TotalsServed-get :
      (d : e.Db) (cache : (e.count_lru).Cache) (text : String)
      → TotalsServed e d cache
      → TotalsServed e d ((e.count_lru).get cache text).1
  TotalsServed-get d cache text h j n p = h j n (sym ((e.count_lru).contents-get cache text j) ∙ p)

  TotalsServed-add :
      (d : e.Db) (cache : (e.count_lru).Cache) (text : String) (total : ℤ)
      → total_of e d text ≡ ok total
      → TotalsServed e d cache
      → TotalsServed e d ((e.count_lru).add cache text total)
  TotalsServed-add d cache text total counted h j n p =
      let l = e.count_lru in
      elim (Bool-cases (str_eq j text)) [
        | inl same ↦
            let eq = (eq_iff j text).0 same in
            ap (total_of e d) eq
            ∙ counted
            ∙ some_ok (
                sym (l.contents-add_self cache text total)
                ∙ sym (ap (l.contents (l.add cache text total)) eq)
                ∙ p)
        | inr other ↦ elim (l.contents-add_ne cache text j total (λ q. cc ((eq_iff j text).1 q))) [
          | inl kept ↦ h j n (sym kept ∙ p)
          | inr gone ↦ cc
        ]
      ]

module _ {e : Env} where
  -- With a cache whose totals the database counts, the total of a product list is the count that
  -- the database reads for its search; the database and the caches of orders are left alone, and the
  -- totals that are cached then are still counts of the database.
  pub list_total-Served :
      (search : String) (w : World e)
      → TotalsServed e w.db w.list_count_cache
      → ((list_total search w).0 ≡ total_of e w.db search)
        × (((list_total search w).1).db ≡ w.db)
        × (((list_total search w).1).order_state ≡ w.order_state)
        × TotalsServed e w.db ((list_total search w).1).list_count_cache
  unfolding list_total total_from
  list_total-Served search w h =
      let l = e.count_lru in
      let kept = TotalsServed-get e w.db w.list_count_cache search h in
      elim (Option-cases (l.get w.list_count_cache search).0) [
        | inl missed ↦ elim (Result-cases (total_of e w.db search)) [
          | inl (n, counted) ↦
              rw (missed, counted)
                (refl, refl, refl, TotalsServed-add e w.db _ search n counted kept)
          | inr (inl (x, failed)) ↦ rw (missed, failed) (refl, refl, refl, kept)
          | inr (inr failed) ↦ rw (missed, failed) (refl, refl, refl, kept)
        ]
        | inr (n, hit) ↦
            rw hit
              (sym (h search n (sym (l.get_lem w.list_count_cache search) ∙ hit)), refl, refl, kept)
      ]
