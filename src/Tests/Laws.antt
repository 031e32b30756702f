-- ===== src/Tests/Laws.antt =====
-- The shop of the tests has the laws that the theorems on the caches ask for.
use shark_42tokyo_tuning.Prelude.{
  ◌≡◌, refl, sym, ap, ◌∙◌, inl, inr, err, panic, no_rows, ℕ, suc, String, false, Option, none, some,
  List, [], ◌∷◌, ◌++◌, map, str_eq, arith, Bool-cases, Result, ok,
}
use shark_42tokyo_tuning.Prelude.Int.{ℤ, pos, eqb_ℤ, contains, lookup}
use shark_42tokyo_tuning.Model.{Order}
use shark_42tokyo_tuning.Env.{Arg, int, text, time, SqlResult}
use shark_42tokyo_tuning.Repository.Session.{insert_session}
use shark_42tokyo_tuning.Repository.Order.Coherent.{DbLaws, SameReads, Serves}
use shark_42tokyo_tuning.Tests.Shop.{
  numbered, next_id, shipping_rows, orders_of, ids_of, set_statuses, updated_rows, count_rows, shop,
  three_orders, empty_caches, warm_world,
}

orders_of-set_statuses :
    (u : ℤ) (status : String) (ids : List ℤ) (d : List Order)
    → orders_of u (set_statuses status ids d) ≡ orders_of u d
orders_of-set_statuses u status ids [] = refl
orders_of-set_statuses u status ids (o ∷ os) =
    ground (arith, orders_of-set_statuses u status ids os)

orders_of-updated_rows :
    (u : ℤ) (q : String) (args : List Arg) (d : List Order)
    → orders_of u (updated_rows q args d) ≡ orders_of u d
orders_of-updated_rows u q (text status ∷ ids) d =
    elim (Bool-cases
      (str_eq q "INSERT INTO user_sessions (session_uuid, user_id, expires_at) VALUES (?, ?, ?)")) [
        | inl b ↦ rw b refl
        | inr b ↦ rw b (orders_of-set_statuses u status (ids_of ids) d)
      ]
orders_of-updated_rows u q (int n ∷ ids) d = refl
orders_of-updated_rows u q (time t ∷ ids) d = refl
orders_of-updated_rows u q [] d = refl

same_rows : {d d' : List Order} → d ≡ d' → SameReads shop d d'
same_rows p = record {
  shipping_eq = ap (λ v. ok (some (shipping_rows v))) p;
  count_eq = λ u. ap (λ v. count_rows (int u ∷ []) v) p;
}

rows_or : {A : Type 0} → A → Result A → A
rows_or a (ok b) = b
rows_or a (err x) = a
rows_or a panic = a

pub ok_inj : {A : Type 0} {a b : A} → ok a ≡ ok b → a ≡ b
unfolding rows_or
ok_inj {a} p = ap (rows_or a) p

pub session_kept : (args : List Arg) (d : List Order) → updated_rows insert_session args d ≡ d
session_kept (text s ∷ args) d = refl
session_kept (int n ∷ args) d = refl
session_kept (time t ∷ args) d = refl
session_kept [] d = refl

orders_of-numbered :
    (u : ℤ) (n : ℕ) (os d : List Order)
    → contains u (map (λ o. o.user_id) os) ≡ false
    → orders_of u (numbered n os ++ d) ≡ orders_of u d
unfolding contains
orders_of-numbered u n [] d h = refl
orders_of-numbered u n (o ∷ os) d h = ground (arith, orders_of-numbered u (suc n) os d)

pub shop_laws : DbLaws shop
shop_laws = record {
  begin_reads = λ d v p. same_rows (ok_inj p);
  commit_reads = λ d v d' p. same_rows (ok_inj p);
  update_counts = λ d d' status ids q args u p r.
      ap (λ n. ok (pos n)) (sym (orders_of-updated_rows u q args d) ∙ ap (orders_of u) (ok_inj r));
  insert_counts = λ d d' r os u p h.
      ap (λ n. ok (pos n))
        (sym (orders_of-numbered u (next_id d) os d h)
          ∙ ap (λ (x : List Order × SqlResult). orders_of u x.0) (ok_inj p));
  session_reads = λ d d' args p. same_rows (sym (session_kept args d) ∙ ok_inj p);
}

pub Serves-cold : Serves shop three_orders empty_caches
unfolding lookup
Serves-cold = record { shipping_held = λ l p. cc; count_held = λ u n p. cc }

abbrev held_count : Option ℤ → Result ℤ
held_count none = err no_rows
held_count (some n) = ok n

pub Serves-warm : Serves shop three_orders warm_world.order_state
unfolding lookup
Serves-warm = record {
  shipping_held = λ l p. ap (λ x. ok x) p;
  count_held = λ u n p. elim (Bool-cases (eqb_ℤ (pos 1) u)) [
    | inl same ↦ rw same (ap held_count (rw same at p))
    | inr other ↦ cc (rw other at p)
  ];
}
