-- ===== src/Tests/Numbered.antt =====
-- What the small shop promises of the ids of its orders.
use mathlib.Core.Path.{subst}
use shark_42tokyo_tuning.Prelude.{
  ◌≡◌, refl, sym, ap, ◌∙◌, inl, inr, ℕ, suc, ◌<◌, ◌≤◌, arith, String, str_eq, false, true, List, [],
  ◌∷◌, ◌++◌, Result, ok, err, panic, Bool-cases,
}
use shark_42tokyo_tuning.Prelude.Int.{ℤ, pos, negsuc, contains, eqb_ℤ, eqb_ℤ_iff}
use shark_42tokyo_tuning.Prelude.Paths.Elements.{All}
use shark_42tokyo_tuning.Model.{Order}
use shark_42tokyo_tuning.Env.{Arg, SqlResult}
use shark_42tokyo_tuning.Api.Moves.{Update}
use shark_42tokyo_tuning.Api.Planned.{IsOther}
use shark_42tokyo_tuning.Api.Gone.{Ends, Absent, OrderLaws}
use shark_42tokyo_tuning.Tests.Shop.{
  shipping_rows, among, set_statuses, updated_rows, id_rank, next_id, numbered, shop,
}
use shark_42tokyo_tuning.Tests.Laws.{ok_inj, session_kept}
use shark_42tokyo_tuning.Tests.Planning.{ids_of-map, rows_of, shop-MarkedLeave}

-- The rows that a statement that `sqlx.In` has built leaves.
abbrev rows_after : List Order → Result (String × List Arg) → List Order
rows_after d (ok (sql, args)) = updated_rows sql args d
rows_after d (err x) = d
rows_after d panic = d

Update-set_statuses :
    (d d' : List Order) (ids : List ℤ) (status : String)
    → Update shop d ids status d'
    → set_statuses status ids d ≡ d'
Update-set_statuses d d' ids status u =
    ap (λ l. set_statuses status l d) (sym (ids_of-map ids))
    ∙ (ap (rows_after d) u.built ∙ ok_inj u.written)

next_id-head : (o : Order) (os : List Order) → id_rank o.order_id < next_id (o ∷ os)
next_id-head o os = ground arith

next_id-tail : (o : Order) (os : List Order) → next_id os ≤ next_id (o ∷ os)
next_id-tail o os = ground arith

shipping_below :
    (n : ℕ) (d : List Order) → next_id d ≤ n → All (λ o. id_rank o.order_id < n) (shipping_rows d)
shipping_below n [] h = tt
shipping_below n (o ∷ os) h =
    let head = next_id-head o os in
    let tail = next_id-tail o os in
    let rest = shipping_below n os (omega arith) in
    elim (Bool-cases (str_eq o.shipped_status "shipping")) [
      | inl ships ↦ rw ships (omega arith, rest)
      | inr waits ↦ rw waits rest
    ]

next_id-set_statuses :
    (status : String) (ids : List ℤ) (d : List Order)
    → next_id (set_statuses status ids d) ≡ next_id d
next_id-set_statuses status ids [] = refl
next_id-set_statuses status ids (o ∷ os) = ground (arith, next_id-set_statuses status ids os)

next_id-numbered : (n : ℕ) (os d : List Order) → next_id d ≤ next_id (numbered n os ++ d)
next_id-numbered n [] d = omega arith
next_id-numbered n (o ∷ os) d = ground (arith, next_id-numbered (suc n) os d)

above-contains :
    (n : ℕ) (ids : List ℤ) → All (λ i. id_rank i < n) ids → contains (pos n) ids ≡ false
unfolding contains
above-contains n [] all = refl
above-contains n (pos a ∷ ids) all =
    let rest = above-contains n ids all.1 in let h = all.0 in ground arith
above-contains n (negsuc a ∷ ids) all = above-contains n ids all.1

below-suc : (n : ℕ) (ids : List ℤ) → All (λ i. id_rank i < n) ids → All (λ i. id_rank i < suc n) ids
below-suc n [] all = tt
below-suc n (i ∷ ids) all = (let h = all.0 in omega arith, below-suc n ids all.1)

fresh-IsOther :
    (n : ℕ) (ids : List ℤ) (os d : List Order)
    → All (λ i. id_rank i < n) ids
    → All (IsOther ids) (shipping_rows d)
    → All (IsOther ids) (shipping_rows (numbered n os ++ d))
fresh-IsOther n ids [] d below all = all
fresh-IsOther n ids (o ∷ os) d below all =
    let rest = fresh-IsOther (suc n) ids os d (below-suc n ids below) all in
    elim (Bool-cases (str_eq o.shipped_status "shipping")) [
      | inl ships ↦ rw ships (above-contains n ids below, rest)
      | inr waits ↦ rw waits rest
    ]

module _ (P : Order → Type 0) where
  shipping-cons :
      (o : Order) (os : List Order)
      → P o
      → All P (shipping_rows os)
      → All P (shipping_rows (o ∷ os))
  shipping-cons o os p all = elim (Bool-cases (str_eq o.shipped_status "shipping")) [
    | inl ships ↦ rw ships (p, all)
    | inr waits ↦ rw waits all
  ]

  shipping-tail :
      (o : Order) (os : List Order) → All P (shipping_rows (o ∷ os)) → All P (shipping_rows os)
  shipping-tail o os all = elim (Bool-cases (str_eq o.shipped_status "shipping")) [
    | inl ships ↦ let h = rw ships at all in h.1
    | inr waits ↦ rw waits at all
  ]

  shipping-keep :
      (o : Order) (os rest : List Order)
      → All P (shipping_rows (o ∷ os))
      → All P (shipping_rows rest)
      → All P (shipping_rows (o ∷ rest))
  shipping-keep o os rest all kept = elim (Bool-cases (str_eq o.shipped_status "shipping")) [
    | inl ships ↦ let h = rw ships at all in rw ships (h.0, kept)
    | inr waits ↦ rw waits kept
  ]

  -- A status that ends the shipping takes the updated rows from the others, and ships none.
  ended-All :
      (status : String) (updated : List ℤ) (d : List Order)
      → str_eq status "shipping" ≡ false
      → All P (shipping_rows d)
      → All P (shipping_rows (set_statuses status updated d))
  ended-All status updated [] ends all = tt
  ended-All status updated (o ∷ os) ends all =
      let rest = ended-All status updated os ends (shipping-tail o os all) in
      elim (Bool-cases (among o.order_id updated)) [
        | inl set ↦ rw (set, ends) rest
        | inr other ↦ rw other (shipping-keep o os (set_statuses status updated os) all rest)
      ]

Ends-ne : (status : String) → Ends status → str_eq status "shipping" ≡ false
Ends-ne status (inl p) = rw p refl
Ends-ne status (inr p) = rw p refl

single : (x y : ℤ) → among y (x ∷ []) ≡ true → eqb_ℤ x y ≡ true
single x y h = ground (arith, h)

inserted :
    {d d' : List Order} {r s : SqlResult}
    → ◌≡◌ {A = Result (List Order × SqlResult)} (ok (d, r)) (ok (d', s))
    → d ≡ d'
inserted p = ap (λ (x : List Order × SqlResult). x.0) (ok_inj p)

-- A row whose status is set is not of the ids, if the updated id is not.
apart-IsOther :
    (status : String) (id : ℤ) (ids : List ℤ) (d : List Order)
    → contains id ids ≡ false
    → All (IsOther ids) (shipping_rows d)
    → All (IsOther ids) (shipping_rows (set_statuses status (id ∷ []) d))
apart-IsOther status id ids [] apart all = tt
apart-IsOther status id ids (o ∷ os) apart all =
    let left = set_statuses status (id ∷ []) os in
    let rest = apart-IsOther status id ids os apart (shipping-tail (IsOther ids) o os all) in
    elim (Bool-cases (among o.order_id (id ∷ []))) [
      | inl set ↦ rw set (
          shipping-cons (IsOther ids) (record o { shipped_status = status }) left
            (subst (λ x. contains x ids ≡ false)
              ((eqb_ℤ_iff id o.order_id).0 (single id o.order_id set)) apart)
            rest)
      | inr other ↦ rw other (shipping-keep (IsOther ids) o os left all rest)
    ]

All-Absent :
    (ids : List ℤ) (d : List Order) → All (IsOther ids) (shipping_rows d) → Absent shop ids d
All-Absent ids d all orders read = subst (All (IsOther ids)) (ap rows_of read) all

pub numbered-OrderLaws : OrderLaws shop
numbered-OrderLaws = record {
  Used = λ d i. id_rank i < next_id d;
  shipped_used = λ d orders read.
      subst (λ r. All (λ o. id_rank o.order_id < next_id d) (rows_of r)) read
        (shipping_below (next_id d) d (omega arith));
  begin_used = λ d v i p h. rw⁻¹ (ok_inj p) h;
  commit_used = λ d v d' i p h. rw⁻¹ (ok_inj p) h;
  session_used = λ d d' args i p h. rw⁻¹ (ok_inj p) (rw (session_kept args d) h);
  update_used = λ d d' ids status i u h.
      rw⁻¹ (Update-set_statuses d d' ids status u) (rw (next_id-set_statuses status ids d) h);
  insert_used = λ d d' os r i p h.
      let grown = next_id-numbered (next_id d) os d in rw⁻¹ (inserted p) (omega arith);
  marked_leave = shop-MarkedLeave;
  insert_fresh = λ d d' os r ids p used absent.
      All-Absent ids d'
        (rw⁻¹ (inserted p) (fresh-IsOther (next_id d) ids os d used (absent _ refl)));
  update_absent = λ d d' updated ids status u ends absent. All-Absent ids d' (
      rw⁻¹ (Update-set_statuses d d' updated status u)
        (ended-All (IsOther ids) status updated d (Ends-ne status ends) (absent _ refl)));
  update_other = λ d d' id ids status u apart absent. All-Absent ids d' (
      rw⁻¹ (Update-set_statuses d d' (id ∷ []) status u)
        (apart-IsOther status id ids d apart (absent _ refl)));
}
