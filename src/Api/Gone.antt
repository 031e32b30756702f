-- ===== src/Api/Gone.antt =====
-- Orders that are not to be shipped any more, and the calls after which they are not.
use mathlib.Core.Path.{subst}
use shark_42tokyo_tuning.Prelude.{
  ◌≡◌, refl, ◌∙◌, inl, inr, ◌⊎◌, String, false, Option, none, some, List, [], ◌∷◌, ok,
}
use shark_42tokyo_tuning.Prelude.Int.{ℤ, contains}
use shark_42tokyo_tuning.Prelude.Paths.Elements.{All}
use shark_42tokyo_tuning.Model.{Order}
use shark_42tokyo_tuning.Env.{Env, Arg, Slice, elems, SqlResult}
use shark_42tokyo_tuning.World.{World}
use shark_42tokyo_tuning.Repository.Session.{insert_session}
use shark_42tokyo_tuning.Repository.Order.{insert_query}
use shark_42tokyo_tuning.Repository.Order.Coherent.{shipping, DbLaws, SameReads}
use shark_42tokyo_tuning.Service.Robot.{order_ids}
use shark_42tokyo_tuning.Api.{Reach, here, next}
use shark_42tokyo_tuning.Api.Good.{IsGood}
use shark_42tokyo_tuning.Api.Invariant.{Step-IsGood}
use shark_42tokyo_tuning.Api.Moves.{
  Update, Move, stay, start_session, set_status, write_nothing, insert_orders, deliver, reported_by,
}
use shark_42tokyo_tuning.Api.Moves.Steps.{Step-Move}
use shark_42tokyo_tuning.Api.Planned.{IsOther, MarkedLeave}

-- A status of an order that is not to be shipped any more.
abbrev pub Ends : String → Type 0
Ends status = (status ≡ "delivering") ⊎ (status ≡ "completed")

-- No order with one of the ids is selected as one to ship.
abbrev pub Absent : (e : Env) → List ℤ → e.Db → Type 0
Absent e ids d =
    (orders : Slice Order) → shipping e d ≡ ok orders → All (IsOther ids) (elems orders)

-- What MySQL promises of the ids of orders: `Used d i` says that some row has had the id `i`. An
-- AUTO_INCREMENT id is not given again, so an insert selects no used id that was not selected
-- before; an update of statuses adds to the selected orders none but its own, and none at all if
-- the status is one that ends the shipping.
pub record OrderLaws (e : Env) : Type 1 where
  pub Used : e.Db → ℤ → Type 0
  pub shipped_used :
      (d : e.Db) (orders : Slice Order)
      → shipping e d ≡ ok orders
      → All (λ o. Used d o.order_id) (elems orders)
  pub begin_used : (d v : e.Db) (i : ℤ) → e.begin d ≡ ok v → Used d i → Used v i
  pub commit_used : (d v d' : e.Db) (i : ℤ) → e.commit d v ≡ ok d' → Used v i → Used d' i
  pub session_used :
      (d d' : e.Db) (args : List Arg) (i : ℤ)
      → e.exec d insert_session args ≡ ok d'
      → Used d i
      → Used d' i
  pub update_used :
      (d d' : e.Db) (ids : List ℤ) (status : String) (i : ℤ)
      → Update e d ids status d'
      → Used d i
      → Used d' i
  pub insert_used :
      (d d' : e.Db) (os : List Order) (r : SqlResult) (i : ℤ)
      → e.named_exec d insert_query os ≡ ok (d', r)
      → Used d i
      → Used d' i
  pub marked_leave : MarkedLeave e
  pub insert_fresh :
      (d d' : e.Db) (os : List Order) (r : SqlResult) (ids : List ℤ)
      → e.named_exec d insert_query os ≡ ok (d', r)
      → All (Used d) ids
      → Absent e ids d
      → Absent e ids d'
  pub update_absent :
      (d d' : e.Db) (updated ids : List ℤ) (status : String)
      → Update e d updated status d'
      → Ends status
      → Absent e ids d
      → Absent e ids d'
  pub update_other :
      (d d' : e.Db) (id : ℤ) (ids : List ℤ) (status : String)
      → Update e d (id ∷ []) status d'
      → contains id ids ≡ false
      → Absent e ids d
      → Absent e ids d'

-- A report of a status does not ship one of the ids again.
abbrev pub Ended : List ℤ → Option (ℤ × String) → Type 0
Ended ids none = Unit
Ended ids (some (id, status)) = Ends status ⊎ (contains id ids ≡ false)

module _ {e : Env} where
  abbrev pub AllEnded : List ℤ → {w w' : World e} → Reach w w' → Type 0
  AllEnded ids here = Unit
  AllEnded ids (next r st) = AllEnded ids r × Ended ids (reported_by st)

pub All-imp :
    {A : Type 0} (P Q : A → Type 0) (xs : List A) → ((a : A) → P a → Q a) → All P xs → All Q xs
All-imp P Q [] f all = tt
All-imp P Q (x ∷ xs) f all = (f x all.0, All-imp P Q xs f all.1)

pub All-order_ids :
    (P : ℤ → Type 0) (os : List Order) → All (λ o. P o.order_id) os → All P (order_ids os)
All-order_ids P [] all = tt
All-order_ids P (o ∷ os) all = (all.0, All-order_ids P os all.1)

module _ {e : Env} (laws : DbLaws e) (rows : OrderLaws e) where
  -- The ids have been given, and are not selected.
  pub record IsGone (ids : List ℤ) (d : e.Db) : Type 0 where
    pub used : All (rows.Used d) ids
    pub absent : Absent e ids d

  SameReads-Absent :
      (ids : List ℤ) (d d' : e.Db) → SameReads e d d' → Absent e ids d → Absent e ids d'
  SameReads-Absent ids d d' same h orders read = h orders (same.shipping_eq ∙ read)

  begin-IsGone : (ids : List ℤ) (d v : e.Db) → e.begin d ≡ ok v → IsGone ids d → IsGone ids v
  begin-IsGone ids d v b g = record {
    used = All-imp (rows.Used d) (rows.Used v) ids (λ i. rows.begin_used d v i b) g.used;
    absent = SameReads-Absent ids d v (laws.begin_reads d v b) g.absent;
  }

  pub commit-IsGone :
      (ids : List ℤ) (d v d' : e.Db) → e.commit d v ≡ ok d' → IsGone ids v → IsGone ids d'
  commit-IsGone ids d v d' c g = record {
    used = All-imp (rows.Used v) (rows.Used d') ids (λ i. rows.commit_used d v d' i c) g.used;
    absent = SameReads-Absent ids v d' (laws.commit_reads d v d' c) g.absent;
  }

  Move-IsGone :
      (ids : List ℤ) (r : Option (ℤ × String)) (d d' : e.Db)
      → Ended ids r
      → Move e r d d'
      → IsGone ids d
      → IsGone ids d'
  Move-IsGone ids r d d' ended (stay same) g = rw same g
  Move-IsGone ids r d d' ended (start_session args x) g = record {
    used = All-imp (rows.Used d) (rows.Used d') ids (λ i. rows.session_used d d' args i x) g.used;
    absent = SameReads-Absent ids d d' (laws.session_reads d d' args x) g.absent;
  }
  Move-IsGone ids r d d' ended (set_status id status reports u) g = record {
    used =
        All-imp (rows.Used d) (rows.Used d') ids (λ i. rows.update_used d d' (id ∷ []) status i u)
          g.used;
    absent =
        let quiet : Ended ids (some (id, status)) = subst (Ended ids) reports ended in
        elim quiet [
          | inl ends ↦ rows.update_absent d d' (id ∷ []) ids status u ends g.absent
          | inr other ↦ rows.update_other d d' id ids status u other g.absent
        ];
  }
  Move-IsGone ids r d d' ended (write_nothing begun t) g =
      commit-IsGone ids d begun d' t.commit_ok (begin-IsGone ids d begun t.begin_ok g)
  Move-IsGone ids r d d' ended (insert_orders begun left os result t x) g =
      let b = begin-IsGone ids d begun t.begin_ok g in
      commit-IsGone ids d left d' t.commit_ok (record {
        used =
            All-imp (rows.Used begun) (rows.Used left) ids
              (λ i. rows.insert_used begun left os result i x) b.used;
        absent = rows.insert_fresh begun left os result ids x b.used b.absent;
      })
  Move-IsGone ids r d d' ended (deliver begun left chosen t u) g =
      let b = begin-IsGone ids d begun t.begin_ok g in
      commit-IsGone ids d left d' t.commit_ok (record {
        used =
            All-imp (rows.Used begun) (rows.Used left) ids
              (λ i. rows.update_used begun left chosen "delivering" i u) b.used;
        absent = rows.update_absent begun left chosen ids "delivering" u (inl refl) b.absent;
      })

  pub Reach-IsGone :
      (ids : List ℤ) {w w' : World e} (run : Reach w w')
      → AllEnded ids run
      → IsGood w
      → IsGone ids w.db
      → IsGood w' × IsGone ids w'.db
  Reach-IsGone ids here ended good g = (good, g)
  Reach-IsGone ids (next {v} {u} run st) (ended, last) good g =
      let (good', g') = Reach-IsGone ids run ended good g in
      (
        Step-IsGood laws st good',
        Move-IsGone ids (reported_by st) v.db u.db last (Step-Move laws st good') g',
      )
