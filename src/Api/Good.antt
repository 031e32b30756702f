-- ===== src/Api/Good.antt =====
-- The invariant of the server's state, and the parts of a call that keep it whatever they do.
use shark_42tokyo_tuning.Prelude.{
  ◌≡◌, inl, inr, String, Option, none, some, Result, Error, ok, err, panic, Bool-cases, ltb,
}
use shark_42tokyo_tuning.Model.{Time}
use shark_42tokyo_tuning.Env.{Env, SessionEntry}
use shark_42tokyo_tuning.World.{pool, World, Action, continue, ◌>>=◌}
use shark_42tokyo_tuning.Repository.Order.Coherent.{Serves}
use shark_42tokyo_tuning.Repository.Session.{find_user_by_session_id, found_session}
use shark_42tokyo_tuning.Service.Auth.Password.{AllVouched}
use shark_42tokyo_tuning.Service.Timeout.{Race, finishes, expires, with_timeout}
use shark_42tokyo_tuning.Handler.Response.{Response, answer, answer_state}

module _ {e : Env} where
  -- The store runs on the pool, its caches of orders hold what the database reads, and bcrypt has
  -- accepted a password for each cached key.
  pub record IsGood (w : World e) : Type 0 where
    pub pooled : w.conn ≡ pool
    pub serves : Serves e w.db w.order_state
    pub vouched : AllVouched e.crypto w.password_cache

  -- An action that keeps the invariant.
  abbrev pub Safe : {A : Type 0} → Action e A → Type 0
  Safe m = (w : World e) → IsGood w → IsGood (m w).1

  pub continue-Safe :
      {A B : Type 0} (r : Result A) (f : A → Action e B)
      → ((a : A) → Safe (f a))
      → Safe (continue r f)
  continue-Safe (ok a) f k w h = k a w h
  continue-Safe (err x) f k w h = h
  continue-Safe panic f k w h = h

  pub >>=-Safe :
      {A B : Type 0} (m : Action e A) (f : A → Action e B)
      → Safe m
      → ((a : A) → Safe (f a))
      → Safe (m >>= f)
  >>=-Safe m f h k w good = continue-Safe (m w).0 f k (m w).1 (h w good)

  pub answer-Safe :
      {A : Type 0} (m : Action e A) (f : A → Response) (g : Error → Response)
      → Safe m
      → Safe (answer m f g)
  answer-Safe m f g h w good = rw (answer_state m f g w) (h w good)

  pub with_timeout-Safe :
      {A : Type 0} (race : Race) (m : Action e A) → Safe m → Safe (with_timeout race m)
  unfolding with_timeout
  with_timeout-Safe finishes m h = h
  with_timeout-Safe expires m h = h

  found_session-Safe :
      (now : Time) (id : String) (c : Option SessionEntry) → Safe (found_session {e = e} now id c)
  unfolding found_session
  found_session-Safe now id none w good = good
  found_session-Safe now id (some v) w good = elim (Bool-cases (ltb now v.expires_at)) [
    | inl live ↦ rw live good
    | inr dead ↦
        rw dead (record { pooled = good.pooled; serves = good.serves; vouched = good.vouched })
  ]

  pub find_user_by_session_id-Safe :
      (now : Time) (id : String) → Safe (find_user_by_session_id {e = e} now id)
  unfolding find_user_by_session_id
  find_user_by_session_id-Safe now id w good =
      found_session-Safe now id _ _
        (record { pooled = good.pooled; serves = good.serves; vouched = good.vouched })
