-- ===== src/Handler/Response.antt =====
-- What a handler answers. A body that the program encodes as JSON is kept as the value.
use shark_42tokyo_tuning.Prelude.{
  ◌≡◌, refl, ℕ, String, Option, none, List, Result, ok, err, panic, Error,
}
use shark_42tokyo_tuning.Prelude.Int.{ℤ}
use shark_42tokyo_tuning.Model.{Time, Order, Product, DeliveryPlan}
use shark_42tokyo_tuning.Env.{Env, Slice}
use shark_42tokyo_tuning.World.{World, Action}

pub data Body : Type 0 where
  nothing : Body
  plain : String → Body
  message : String → Body
  orders_page : List Order → ℤ → Body
  products_page : Slice Product → ℤ → Body
  created : String → List ℤ → Body
  plan : DeliveryPlan → Body

pub record Response : Type 0 where
  pub status : ℕ
  pub cookie : Option (String × Time)
  pub accel_redirect : Option String
  pub body : Body

abbrev pub respond : ℕ → Body → Response
respond status body = record { status = status; cookie = none; accel_redirect = none; body = body }

-- `http.Error`
abbrev pub http_error : ℕ → String → Response
http_error status text = respond status (plain text)

module _ {e : Env} where
  unfoldable pub answer_result :
      {A : Type 0}
      → (A → Response)
      → (Error → Response)
      → Result A
      → World e
      → Result Response × World e
  answer_result f g (ok a) w = (ok (f a), w)
  answer_result f g (err x) w = (ok (g x), w)
  answer_result f g panic w = (panic, w)

  -- The answer to a call of a service.
  unfoldable pub answer :
      {A : Type 0} → Action e A → (A → Response) → (Error → Response) → Action e Response
  unfolding answer_result
  answer m f g w = let (r, w') = m w in answer_result f g r w'

  answer_result_state :
      {A : Type 0} (f : A → Response) (g : Error → Response) (r : Result A) (w : World e)
      → (answer_result f g r w).1 ≡ w
  unfolding answer_result
  answer_result_state f g (ok a) w = refl
  answer_result_state f g (err x) w = refl
  answer_result_state f g panic w = refl

  -- The state is what the call leaves.
  pub answer_state :
      {A : Type 0} (m : Action e A) (f : A → Response) (g : Error → Response) (w : World e)
      → (answer m f g w).1 ≡ (m w).1
  unfolding answer
  answer_state m f g w = answer_result_state f g (m w).0 (m w).1
