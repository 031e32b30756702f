-- ===== src/Handler/Robot.antt =====
-- webapp/backend/internal/handler/robot.go. `capacity` is what `strconv.Atoi` makes of the query
-- parameter, none where it fails; the parameter itself is none where it is empty.
use shark_42tokyo_tuning.Prelude.{Option, none, some}
use shark_42tokyo_tuning.Prelude.Int.{ℤ}
use shark_42tokyo_tuning.Model.{UpdateOrderStatusRequest}
use shark_42tokyo_tuning.Env.{Env}
use shark_42tokyo_tuning.World.{Action, pure}
use shark_42tokyo_tuning.Service.Timeout.{Race}
use shark_42tokyo_tuning.Service.Robot.{generate_delivery_plan, update_order_status}
use shark_42tokyo_tuning.Handler.Response.{Response, respond, plan, plain, http_error, answer}

module _ {e : Env} where
  unfoldable pub plan_for : Race → Option ℤ → Action e Response
  plan_for race none = pure (http_error 400 "Query parameter 'capacity' must be an integer")
  plan_for race (some capacity) =
      answer (generate_delivery_plan race "robot-001" capacity) (λ p. respond 200 (plan p))
        (λ _. http_error 500 "Failed to create delivery plan")

  -- `GetDeliveryPlan`
  unfoldable pub get_delivery_plan : Race → (parameter : Option (Option ℤ)) → Action e Response
  unfolding plan_for
  get_delivery_plan race none = pure (http_error 400 "Query parameter 'capacity' is required")
  get_delivery_plan race (some capacity) = plan_for race capacity

  -- `UpdateOrderStatus`
  unfoldable pub update_order_status_handler :
      Race → Option UpdateOrderStatusRequest → Action e Response
  update_order_status_handler race none = pure (http_error 400 "Invalid request body")
  update_order_status_handler race (some req) =
      answer (update_order_status race req.order_id req.new_status)
        (λ _. respond 200 (plain "Order status updated"))
        (λ _. http_error 500 "Failed to update order status")
