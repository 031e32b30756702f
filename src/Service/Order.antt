-- ===== src/Service/Order.antt =====
-- webapp/backend/internal/service/order.go
use shark_42tokyo_tuning.Prelude.Int.{ℤ}
use shark_42tokyo_tuning.Model.{ListRequest}
use shark_42tokyo_tuning.Env.{Env}
use shark_42tokyo_tuning.World.{Action}
use shark_42tokyo_tuning.Repository.Order.{Page, list_orders}
use shark_42tokyo_tuning.Service.Timeout.{Race, with_timeout}

module _ {e : Env} where
  -- `FetchOrders`
  unfoldable pub fetch_orders : Race → ℤ → ListRequest → Action e Page
  fetch_orders race user_id req = with_timeout race (list_orders user_id req)
