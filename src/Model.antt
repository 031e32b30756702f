-- ===== src/Model.antt =====
-- webapp/backend/internal/model/model.go
use shark_42tokyo_tuning.Prelude.{ℕ, String, Option, List}
use shark_42tokyo_tuning.Prelude.Int.{ℤ}

-- A point in time, in nanoseconds; 0 is Go's zero time.
abbrev pub Time : Type 0
Time = ℕ

pub record User : Type 0 where
  pub user_id : ℤ
  pub password_hash : String
  pub user_name : String

pub record Product : Type 0 where
  pub product_id : ℤ
  pub name : String
  pub value : ℤ
  pub weight : ℤ
  pub image : String
  pub description : String

pub record Order : Type 0 where
  pub order_id : ℤ
  pub user_id : ℤ
  pub product_id : ℤ
  pub product_name : String
  pub shipped_status : String
  pub weight : ℤ
  pub value : ℤ
  pub created_at : Time
  pub arrived_at : Option Time

pub record DeliveryPlan : Type 0 where
  pub robot_id : String
  pub total_weight : ℤ
  pub total_value : ℤ
  pub orders : List Order

pub record LoginRequest : Type 0 where
  pub user_name : String
  pub password : String

pub record RequestItem : Type 0 where
  pub product_id : ℤ
  pub quantity : ℤ

pub record CreateOrderRequest : Type 0 where
  pub items : List RequestItem

pub record UpdateOrderStatusRequest : Type 0 where
  pub order_id : ℤ
  pub new_status : String

pub record ListRequest : Type 0 where
  pub search : String
  pub match_type : String
  pub page : ℤ
  pub page_size : ℤ
  pub sort_field : String
  pub sort_order : String
  pub offset : ℤ
