-- ===== src/Repository/User.antt =====
-- webapp/backend/internal/repository/user.go
use shark_42tokyo_tuning.Prelude.{String, [], ◌∷◌}
use shark_42tokyo_tuning.Model.{User}
use shark_42tokyo_tuning.Env.{Env, text}
use shark_42tokyo_tuning.World.{Action, query}

abbrev pub user_query : String
user_query = "SELECT user_id, password_hash, user_name FROM users WHERE user_name = ?"

module _ {e : Env} where
  -- `FindByUserName`; a missing user is the error `sql.ErrNoRows`, `no_rows` here.
  unfoldable pub find_by_user_name : String → Action e User
  find_by_user_name user_name = query (λ d. e.get_user d user_query (text user_name ∷ []))
