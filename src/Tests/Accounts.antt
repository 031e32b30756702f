-- ===== src/Tests/Accounts.antt =====
-- Logins and sessions of the small shop.
use shark_42tokyo_tuning.Prelude.{
  ◌≡◌, refl, ◌+◌, ◌<◌, ◌≤◌, String, [], ◌∷◌, none, some, inr, ok, err, session_expired,
}
use shark_42tokyo_tuning.Prelude.Int.{pos}
use shark_42tokyo_tuning.Env.{SessionEntry, text}
use shark_42tokyo_tuning.Model.{User, LoginRequest}
use shark_42tokyo_tuning.World.{World}
use shark_42tokyo_tuning.Repository.User.{user_query, find_by_user_name}
use shark_42tokyo_tuning.Repository.Session.{create, find_user_by_session_id}
use shark_42tokyo_tuning.Repository.Session.Lookup.{find_user_by_session_id-create}
use shark_42tokyo_tuning.Service.Timeout.{finishes, expires, with_timeout}
use shark_42tokyo_tuning.Service.Auth.{make_password_cache_key, session_duration, holds, login}
use shark_42tokyo_tuning.Service.Auth.Password.{
  AllVouched, Accepted, login-Accepted, login-AllVouched,
}
use shark_42tokyo_tuning.Handler.Response.{Response, http_error, message, answer}
use shark_42tokyo_tuning.Handler.Auth.{login_handler}
use shark_42tokyo_tuning.Handler.Auth.Refused.{IsWrong, login_handler-refused}
use shark_42tokyo_tuning.Middleware.{Request, Serve, user_auth_middleware}
use shark_42tokyo_tuning.Middleware.LoggedIn.{user_auth_middleware-login_handler}
use shark_42tokyo_tuning.Tests.Shop.{alice, shop, plain_crypto, three_orders, shop_world, put}

-- No key is cached.
none_vouched : AllVouched plain_crypto []
unfolding holds
none_vouched key h = cc

abbrev session_entry : SessionEntry
session_entry = record { user_id = pos 1; expires_at = 100 + session_duration }

abbrev secret_key : String
secret_key = "h:secret:0000000000000000000000000000000000000000000000000000000000000000"

-- After a login at time 100, the session is cached, and so is the key of the password.
abbrev logged_in : World shop
logged_in = record shop_world {
  session_cache = put (λ k. none) "s1" (some session_entry);
  password_cache = secret_key ∷ [];
}

logs_in :
    login finishes (ok "s1") 100 "alice" "secret" shop_world
    ≡ (ok ("s1", 100 + session_duration), logged_in)
unfolding login with_timeout find_by_user_name create
logs_in = refl

login-Accepted_example : Accepted shop "alice" "secret" shop_world.db
login-Accepted_example =
    login-Accepted (ok "s1") 100 "alice" "secret" shop_world logged_in none_vouched logs_in

login-AllVouched_example :
    AllVouched plain_crypto
      ((login {e = shop} expires (ok "s1") 100 "alice" "secret" shop_world).1).password_cache
login-AllVouched_example =
    login-AllVouched expires (ok "s1") 100 "alice" "secret" shop_world none_vouched

-- A session that was made at time 100 for 50.
abbrev with_session : World shop
with_session = record shop_world {
  session_cache = put (λ k. none) "s1" (some (record { user_id = pos 1; expires_at = 150 }));
}

creates : create (ok "s1") 100 (pos 1) 50 shop_world ≡ (ok ("s1", 150), with_session)
unfolding create
creates = refl

find_user_by_session_id-create_example :
    let r = (find_user_by_session_id {e = shop} 149 "s1" with_session).0 in
    (149 < 100 + 50 → r ≡ ok (pos 1)) × (100 + 50 ≤ 149 → r ≡ err session_expired)
find_user_by_session_id-create_example =
    find_user_by_session_id-create (ok "s1") 100 149 (pos 1) 50 shop_world with_session creates

abbrev answers : Serve shop
answers r w = (ok (http_error 500 "reached"), w)

abbrev alice_in : LoginRequest
alice_in = record { user_name = "alice"; password = "secret" }

abbrev cookie_set : Response
cookie_set = record {
  status = 200;
  cookie = some ("s1", 100 + session_duration);
  accel_redirect = none;
  body = message "Login successful";
}

answers_login :
    login_handler finishes (ok "s1") 100 (some alice_in) shop_world ≡ (ok cookie_set, logged_in)
unfolding login_handler answer login with_timeout find_by_user_name create
answers_login = refl

abbrev carrying : Request
carrying = record { session_cookie = some "s1"; api_key = ""; user = none }

user_auth_middleware-login_handler_example :
    (user : User) × (shop.get_user three_orders user_query (text "alice" ∷ []) ≡ ok user)
    × (200 < 100 + session_duration
        → (w : World shop) × (user_auth_middleware 200 answers carrying logged_in
            ≡ answers (record carrying { user = some user.user_id }) w))
    × (100 + session_duration ≤ 200
        → (user_auth_middleware 200 answers carrying logged_in).0
          ≡ ok (http_error 401 "Unauthorized: Invalid session"))
user_auth_middleware-login_handler_example =
    user_auth_middleware-login_handler answers carrying (ok "s1") 100 200 alice_in shop_world
      logged_in answers_login refl refl

abbrev guessing : LoginRequest
guessing = record { user_name = "alice"; password = "guess" }

guess-IsWrong : IsWrong {e = shop} guessing shop_world
unfolding holds make_password_cache_key
guess-IsWrong = inr (alice, refl, refl, refl)

login_handler-refused_example :
    login_handler finishes (ok "s2") 100 (some guessing) shop_world
    ≡ (ok (http_error 401 "Unauthorized: Invalid credentials"), shop_world)
login_handler-refused_example =
    login_handler-refused (ok "s2") 100 guessing shop_world guess-IsWrong
