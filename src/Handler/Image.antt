-- ===== src/Handler/Image.antt =====
-- `GetImage` of webapp/backend/internal/handler/product.go.
pub mod Inside
use shark_42tokyo_tuning.Prelude.{String, none, some, ◌||◌, str_eq, if◌then◌else◌}
use shark_42tokyo_tuning.Prelude.Paths.{clean, is_abs, contains_dots, path_join}
use shark_42tokyo_tuning.Handler.Response.{Response, nothing, http_error}

-- The answer that leaves the file to nginx.
accelerated : String → Response
accelerated uri = record { status = 200; cookie = none; accel_redirect = some uri; body = nothing }

-- Behind `Clean`.
image_at : String → Response
unfolding accelerated
image_at image_path =
    if is_abs image_path || contains_dots image_path
    then http_error 400 "無効なパスです"
    else accelerated (path_join "/_protected/images" image_path)

-- With the query parameter "path", which is empty where it is missing.
pub get_image : String → Response
unfolding image_at
get_image image_path =
    if str_eq image_path "" then http_error 400 "画像パスが指定されていません" else image_at (clean image_path)
