-- ===== src/Repository/Session.antt =====
-- webapp/backend/internal/repository/session.go. The clock and the random UUID are arguments.
pub mod Lookup
use shark_42tokyo_tuning.Prelude.{
  ℕ, ◌+◌, String, Option, none, some, [], ◌∷◌, ltb, if◌then◌else◌, Result, ok, err, panic,
  session_expired,
}
use shark_42tokyo_tuning.Prelude.Int.{ℤ}
use shark_42tokyo_tuning.Model.{Time}
use shark_42tokyo_tuning.Env.{Env, Lru, SessionEntry, int, text, time}
use shark_42tokyo_tuning.World.{
  World, Action, continue, ◌>>=◌, ◌>>◌, pure, throw, lift, modify, query,
}

abbrev pub insert_session : String
insert_session = "INSERT INTO user_sessions (session_uuid, user_id, expires_at) VALUES (?, ?, ?)"

abbrev pub session_query : String
session_query =
    "SELECT s.user_id FROM user_sessions s WHERE s.session_uuid = ? AND s.expires_at > ?"

module _ {e : Env} where
  unfoldable pub exec_insert : String → ℤ → Time → Action e (Unit {0})
  exec_insert id user_id expires_at w =
      continue (e.exec w.db insert_session (text id ∷ int user_id ∷ time expires_at ∷ []))
        (λ d v. (ok tt, record v { db = d })) w

  -- The entry of the cache, and what `Create` returns.
  unfoldable pub remember : String → ℤ → Time → Action e (String × Time)
  remember id user_id expires_at w = (
    ok (id, expires_at),
    record w {
      session_cache =
          (e.session_lru).add w.session_cache id
            (record { user_id = user_id; expires_at = expires_at });
    },
  )

  -- `Create`
  unfoldable pub create :
      Result String → (now : Time) → ℤ → (duration : ℕ) → Action e (String × Time)
  unfolding exec_insert remember
  create uuid now user_id duration = do
    id ← lift uuid
    exec_insert id user_id (now + duration)
    remember id user_id (now + duration)

  unfoldable pub found_session : (now : Time) → String → Option SessionEntry → Action e ℤ
  found_session now id (some v) = if ltb now v.expires_at then pure v.user_id else do
    modify (λ w. record w { session_cache = (e.session_lru).remove w.session_cache id })
    throw session_expired
  found_session now id none = query (λ d. e.get_int d session_query (text id ∷ time now ∷ []))

  -- `FindUserBySessionID`
  unfoldable pub find_user_by_session_id : (now : Time) → String → Action e ℤ
  unfolding found_session
  find_user_by_session_id now id w =
      let (v, cache) = (e.session_lru).get w.session_cache id in
      found_session now id v (record w { session_cache = cache })
