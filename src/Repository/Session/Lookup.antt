-- ===== src/Repository/Session/Lookup.antt =====
-- The lookup of a session, from its creation on.
use shark_42tokyo_tuning.Prelude.{
  ℕ, ◌+◌, ◌≤◌, ◌<◌, ◌≡◌, refl, ap, ◌∙◌, inl, inr, String, Option, none, some, [], ◌∷◌, arith, ltb,
  Result, ok, err, panic, Result-cases, Bool-cases, false, session_expired, lt→ltb,
}
use shark_42tokyo_tuning.Prelude.Int.{ℤ}
use shark_42tokyo_tuning.Model.{Time}
use shark_42tokyo_tuning.Env.{Env, SessionEntry, int, text, time}
use shark_42tokyo_tuning.World.{World, ◌>>=◌, >>=-eq-ok, lift}
use shark_42tokyo_tuning.Repository.Session.{
  insert_session, exec_insert, create, remember, found_session, find_user_by_session_id,
}

abbrev value_or : {A : Type 0} → Result A → A → A
value_or (ok a) b = a
value_or (err x) b = b
value_or panic b = b

le→not_ltb : (a b : ℕ) → b ≤ a → ltb a b ≡ false
le→not_ltb a b h = ground arith

module _ {e : Env} where
  abbrev pub cached : World e → String → Option SessionEntry
  cached w id = (e.session_lru).contents w.session_cache id

  -- A session leaves the password cache alone.
  pub password_cache-create :
      (uuid : Result String) (now : Time) (user_id : ℤ) (duration : ℕ) (w : World e)
      → ((create uuid now user_id duration w).1).password_cache ≡ w.password_cache
  unfolding create
  password_cache-create (err x) now user_id duration w = refl
  password_cache-create panic now user_id duration w = refl
  password_cache-create (ok id) now user_id duration w =
      elim (Result-cases
        (e.exec w.db insert_session (text id ∷ int user_id ∷ time (now + duration) ∷ []))) [
          | inl (d, x) ↦ rw x refl
          | inr (inl (x, f)) ↦ rw f refl
          | inr (inr f) ↦ rw f refl
        ]

  remembered :
      (i : String) (user_id : ℤ) (t : Time) (w : World e) {w' : World e} {id : String}
      {expires_at : Time}
      → remember i user_id t w ≡ (ok (id, expires_at), w')
      → (expires_at ≡ t)
        × (cached w' id ≡ some (record { user_id = user_id; expires_at = expires_at }))
  unfolding remember
  remembered i user_id t w {w'} {id} {expires_at} h =
      let z : String × Time = (id, t) in
      let same_id : i ≡ id = ap (λ (r : Result (String × Time) × World e). (value_or r.0 z).0) h in
      let same_t : t ≡ expires_at =
        ap (λ (r : Result (String × Time) × World e). (value_or r.0 z).1) h in
      rw (← same_id, ← same_t, ← ap (λ (r : Result (String × Time) × World e). r.1) h)
        (
          refl,
          (e.session_lru).contents-add_self w.session_cache i
              (record { user_id = user_id; expires_at = t }),
        )

  -- After a create that returned, the id is cached with the user and the expiry time.
  pub cached-create :
      (uuid : Result String) (now : Time) (user_id : ℤ) (duration : ℕ) (w w' : World e)
      {id : String} {expires_at : Time}
      → create uuid now user_id duration w ≡ (ok (id, expires_at), w')
      → (expires_at ≡ now + duration)
        × (cached w' id ≡ some (record { user_id = user_id; expires_at = expires_at }))
  unfolding create
  cached-create uuid now user_id duration w w' h =
      let (i, _, rest) =
        >>=-eq-ok (lift uuid)
          (λ i. exec_insert i user_id (now + duration) >>= λ _. remember i user_id (now + duration))
          w h in
      let (_, _, last) =
        >>=-eq-ok (exec_insert i user_id (now + duration))
          (λ _. remember i user_id (now + duration)) w rest in
      remembered i user_id (now + duration) (exec_insert i user_id (now + duration) w).1 last

  -- A cached session is found exactly until it expires; then it is an error, and is forgotten. The
  -- database is not asked.
  abbrev pub FoundUntilExpiry :
      (now : Time) → String → SessionEntry → e.Db → Result ℤ × World e → Type 0
  FoundUntilExpiry now id entry d (r, w') =
      (now < entry.expires_at → (r ≡ ok entry.user_id) × (cached w' id ≡ some entry))
      × (entry.expires_at ≤ now → (r ≡ err session_expired) × (cached w' id ≡ none))
      × (w'.db ≡ d)

  found_session-cached :
      (now : Time) (id : String) (c : Option SessionEntry) (w : World e) (entry : SessionEntry)
      → c ≡ some entry
      → cached w id ≡ some entry
      → FoundUntilExpiry now id entry w.db (found_session now id c w)
  unfolding found_session
  found_session-cached now id none w entry p held = cc
  found_session-cached now id (some v) w entry p held =
      let same : v ≡ entry = cc in
      elim (Bool-cases (ltb now entry.expires_at)) [
        | inl lt ↦
            rw (same, lt) (λ _. (refl, held), λ le. cc (le→not_ltb now entry.expires_at le), refl)
        | inr ge ↦
            rw (same, ge)
              (
                λ lt. cc (lt→ltb now entry.expires_at lt),
                λ _. (refl, (e.session_lru).contents-remove_self w.session_cache id),
                refl,
              )
      ]

  -- The lookup of a cached session: before its expiry it is its user's and stays cached; from then on
  -- it is an error and is forgotten; the database is left alone.
  pub find_user_by_session_id-cached :
      (now : Time) (id : String) (w : World e) (entry : SessionEntry)
      → cached w id ≡ some entry
      → FoundUntilExpiry now id entry w.db (find_user_by_session_id now id w)
  unfolding find_user_by_session_id
  find_user_by_session_id-cached now id w entry p =
      let l = e.session_lru in
      found_session-cached now id (l.get w.session_cache id).0
        (record w { session_cache = (l.get w.session_cache id).1 }) entry
        (l.get_lem w.session_cache id ∙ p) (l.contents-get w.session_cache id id ∙ p)

  -- A session that was created, in a store where nothing has happened since, is found as its user's
  -- for the duration, and has expired from then on.
  pub find_user_by_session_id-create :
      (uuid : Result String) (created now : Time) (user_id : ℤ) (duration : ℕ) (w w' : World e)
      {id : String} {expires_at : Time}
      → create uuid created user_id duration w ≡ (ok (id, expires_at), w')
      → let r = (find_user_by_session_id now id w').0 in
        (now < created + duration → r ≡ ok user_id)
        × (created + duration ≤ now → r ≡ err session_expired)
  find_user_by_session_id-create uuid created now user_id duration w w' {id} {expires_at} h =
      let (at, held) = cached-create uuid created user_id duration w w' h in
      let (live, dead, _) =
        find_user_by_session_id-cached now id w'
          (record { user_id = user_id; expires_at = expires_at }) held in
      (λ lt. (live (omega arith)).0, λ le. (dead (omega arith)).0)
