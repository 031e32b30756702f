-- ===== src/Worker/Settings/Bounds.antt =====
-- What the settings of the worker are bound by.
use shark_42tokyo_tuning.Prelude.{
  ◌≡◌, ◌≢◌, refl, sym, ◌∙◌, failure, inl, inr, ap, String, str_eq, eq_iff, Bool, true, false,
  Result, ok, err, panic, ◌>>=◌, Bool-cases, arith, Error, if◌then◌else◌,
}
use shark_42tokyo_tuning.Prelude.Int.{ℤ, pos, ◌≤ℤ◌}
use shark_42tokyo_tuning.Worker.Settings.{
  Host, Settings, required, timeout_of, batch_of, parse_int32, visibility_timeout, batch_size,
  make_clients, initialize_clients, settings, with_token, with_url, with_connection,
}

ok_injective : {A : Type 0} {a b : A} → ok a ≡ ok b → a ≡ b
ok_injective p = cc

then-eq-ok :
    {A B : Type 0} (r : Result A) (f : A → Result B) {b : B}
    → (r >>= f) ≡ ok b
    → (a : A) × (r ≡ ok a) × (f a ≡ ok b)
then-eq-ok (ok a) f p = (a, refl, p)
then-eq-ok (err x) f p = cc
then-eq-ok panic f p = cc

unless-eq-ok :
    {A : Type 0} (b : Bool) (x : Error) {v w : A}
    → Path (Result A) (if b then err x else ok w) (ok v)
    → (b ≡ false) × (v ≡ w)
unless-eq-ok true x p = cc
unless-eq-ok false x p = (refl, cc)

required_ok : (value : String) {v : String} → required value ≡ ok v → (value ≢ "") × (v ≡ value)
unfolding required
required_ok value p =
    let (set, same) = unless-eq-ok (str_eq value "") (failure "unset") p in
    (λ q. cc (set, (eq_iff value "").1 q), same)

required_set : (value : String) → value ≢ "" → required value ≡ ok value
unfolding required
required_set value set = elim (Bool-cases (str_eq value "")) [
  | inl unset ↦ absurd (set ((eq_iff value "").0 unset))
  | inr there ↦ rw there refl
]

timeout_of_lem : (r : Result ℤ) (f : ℤ → ℤ) → pos 30 ≤ℤ timeout_of r f
unfolding timeout_of
timeout_of_lem r f = ground arith

batch_of_lem : (r : Result ℤ) → (pos 1 ≤ℤ batch_of r) × (batch_of r ≤ℤ pos 32)
unfolding batch_of
batch_of_lem r = ground arith

visibility_timeout_lem : (h : Host) (v : String) → pos 30 ≤ℤ visibility_timeout h v
unfolding visibility_timeout
visibility_timeout_lem h v = ground (arith, timeout_of_lem (h.parse_duration v) h.seconds32)

batch_size_lem : (h : Host) (v : String) → (pos 1 ≤ℤ batch_size h v) × (batch_size h v ≤ℤ pos 32)
unfolding batch_size
batch_size_lem h v = ground (arith, batch_of_lem (parse_int32 h v))

-- What the worker needs to start: three variables, the clients, and the dead-letter queue.
pub record Ready (h : Host) : Type 0 where
  pub connection_set : h.getenv "AZURE_STORAGE_CONNECTION_STRING" ≢ ""
  pub base_url_set : h.getenv "INTERMEDIATE_BASE_URL" ≢ ""
  pub auth_token_set : h.getenv "WORKER_AUTH_TOKEN" ≢ ""
  pub clients_made : make_clients h (h.getenv "AZURE_STORAGE_CONNECTION_STRING") ≡ ok tt

-- With its three variables set and its clients made, the worker starts.
pub initialize_clients-ok : (h : Host) → Ready h → (s : Settings) × (initialize_clients h ≡ ok s)
unfolding initialize_clients
initialize_clients-ok h r =
    rw
      (
        required_set _ r.connection_set,
        required_set _ r.base_url_set,
        required_set _ r.auth_token_set,
        r.clients_made,
      )
      (_, refl)

pub record Started (h : Host) (s : Settings) : Type 0 where
  pub ready : Ready h
  pub base_url_is : s.base_url ≡ h.getenv "INTERMEDIATE_BASE_URL"
  pub auth_token_is : s.auth_token ≡ h.getenv "WORKER_AUTH_TOKEN"
  pub timeout_least : pos 30 ≤ℤ s.visibility_timeout_sec
  pub batch_least : pos 1 ≤ℤ s.dequeue_batch_size
  pub batch_most : s.dequeue_batch_size ≤ℤ pos 32

pub initialize_clients-Started :
    (h : Host) (s : Settings) → initialize_clients h ≡ ok s → Started h s
unfolding initialize_clients
initialize_clients-Started h s p =
    let (conn, got_conn, p1) =
      then-eq-ok (required (h.getenv "AZURE_STORAGE_CONNECTION_STRING")) (with_connection h) p in
    let (base, got_base, p2) =
      then-eq-ok (required (h.getenv "INTERMEDIATE_BASE_URL")) (with_url h conn) p1 in
    let (token, got_token, p3) =
      then-eq-ok (required (h.getenv "WORKER_AUTH_TOKEN")) (with_token h conn base) p2 in
    let (made, got_clients, p4) =
      then-eq-ok (make_clients h conn) (λ _. ok (settings h base token)) p3 in
    let (conn_set, conn_is) = required_ok (h.getenv "AZURE_STORAGE_CONNECTION_STRING") got_conn in
    let (base_set, base_is) = required_ok (h.getenv "INTERMEDIATE_BASE_URL") got_base in
    let (token_set, token_is) = required_ok (h.getenv "WORKER_AUTH_TOKEN") got_token in
    rw (sym (ok_injective p4)) (record {
      ready = record {
        connection_set = conn_set;
        base_url_set = base_set;
        auth_token_set = token_set;
        clients_made = ap (make_clients h) (sym conn_is) ∙ got_clients;
      };
      base_url_is = base_is;
      auth_token_is = token_is;
      timeout_least = visibility_timeout_lem h _;
      batch_least = (batch_size_lem h _).0;
      batch_most = (batch_size_lem h _).1;
    })
