-- ===== src/Telemetry/Exports.antt =====
-- When spans are exported, and where to.
use mathlib.Core.Path.{subst}
use shark_42tokyo_tuning.Prelude.{
  sym, ◌≡◌, ◌≢◌, refl, ◌∙◌, inl, inr, ◌⊎◌, ap, String, str_eq, eq_iff, true, false, not, none, some,
  Bool-cases,
}
use shark_42tokyo_tuning.Prelude.Texts.{equal_fold, lower_is}
use shark_42tokyo_tuning.Prelude.Paths.Elements.{or_false}
use shark_42tokyo_tuning.Telemetry.{
  Exporter, jaeger, otlp, Host, noop, Sampler, never_sample, always_sample, parent_based, parsed,
  one_percent, Provider, batching, sampler_by_name, sampler_from_env, or_else, is_set, enabled,
  chosen_exporter, export, batching_from_env, init,
}

is_set-true : (v : String) → is_set v ≡ true → v ≢ ""
unfolding is_set
is_set-true v h q = cc (ap not ((eq_iff v "").1 q), h)

is_set-false : (v : String) → is_set v ≡ false → v ≡ ""
unfolding is_set
is_set-false v h = elim (Bool-cases (str_eq v "")) [
  | inl empty ↦ (eq_iff v "").0 empty
  | inr other ↦ cc (ap not other, h)
]

-- The endpoint that spans go to: Jaeger's, or that of OTLP where Jaeger's is not set.
abbrev pub Endpoint : (h : Host) → Exporter → Type 0
Endpoint h x =
    ((h.getenv "JAEGER_ENDPOINT" ≢ "") × (x ≡ jaeger (h.getenv "JAEGER_ENDPOINT")))
    ⊎ ((h.getenv "JAEGER_ENDPOINT" ≡ "")
        × (h.getenv "OTEL_EXPORTER_OTLP_ENDPOINT" ≢ "")
        × (x ≡ otlp (h.getenv "OTEL_EXPORTER_OTLP_ENDPOINT")))

pub record Exports (h : Host) (x : Exporter) : Type 0 where
  pub not_off : equal_fold (h.getenv "TRACE_ENABLED") "false" ≡ false
  pub endpoint : Endpoint h x
  pub made : h.makes x ≡ true

-- The sampler of a name, whose letters may have any case.
abbrev pub Named : (name : String) → Sampler → Type 0
Named name sampler =
    ((lower_is name "always_off" ≡ true) × (sampler ≡ never_sample))
    ⊎ ((lower_is name "always_off" ≡ false)
        × (lower_is name "always_on" ≡ true)
        × (sampler ≡ always_sample))
    ⊎ ((lower_is name "always_off" ≡ false)
        × (lower_is name "always_on" ≡ false)
        × (sampler ≡ parent_based one_percent))

-- The ratio that is set, if it is a number; or the sampler that is named.
abbrev pub Sampled : (h : Host) → Sampler → Type 0
Sampled h sampler =
    ((h.getenv "TRACE_SAMPLE_RATIO" ≢ "")
      × (h.parses_float (h.getenv "TRACE_SAMPLE_RATIO") ≡ true)
      × (sampler ≡ parent_based (parsed (h.getenv "TRACE_SAMPLE_RATIO"))))
    ⊎ (((h.getenv "TRACE_SAMPLE_RATIO" ≡ "")
          ⊎ (h.parses_float (h.getenv "TRACE_SAMPLE_RATIO") ≡ false))
        × Named (h.getenv "OTEL_TRACES_SAMPLER") sampler)

-- What a provider that exports to `x` has to be.
pub record Batches (h : Host) (x : Exporter) (provider : Provider) : Type 0 where
  pub sampler : Sampler
  pub service : String
  pub environment : String
  pub provider_eq : provider ≡ batching x sampler service environment
  pub sampled : Sampled h sampler
  pub service_eq :
      ((h.getenv "SERVICE_NAME" ≢ "") × (service ≡ h.getenv "SERVICE_NAME"))
      ⊎ ((h.getenv "SERVICE_NAME" ≡ "") × (service ≡ "backend"))
  pub environment_eq :
      ((h.getenv "ENV" ≢ "") × (environment ≡ h.getenv "ENV"))
      ⊎ ((h.getenv "ENV" ≡ "") × (h.getenv "GO_ENV" ≢ "") × (environment ≡ h.getenv "GO_ENV"))
      ⊎ ((h.getenv "ENV" ≡ "") × (h.getenv "GO_ENV" ≡ "") × (environment ≡ "local"))

str_eq-ne : (s t : String) → str_eq s t ≡ false → s ≢ t
str_eq-ne s t other same = cc ((eq_iff s t).1 same, other)

sampler_by_name-Named : (h : Host) (name : String) → Named name (sampler_by_name h name)
unfolding sampler_by_name
sampler_by_name-Named h name = elim (Bool-cases (lower_is name "always_off")) [
  | inl off ↦ rw off (inl (refl, refl))
  | inr not_off ↦ elim (Bool-cases (lower_is name "always_on")) [
    | inl on ↦ rw (not_off, on) (inr (inl (refl, refl, refl)))
    | inr neither ↦ rw (not_off, neither) (inr (inr (refl, refl, refl)))
  ]
]

sampler_from_env-Sampled : (h : Host) → Sampled h (sampler_from_env h)
unfolding sampler_from_env
sampler_from_env-Sampled h = elim (Bool-cases (is_set (h.getenv "TRACE_SAMPLE_RATIO"))) [
  | inr unset ↦ rw unset (inr (inl (is_set-false _ unset), sampler_by_name-Named h _))
  | inl given ↦ elim (Bool-cases (h.parses_float (h.getenv "TRACE_SAMPLE_RATIO"))) [
    | inl number ↦ rw (given, number) (inl (is_set-true _ given, refl, refl))
    | inr text ↦ rw (given, text) (inr (inr refl, sampler_by_name-Named h _))
  ]
]

or_else_lem :
    (h : Host) (value default : String)
    → ((value ≢ "") × (or_else h value default ≡ value))
      ⊎ ((value ≡ "") × (or_else h value default ≡ default))
unfolding or_else
or_else_lem h value default = elim (Bool-cases (str_eq value "")) [
  | inl empty ↦ rw empty (inr ((eq_iff value "").0 empty, refl))
  | inr given ↦ rw given (inl (str_eq-ne value "" given, refl))
]

environment_lem :
    (h : Host)
    → let environment = or_else h (h.getenv "ENV") (or_else h (h.getenv "GO_ENV") "local") in
      ((h.getenv "ENV" ≢ "") × (environment ≡ h.getenv "ENV"))
      ⊎ ((h.getenv "ENV" ≡ "") × (h.getenv "GO_ENV" ≢ "") × (environment ≡ h.getenv "GO_ENV"))
      ⊎ ((h.getenv "ENV" ≡ "") × (h.getenv "GO_ENV" ≡ "") × (environment ≡ "local"))
environment_lem h = elim (or_else_lem h (h.getenv "ENV") (or_else h (h.getenv "GO_ENV") "local")) [
  | inl (given, p) ↦ inl (given, p)
  | inr (unset, p) ↦ elim (or_else_lem h (h.getenv "GO_ENV") "local") [
    | inl (given, q) ↦ inr (inl (unset, given, p ∙ q))
    | inr (none_set, q) ↦ inr (inr (unset, none_set, p ∙ q))
  ]
]

batching-Batches : (h : Host) (x : Exporter) → Batches h x (batching_from_env h x)
unfolding batching_from_env
batching-Batches h x = record {
  sampler = sampler_from_env h;
  service = or_else h (h.getenv "SERVICE_NAME") "backend";
  environment = or_else h (h.getenv "ENV") (or_else h (h.getenv "GO_ENV") "local");
  provider_eq = refl;
  sampled = sampler_from_env-Sampled h;
  service_eq = or_else_lem h (h.getenv "SERVICE_NAME") "backend";
  environment_eq = environment_lem h;
}

-- The exporter that is chosen is the endpoint, and there is none where no endpoint is set.
chosen_lem :
    (h : Host)
    → ((x : Exporter) × Endpoint h x
        × (chosen_exporter h ≡ some x)
        × ((y : Exporter) → Endpoint h y → y ≡ x))
      ⊎ (((y : Exporter) → Endpoint h y → ⊥) × (chosen_exporter h ≡ none))
unfolding chosen_exporter
chosen_lem h = elim (Bool-cases (is_set (h.getenv "JAEGER_ENDPOINT"))) [
  | inl j ↦ inl (
    jaeger (h.getenv "JAEGER_ENDPOINT"),
    inl (is_set-true _ j, refl),
    rw j refl,
    λ y at. elim at [ inl (_, q) ↦ q | inr (unset, _, _) ↦ absurd (is_set-true _ j unset) ],
  )
  | inr no_j ↦
      let unset = is_set-false _ no_j in
      elim (Bool-cases (is_set (h.getenv "OTEL_EXPORTER_OTLP_ENDPOINT"))) [
        | inl o ↦ inl (
          otlp (h.getenv "OTEL_EXPORTER_OTLP_ENDPOINT"),
          inr (unset, is_set-true _ o, refl),
          rw (no_j, o) refl,
          λ y at. elim at [ inl (set, _) ↦ absurd (set unset) | inr (_, _, q) ↦ q ],
        )
        | inr no_o ↦ inr (
          λ y at. elim at [
            | inl (set, _) ↦ set unset
            | inr (_, set, _) ↦ set (is_set-false _ no_o)
          ],
          rw (no_j, no_o) refl,
        )
      ]
]

none_chosen :
    (h : Host)
    → equal_fold (h.getenv "TRACE_ENABLED") "false" ≡ false
    → enabled h ≡ false
    → chosen_exporter h ≡ none
unfolding enabled chosen_exporter
none_chosen h on idle = elim (Bool-cases (equal_fold (h.getenv "TRACE_ENABLED") "true")) [
  | inl asked ↦ cc (rw (on, asked) at idle)
  | inr silent ↦
      let (no_j, no_o) =
        or_false (is_set (h.getenv "JAEGER_ENDPOINT"))
          (is_set (h.getenv "OTEL_EXPORTER_OTLP_ENDPOINT")) (rw (on, silent) at idle) in
      rw (no_j, no_o) refl
]

-- Unless it is turned off, `Init` sets the provider of the exporter that is chosen.
init_on :
    (h : Host)
    → equal_fold (h.getenv "TRACE_ENABLED") "false" ≡ false
    → (init h).provider ≡ (export h (chosen_exporter h)).provider
unfolding init enabled chosen_exporter export
init_on h on = elim (Bool-cases (enabled h)) [
  | inl active ↦ rw active refl
  | inr idle ↦ rw (idle, none_chosen h on idle) refl
]

init_off :
    (h : Host) → equal_fold (h.getenv "TRACE_ENABLED") "false" ≡ true → (init h).provider ≡ noop
unfolding init enabled
init_off h off = rw off refl

-- Either spans are exported to an endpoint that is set, or nothing is exported: that is when
-- `TRACE_ENABLED` is "false", when no endpoint is set, even if `TRACE_ENABLED` is "true", and when
-- the exporter cannot be made. Spans that are exported are sampled by `TRACE_SAMPLE_RATIO`, if it is
-- a number, or else by the name of `OTEL_TRACES_SAMPLER`, and one in a hundred is for another name;
-- the service is that of `SERVICE_NAME`, or "backend", and the environment that of `ENV`, or of
-- `GO_ENV`, or "local".
pub init_lem :
    (h : Host)
    → ((x : Exporter) × Exports h x × Batches h x (init h).provider)
      ⊎ (((x : Exporter) → Exports h x → ⊥) × ((init h).provider ≡ noop))
unfolding export
init_lem h = elim (Bool-cases (equal_fold (h.getenv "TRACE_ENABLED") "false")) [
  | inl off ↦ inr (λ x ex. cc (off, ex.not_off), init_off h off)
  | inr on ↦ elim (chosen_lem h) [
    | inl (x, at, chosen, only) ↦ elim (Bool-cases (h.makes x)) [
      | inl made ↦
          let provides : batching_from_env h x ≡ (init h).provider =
            sym (init_on h on ∙ rw (chosen, made) refl) in
          inl (
            x,
            record { not_off = on; endpoint = at; made = made },
            subst (Batches h x) provides (batching-Batches h x),
          )
      | inr failed ↦ inr (
        λ y ex. cc (ap h.makes (only y ex.endpoint), ex.made, failed),
        init_on h on ∙ rw (chosen, failed) refl,
      )
    ]
    | inr (none_set, chosen) ↦ inr (λ y ex. none_set y ex.endpoint, init_on h on ∙ rw chosen refl)
  ]
]
