-- ===== src/Worker/Runner/Main/Scored.antt =====
-- What the runner prints and writes, and the file that it reads.
use Prim.Native.Char.{Char}
use text.Mathlib.TextLemmas.{nil-append, cons-append, append_assoc}
use shark_42tokyo_tuning.Prelude.{
  ◌≡◌, ◌≢◌, refl, sym, ap, ◌∙◌, inl, inr, ◌⊎◌, String, concat, str_eq, false, Error, Option, none,
  some, List, [], ◌∷◌, ok, Option-cases, Result-cases, Bool-cases, eq_iff,
}
use shark_42tokyo_tuning.Prelude.Int.{ℤ, pos}
use shark_42tokyo_tuning.Prelude.Paths.{clean, join}
use shark_42tokyo_tuning.Prelude.Paths.Joined.{clean-dot, differs, has_none}
use shark_42tokyo_tuning.Worker.Runner.Files.{file_name, file_name-no_slash, directory_join}
use shark_42tokyo_tuning.Prelude.Paths.Elements.{has_slash}
use shark_42tokyo_tuning.Prelude.Processes.{Process}
use shark_42tokyo_tuning.Worker.Runner.{
  Flags, target_of, safe_char, slug, score_file, files_of, or_default,
}
use shark_42tokyo_tuning.Worker.Runner.Main.{
  Effect, writes, prints, Host, script_raw, score_of, or_zero, unless, report, run_script,
  make_dirs, print_score, main, scorefile, local_test,
}

abbrev pub printed : List Effect → List ℤ
printed [] = []
printed (prints label n ∷ xs) = n ∷ printed xs
printed (x ∷ xs) = printed xs

abbrev pub written : List Effect → List (String × ℤ)
written [] = []
written (writes path n ∷ xs) = (path, n) ∷ written xs
written (x ∷ xs) = written xs

-- The score of a file, or 0 if it has none.
abbrev pub Scores : Host → (file : String) → ℤ → Type 0
Scores h file n = (score_of h file ≡ ok n) ⊎ (((m : ℤ) → score_of h file ≢ ok m) × (n ≡ pos 0))

abbrev dash : Char
dash = "-"

abbrev pub argument_of : (files : Flags) (ts : String) → String
argument_of files ts = concat (slug files.target_ip) (concat "-" ts)

no_text-cons : (c : Char) (s : String) → str_eq (String.◌∷◌ c s) "" ≡ false
no_text-cons c s = differs has_none (String.◌∷◌ c s) "" refl refl

dashed : (ts : String) → str_eq (concat "-" ts) "" ≡ false
dashed ts = rw (cons-append dash "" ts) (no_text-cons dash _)

str_eq-ne : (s t : String) → s ≢ t → str_eq s t ≡ false
str_eq-ne s t ne = elim (Bool-cases (str_eq s t)) [
  | inl same ↦ absurd (ne ((eq_iff s t).0 same))
  | inr other ↦ other
]

-- This run's directories are made, and its script runs.
abbrev pub Works : Host → (files : Flags) → Type 0
Works h files =
    (h.mkdir_error (h.dir files.summary) ≡ none)
    × (h.mkdir_error (h.dir files.final) ≡ none)
    × (h.k6_error (argument_of files h.ts) files.target_ip ≡ none)

-- One of this run's directories is not made, or its script fails.
abbrev pub Fails : Host → (files : Flags) → Type 0
Fails h files =
    ((x : Error) × (h.mkdir_error (h.dir files.summary) ≡ some x))
    ⊎ ((x : Error) × (h.mkdir_error (h.dir files.final) ≡ some x))
    ⊎ ((x : Error) × (h.k6_error (argument_of files h.ts) files.target_ip ≡ some x))

-- A file and its score have been written, unless that is an error.
abbrev pub Wrote : Option Error → (file : String) → ℤ → List (String × ℤ) → Type 0
Wrote none file n files = files ≡ (file, n) ∷ []
Wrote (some x) file n files = files ≡ []

-- Either the process ends before it prints and writes anything, since a part of it fails; or all
-- works, it has printed one score, and has written the same to the file of the flag `final`, if that
-- can be written.
abbrev pub Scored : Host → (files : Flags) → Process Effect (Unit {0}) → Type 0
Scored h files m =
    (Fails h files × (m.0 ≡ none) × (printed m.1 ≡ []) × (written m.1 ≡ []))
    ⊎ ((n : ℤ) × Works h files
        × Scores h files.raw n
        × (m.0 ≡ some tt)
        × (printed m.1 ≡ n ∷ [])
        × Wrote (h.write_error files.final) files.final n (written m.1))

-- A tool has printed the score; or it has ended in an error, and the score is 0.
abbrev pub Alone : Process Effect (Unit {0}) → ℤ → Type 0
Alone m n =
    ((m.0 ≡ some tt) × (printed m.1 ≡ n ∷ [])) ⊎ ((m.0 ≡ none) × (printed m.1 ≡ []) × (n ≡ pos 0))

alone :
    (h : Host) (file label : String) (n : ℤ)
    → Scores h file n
    → Alone (print_score h label (score_of h file)) n
unfolding print_score
alone h file label n (inl p) = rw p (inl (refl, refl))
alone h file label n (inr (fails, z)) = elim (Result-cases (score_of h file)) [
  | inl (m, p) ↦ absurd (fails m p)
  | inr (inl (x, p)) ↦ rw p (inr (refl, refl, z))
  | inr (inr p) ↦ rw p (inr (refl, refl, z))
]

one : {a b : ℤ} → ◌≡◌ {A = List ℤ} (a ∷ []) (b ∷ []) → a ≡ b
one p = cc

or_zero-Scores : (h : Host) (file : String) → Scores h file (or_zero h (score_of h file))
unfolding or_zero
or_zero-Scores h file = elim (Result-cases (score_of h file)) [
  | inl (n, p) ↦ rw p (inl refl)
  | inr (inl (x, p)) ↦ rw p (inr (λ m q. cc, refl))
  | inr (inr p) ↦ rw p (inr (λ m q. cc, refl))
]

module _ (h : Host) (flags : Flags) where
  abbrev files : Flags
  files = files_of flags h.target_ip h.ts

  abbrev argument : String
  argument = argument_of files h.ts

  -- The end of a run whose script has worked.
  abbrev reported : Process Effect (Unit {0})
  reported = report h files (or_zero h (score_of h files.raw))

  reported-Wrote :
      (reported.0 ≡ some tt)
      × (printed reported.1 ≡ or_zero h (score_of h files.raw) ∷ [])
      × Wrote
          (h.write_error files.final)
          files.final
          (or_zero h (score_of h files.raw))
          (written reported.1)
  unfolding report
  reported-Wrote = elim (Option-cases (h.write_error files.final)) [
    | inl p ↦ rw p (refl, refl, refl)
    | inr (x, p) ↦ rw p (refl, refl, refl)
  ]

  -- Either the runner prints and writes no score, and ends in an error, and a directory of this run
  -- could not be made or its script failed; or they worked, the runner returns, has printed one
  -- score, and has written the same to the file of the flag `final`, unless that write is an error,
  -- and then it has written none. The score is that of its raw data, or 0 where the raw data has none.
  pub main-Scored : Scored h files (main h flags)
  unfolding main make_dirs run_script unless
  main-Scored = elim (Option-cases (h.mkdir_error (h.dir files.summary))) [
    | inr (x, p) ↦ inl (inl (x, p), rw p refl, rw p refl, rw p refl)
    | inl p ↦ elim (Option-cases (h.mkdir_error (h.dir files.final))) [
      | inr (x, q) ↦ inl (inr (inl (x, q)), rw (p, q) refl, rw (p, q) refl, rw (p, q) refl)
      | inl q ↦ elim (Option-cases (h.k6_error argument files.target_ip)) [
        | inr (x, r) ↦
            inl (inr (inr (x, r)), rw (p, q, r) refl, rw (p, q, r) refl, rw (p, q, r) refl)
        | inl r ↦
            let (returned, prints_it, wrote_it) = reported-Wrote in
            inr (
              or_zero h (score_of h files.raw),
              (p, q, r),
              or_zero-Scores h files.raw,
              rw (p, q, r) returned,
              rw (p, q, r) prints_it,
              rw (p, q, r) wrote_it,
            )
      ]
    ]
  ]

  -- The two tools that compute the score alone agree with the runner on its raw data: where the runner
  -- prints a score, each of them prints the same, or ends in an error, and then the runner's is 0.
  pub main-Alone :
      (n : ℤ)
      → printed (main h flags).1 ≡ n ∷ []
      → files.raw ≢ ""
      → Alone (scorefile h files.raw) n × Alone (local_test h files.raw) n
  unfolding scorefile local_test
  main-Alone n p given = elim main-Scored [
    | inl (_, _, silent, _) ↦ cc (p, silent)
    | inr (m, _, scores, _, prints_m, _) ↦
        let same = one (sym prints_m ∙ p) in
        let is_given : str_eq files.raw "" ≡ false = str_eq-ne files.raw "" given in
        let found = rw same at scores in
        (rw is_given (alone h files.raw "" n found), alone h files.raw "Final Score: " n found)
  ]

argument-ne : (target ts : String) → str_eq (concat (slug target) (concat "-" ts)) "" ≡ false
unfolding slug
argument-ne String.[] ts = rw (nil-append (concat "-" ts)) (dashed ts)
argument-ne (String.◌∷◌ c s) ts =
    rw (cons-append (safe_char c) (slug s) (concat "-" ts)) (no_text-cons _ _)

-- The script's name for the file, and the runner's.
script_join :
    (target ts : String)
    → concat "./scores/raw-data-" (concat (concat (slug target) (concat "-" ts)) ".json")
      ≡ concat "./scores/" (file_name "raw-data" target ts)
script_join target ts =
    ap (concat "./scores/raw-data-") (
      append_assoc (slug target) (concat "-" ts) ".json"
      ∙ ap (concat (slug target)) (append_assoc "-" ts ".json"))
    ∙ (append_assoc "./scores/" "raw-data-" _
        ∙ ap (concat "./scores/") (append_assoc "raw-data" "-" _))

dotted :
    (name : String)
    → concat "/app/" (concat "./scores/" name)
      ≡ concat "/" (join ("app" ∷ "." ∷ "scores" ∷ name ∷ []))
unfolding join
dotted name =
    append_assoc "/" "app/" _
    ∙ ap (concat "/") (
        append_assoc "app" "/" _
        ∙ ap (concat "app") (
            ap (concat "/") (
              append_assoc "." "/scores/" name
              ∙ ap (concat ".") (
                  append_assoc "/" "scores/" name
                  ∙ ap (concat "/") (append_assoc "scores" "/" name)))))

-- Where the flag `raw` is not given, the runner reads the file that run_k6.sh leaves when it is called
-- in /app with the runner's argument. The time has no slash.
pub script_raw-files_of :
    (flags : Flags) (target_ip ts : String)
    → flags.raw ≡ ""
    → has_slash ts ≡ false
    → clean (concat "/app/" (script_raw (argument_of (files_of flags target_ip ts) ts)))
      ≡ (files_of flags target_ip ts).raw
unfolding script_raw files_of or_default score_file
script_raw-files_of flags target_ip ts unset no_slash =
    let target = target_of flags.target_ip target_ip in
    let name = file_name "raw-data" target ts in
    rw (argument-ne target ts, unset)
      (ap (λ x. clean (concat "/app/" x)) (script_join target ts)
        ∙ (ap clean (dotted name)
            ∙ (clean-dot "app" "scores" (name ∷ [])
                  (refl, (refl, (file_name-no_slash "raw-data" target ts refl no_slash, tt)))
                ∙ ap clean (sym (directory_join name)))))
