-- ===== src/Worker/Runner/Main.antt =====
-- `main` of benchmarker/worker/cmd/runner/main.go, with `WriteSummaryJSON` of score/calcScore.go, and
-- the two tools that compute a score alone: cmd/scorefile/calcScoreTest.go and localRunBench.go. What
-- they do to the system is written down in order; its answers are arguments.
pub mod Scored
use shark_42tokyo_tuning.Prelude.{
  ℕ, String, concat, str_eq, if◌then◌else◌, Option, none, some, Result, ok, err, panic, Error, Bool,
  true, false,
}
use shark_42tokyo_tuning.Prelude.Int.{ℤ, pos}
use shark_42tokyo_tuning.Prelude.Processes.{Process, ◌>>=◌, ◌>>◌, pure, exit, perform}
use shark_42tokyo_tuning.Worker.Score.{Floats, Object, compute_final_score_from_k6}
use shark_42tokyo_tuning.Worker.Runner.{Flags, target_of, slug, files_of}

pub data Effect : Type 0 where
  makes_dir : (path : String) → Effect
  -- The script, with its argument and the variable `TARGET_IP`.
  runs_k6 : (argument target_ip : String) → Effect
  -- A JSON object with the one field "finalScore".
  writes : (path : String) (final_score : ℤ) → Effect
  write_failed : (path : String) (final_score : ℤ) → Effect
  -- A line with the score behind a label.
  prints : (label : String) (score : ℤ) → Effect

pub record Host : Type 1 where
  pub floats : Floats
  -- The variable `TARGET_IP`, empty where it is not set, and the time as "20060102150405".
  pub target_ip : String
  pub ts : String
  -- `filepath.Dir`
  pub dir : String → String
  pub mkdir_error : (path : String) → Option Error
  pub k6_error : (argument target_ip : String) → Option Error
  -- What a file reads as when the script has run, and the decoder of the metrics.
  pub read : (path : String) → Result String
  pub unmarshal : String → Option (Object (Object floats.Float))
  pub write_error : (path : String) → Option Error

-- The raw data that run_k6.sh leaves, in its directory.
unfoldable pub script_raw : (argument : String) → String
script_raw argument =
    concat "./scores/raw-data-" (concat (if str_eq argument "" then "main" else argument) ".json")

-- How a write of a file is written down.
abbrev pub wrote : Option Error → (path : String) → ℤ → Effect
wrote none path score = writes path score
wrote (some x) path score = write_failed path score

module _ (h : Host) where
  pub score_of : (path : String) → Result ℤ
  score_of path = compute_final_score_from_k6 h.floats (h.read path) h.unmarshal

  -- `WriteSummaryJSON`
  pub write_summary_json : (path : String) → ℤ → Process Effect (Option Error)
  write_summary_json path score = do
    perform (wrote (h.write_error path) path score)
    pure (h.write_error path)

  unfoldable pub or_zero : Result ℤ → ℤ
  or_zero (ok n) = n
  or_zero (err x) = pos 0
  or_zero panic = pos 0

  -- `log.Fatalf` where there is an error.
  unless : {A : Type 0} → Option Error → Process Effect A → Process Effect A
  unless none m = m
  unless (some x) m = exit

  report : (files : Flags) → ℤ → Process Effect (Unit {0})
  unfolding write_summary_json
  report files score = do _ ← write_summary_json files.final score; perform (prints "" score)

  run_script : (files : Flags) → Process Effect (Unit {0})
  unfolding report score_of or_zero unless
  run_script files = do
    perform (runs_k6 (concat (slug files.target_ip) (concat "-" h.ts)) files.target_ip)
    unless (h.k6_error (concat (slug files.target_ip) (concat "-" h.ts)) files.target_ip)
        (report files (or_zero (score_of files.raw)))

  make_dirs : (files : Flags) → Process Effect (Unit {0})
  unfolding run_script unless
  make_dirs files = do
    perform (makes_dir (h.dir files.summary))
    unless (h.mkdir_error (h.dir files.summary)) (do
      perform (makes_dir (h.dir files.final))
      unless (h.mkdir_error (h.dir files.final)) (run_script files))

  -- `main`
  unfoldable pub main : Flags → Process Effect (Unit {0})
  unfolding make_dirs
  main flags = make_dirs (files_of flags h.target_ip h.ts)

  print_score : (label : String) → Result ℤ → Process Effect (Unit {0})
  print_score label (ok n) = perform (prints label n)
  print_score label (err x) = exit
  print_score label panic = exit

  -- `main` of cmd/scorefile/calcScoreTest.go, with its flag `f`.
  unfoldable pub scorefile : (f : String) → Process Effect (Unit {0})
  unfolding score_of print_score
  scorefile f = if str_eq f "" then exit else print_score "" (score_of f)

  -- `localTest` of localRunBench.go, with its argument.
  unfoldable pub local_test : (argument : String) → Process Effect (Unit {0})
  unfolding score_of print_score
  local_test argument = print_score "Final Score: " (score_of argument)
