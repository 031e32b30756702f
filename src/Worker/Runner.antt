-- ===== src/Worker/Runner.antt =====
-- The target and the files of benchmarker/worker/cmd/runner/main.go.
pub mod Files
pub mod Main
use Prim.Native.Char.{Char, code}
use shark_42tokyo_tuning.Prelude.{String, concat, str_eq, ◌||◌, ◌==◌, if◌then◌else◌}
use shark_42tokyo_tuning.Prelude.Paths.{clean}

-- What the flags hold: a flag that is not given is empty.
pub record Flags : Type 0 where
  pub target_ip : String
  pub summary : String
  pub raw : String
  pub final : String

-- The flag, the variable `TARGET_IP`, or the local host.
unfoldable pub target_of : (flag env : String) → String
target_of flag env = if str_eq flag "" then (if str_eq env "" then "127.0.0.1" else env) else flag

unfoldable pub safe_char : Char → Char
safe_char c =
    if code c == b':' || code c == b'/' || code c == b'\\'
    then "-"
    else if code c == b' '
    then "_"
    else c

-- `strings.NewReplacer(":", "-", "/", "-", "\\", "-", " ", "_").Replace`
unfoldable pub slug : String → String
unfolding safe_char
slug String.[] = String.[]
slug (String.◌∷◌ c s) = String.◌∷◌ (safe_char c) (slug s)

-- A file of the scores; `filepath.Join` cleans the joined text.
unfoldable pub score_file : (kind target ts : String) → String
unfolding slug
score_file kind target ts = clean (
    concat "/app/scores/"
      (concat kind (concat "-" (concat (slug target) (concat "-" (concat ts ".json"))))))

unfoldable pub or_default : (flag default : String) → String
or_default flag default = if str_eq flag "" then default else flag

unfoldable pub files_of : Flags → (env ts : String) → Flags
unfolding target_of score_file or_default
files_of flags env ts =
    let target = target_of flags.target_ip env in
    record {
      target_ip = target;
      summary = or_default flags.summary (score_file "summary" target ts);
      raw = or_default flags.raw (score_file "raw-data" target ts);
      final = or_default flags.final (score_file "final" target ts);
    }
