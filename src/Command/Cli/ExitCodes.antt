-- ===== src/Command/Cli/ExitCodes.antt =====
-- runMain of cmd/server: exit codes and messages.
use flashgate_mcp.Base.{
  ◌≡◌, ◌≢◌, ◌↔◌, refl, sym, ◌⊎◌, inr, Option, none, some, List, [], ◌∷◌, Text, arith,
}
use flashgate_mcp.Base.Result.{Result, ok, err}
use flashgate_mcp.Config.{
  ErrorCategory, missing_root, invalid_root, root_not_found, root_not_directory, root_not_allowed,
  invalid_profile, invalid_development_option, startup_failed, Cause, config_error, category_of,
}
use flashgate_mcp.Version.{Info}
use flashgate_mcp.Mcp.Server.{finished, cancelled, out_of_fuel, failed}
use flashgate_mcp.Command.Boot.{RunError, startup, stopped}
use flashgate_mcp.Command.Cli.{
  CliResult, served, is_canceled, failure_code, run_category, one_argument, two_arguments, report,
  run_cli, run_main,
}

-- A message of runMain goes exactly with an exit code that is not 0.
abbrev pub IsHonest : CliResult → Type 0
IsHonest r = ((report r).0 ≡ 0) ↔ ((report r).1 ≡ [])

failure_code-positive : (o : Option ErrorCategory) → failure_code o ≢ 0
unfolding failure_code
failure_code-positive o = ground arith

served-IsHonest : (r : Result RunError (Unit {0})) → IsHonest (served r)
unfolding served report
served-IsHonest (ok u) = ground arith
served-IsHonest (err e) = ground (arith, failure_code-positive (run_category e))

-- What arguments that start no server come to: a text, or a refusal with code 2.
abbrev pub Told : CliResult → Type 0
Told r = IsHonest r × (((report r).0 ≡ 0) ⊎ ((report r).0 ≡ 2))

one_argument-Told : (info : Info) (a : Text) → Told (one_argument info a)
unfolding one_argument report
one_argument-Told info a = ground arith

two_arguments-Told : (info : Info) (a b : Text) → Told (two_arguments info a b)
unfolding two_arguments report
two_arguments-Told info a b = ground arith

category-configuration :
    (o : Option ErrorCategory)
    → (failure_code o ≡ 3) ↔ ((c : ErrorCategory) × (o ≡ some c) × (c ≢ startup_failed))
unfolding failure_code
category-configuration none = (λ e. absurd (ground arith), λ (c, e, n). absurd (cc))
category-configuration (some missing_root) =
    (λ _. (missing_root, refl, λ e. ground arith), λ _. refl)
category-configuration (some invalid_root) =
    (λ _. (invalid_root, refl, λ e. ground arith), λ _. refl)
category-configuration (some root_not_found) =
    (λ _. (root_not_found, refl, λ e. ground arith), λ _. refl)
category-configuration (some root_not_directory) =
    (λ _. (root_not_directory, refl, λ e. ground arith), λ _. refl)
category-configuration (some root_not_allowed) =
    (λ _. (root_not_allowed, refl, λ e. ground arith), λ _. refl)
category-configuration (some invalid_profile) =
    (λ _. (invalid_profile, refl, λ e. ground arith), λ _. refl)
category-configuration (some invalid_development_option) =
    (λ _. (invalid_development_option, refl, λ e. ground arith), λ _. refl)
category-configuration (some startup_failed) = (
  λ e. absurd (ground arith),
  λ (d, same, n). absurd (n (let same' : startup_failed ≡ d = cc in sym same')),
)

served-configuration :
    (e : RunError)
    → ((report (served (err e))).0 ≡ 3)
      ↔ ((c : ErrorCategory) × (run_category e ≡ some c) × (c ≢ startup_failed))
unfolding served report is_canceled run_category
served-configuration (startup e) = category-configuration (category_of e)
served-configuration (stopped finished) = category-configuration none
served-configuration (stopped cancelled) = (λ e. absurd (ground arith), λ (d, same, n). absurd (cc))
served-configuration (stopped out_of_fuel) = category-configuration none
served-configuration (stopped (failed e)) = category-configuration none

module _ {W : Type 0} (info : Info) (run_server : W → Result RunError (Unit {0}) × W) where
  -- What runMain itself writes to the standard error, beside what a server writes there, is empty
  -- exactly if the exit code is 0, and with any argument it starts no server and the exit code is
  -- 0 or 2.
  pub run_main-exit :
      (arguments : List Text) (w : W)
      → (let x = run_main info run_server arguments w in
          ((x.0.0 ≡ 0) ↔ (x.0.2 ≡ [])) × (arguments ≢ [] → (x.1 ≡ w) × ((x.0.0 ≡ 0) ⊎ (x.0.0 ≡ 2))))
  unfolding run_main run_cli report
  run_main-exit [] w = (served-IsHonest (run_server w).0, λ h. absurd (h refl))
  run_main-exit (a ∷ []) w = let told = one_argument-Told info a in (told.0, λ _. (refl, told.1))
  run_main-exit (a ∷ b ∷ []) w =
      let told = two_arguments-Told info a b in (told.0, λ _. (refl, told.1))
  run_main-exit (a ∷ b ∷ c ∷ rest) w = (ground arith, λ _. (refl, inr refl))

  -- Where a server that is started without arguments fails, the exit code is 3 exactly if its
  -- error has a category other than that of a failed start.
  pub run_main-configuration :
      (w : W) (e : RunError)
      → (run_server w).0 ≡ err e
      → ((run_main info run_server [] w).0.0 ≡ 3)
        ↔ ((c : ErrorCategory) × (run_category e ≡ some c) × (c ≢ startup_failed))
  unfolding run_main run_cli report
  run_main-configuration w e h = rw h (served-configuration e)

  -- What the command writes and its exit code do not depend on the cause of a configuration error,
  -- a path or a reply of the system, but only on its category.
  pub run_main-hides :
      (other : W → Result RunError (Unit {0}) × W) (w v : W) (category : ErrorCategory)
      (cause cause' : Cause)
      → (run_server w).0 ≡ err (startup (config_error category cause))
      → (other v).0 ≡ err (startup (config_error category cause'))
      → (run_main info run_server [] w).0 ≡ (run_main info other [] v).0
  unfolding run_main run_cli report served run_category is_canceled category_of
  run_main-hides other w v category cause cause' h k = rw (h, k) refl
