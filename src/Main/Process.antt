-- ===== src/Main/Process.antt =====
-- main, setupLogger and createK8sClient of cmd/kigeon/main.go.
use kigeon.Prelude.{
  ◌≡◌, refl, ℕ, String, true, false, Option, none, some, List, [], ◌∷◌, arith, contains,
  All-contains, inl, inr, Bool-cases, ◌==◌, eq_iff, if◌then◌else◌,
}
use kigeon.Errors.{Error, Result, ok, wrap_err, ◌>>=◌}
use kigeon.Config.{Config}
use kigeon.Config.Defaults.{apply_defaults, text_or}
use kigeon.Config.Validation.{log_levels, log_formats}
use kigeon.Config.WellFormed.{is_well_formed}
use kigeon.Main.Accepted.{IsAccepted, configured-IsAccepted}
use kigeon.Main.{override, configure}

-- the levels of log/slog, and the handlers for its records
pub data Level : Type 0 where
  debug info warn error : Level

pub data Handler : Type 0 where
  json_handler text_handler : Level → Handler

-- the level that `setupLogger` makes of a text
unfoldable pub level_of : String → Level
level_of level =
    if level == "debug"
    then debug
    else if level == "warn"
    then warn
    else if level == "error"
    then error
    else info

-- `setupLogger`
unfoldable pub setup_logger : String → String → Handler
unfolding level_of
setup_logger level format =
    if format == "text" then text_handler (level_of level) else json_handler (level_of level)

-- `createK8sClient`; the parameters are those of client-go
unfoldable pub create_k8s_client :
    {RestConfig Client : Type 0}
    → (String → Result RestConfig)
    → Result RestConfig
    → (RestConfig → Result Client)
    → String
    → Result Client
create_k8s_client from_file in_cluster new_client path = do
  cfg ←
      (if path == ""
        then wrap_err "failed to get in-cluster config: %w" [] in_cluster
        else wrap_err "failed to build config from kubeconfig: %w" [] (from_file path))
  wrap_err "failed to create Kubernetes client: %w" [] (new_client cfg)

-- the exit status of `main`, for the flag `--config` and what `run` returns
unfoldable pub exit_status : String → Option Error → ℕ
exit_status config_path result =
    if config_path == "" then 1 else (elim result [ none ↦ 0 | some e ↦ 1 ])

-- the texts of a configuration for a handler
unfoldable pub level_text : Level → String
level_text debug = "debug"
level_text info = "info"
level_text warn = "warn"
level_text error = "error"

abbrev pub handler_level : Handler → Level
handler_level (json_handler l) = l
handler_level (text_handler l) = l

abbrev pub handler_format : Handler → String
handler_format (json_handler l) = "json"
handler_format (text_handler l) = "text"

-- The level and the format that the logger is set up with are those of the configuration.
SetsUp : String → String → Type 0
SetsUp level format =
    (level_text (handler_level (setup_logger level format)) ≡ level)
    × (handler_format (setup_logger level format) ≡ format)

known_level :
    (level : String) → contains log_levels level ≡ true → level_text (level_of level) ≡ level
unfolding level_text level_of
known_level level =
    All-contains (λ l. level_text (level_of l) ≡ l) log_levels level
      (refl, (refl, (refl, (refl, tt))))

known_format :
    (level format : String)
    → contains log_formats format ≡ true
    → handler_format (setup_logger level format) ≡ format
unfolding setup_logger
known_format level format =
    All-contains (λ f. handler_format (setup_logger level f) ≡ f) log_formats format
      (refl, (refl, tt))

known-SetsUp :
    (level format : String)
    → contains log_levels level ≡ true
    → contains log_formats format ≡ true
    → SetsUp level format
unfolding SetsUp setup_logger
known-SetsUp level format h g = elim (Bool-cases (format == "text")) [
  | inl text ↦ (rw text (known_level level h), known_format level format g)
  | inr json ↦ (rw json (known_level level h), known_format level format g)
]

-- a text that a default or a flag sets is not empty
set_text :
    (default flag s : String)
    → ("" == default) ≡ false
    → ("" == (if flag == "" then text_or default s else flag)) ≡ false
unfolding text_or
set_text default flag s d = ground (arith, eq_iff flag "", eq_iff "" flag, eq_iff s "", eq_iff "" s)

known_text :
    (known : List String) (t : String)
    → ("" == t) ≡ false
    → contains ("" ∷ known) t ≡ true
    → contains known t ≡ true
known_text known t e h = ground arith

accepted-texts :
    (c : Config)
    → is_well_formed c ≡ true
    → (contains ("" ∷ log_levels) c.global.log_level ≡ true)
      × (contains ("" ∷ log_formats) c.global.log_format ≡ true)
unfolding is_well_formed
accepted-texts c h = ground (arith, h)

accepted-SetsUp :
    (log_level address : String) (c : Config)
    → IsAccepted log_level address c
    → SetsUp c.global.log_level c.global.log_format
unfolding override apply_defaults
accepted-SetsUp log_level address c a =
    let texts = accepted-texts c a.well_formed in
    let level : ("" == c.global.log_level) ≡ false =
      rw a.made (set_text "info" log_level a.file.global.log_level refl) in
    let format : ("" == c.global.log_format) ≡ false =
      rw a.made (set_text "json" "" a.file.global.log_format refl) in
    known-SetsUp c.global.log_level c.global.log_format
      (known_text log_levels c.global.log_level level texts.0)
      (known_text log_formats c.global.log_format format texts.1)

-- With a configuration that `run` goes on with, whatever the file and the flags are, the logger has
-- the level and the format that the configuration names.
configure-setup_logger :
    {Raw : Type 0} (read_file : String → Result Raw) (unmarshal : Raw → Result Config)
    (path log_level address : String) (c : Config)
    → configure read_file unmarshal path log_level address ≡ ok c
    → (level_text (handler_level (setup_logger c.global.log_level c.global.log_format))
        ≡ c.global.log_level)
      × (handler_format (setup_logger c.global.log_level c.global.log_format) ≡ c.global.log_format)
unfolding SetsUp
configure-setup_logger read_file unmarshal path log_level address c h =
    accepted-SetsUp log_level address c
      (configured-IsAccepted log_level address read_file unmarshal path c h)
