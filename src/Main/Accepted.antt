-- ===== src/Main/Accepted.antt =====
-- What run of cmd/kigeon/main.go knows of a configuration that it goes on with.
use kigeon.Prelude.{◌≡◌, refl, sym, subst, String, true, List, [], ◌∷◌}
use kigeon.Errors.{Result, ok, wrap_err, Good, Good-ok, Good-bind, Good-wrap, Good-any}
use kigeon.Config.{Config}
use kigeon.Config.Defaults.{load, parse, apply_defaults}
use kigeon.Config.Validation.{validate, ValidationError}
use kigeon.Config.WellFormed.{is_well_formed, validate_iff}
use kigeon.Main.{override, accept, configure}

-- a configuration that is another one with the defaults applied
HasDefaults : Config → Type 0
HasDefaults c = (c' : Config) × (c ≡ apply_defaults c')

load-HasDefaults :
    {Raw : Type 0} (read_file : String → Result Raw) (unmarshal : Raw → Result Config)
    (path : String)
    → Good HasDefaults (load read_file unmarshal path)
unfolding load parse HasDefaults
load-HasDefaults read_file unmarshal path =
    Good-bind (λ raw. Unit {0}) _ (wrap_err "failed to read config file: %w" [] (read_file path)) _
      (Good-any _)
      (λ raw u.
        Good-bind (λ c. Unit {0}) _ (wrap_err "failed to parse config: %w" [] (unmarshal raw)) _
          (Good-any _) (λ c v. (c, refl)))

-- a file's configuration with the defaults and then the flags, which is well formed
pub record IsAccepted (log_level address : String) (c : Config) : Type 0 where
  pub file : Config
  pub made : c ≡ override log_level address (apply_defaults file)
  pub well_formed : is_well_formed c ≡ true

module _ (log_level address : String) where
  accept-IsAccepted :
      (c : Config) (errors : List ValidationError)
      → validate (override log_level address (apply_defaults c)) ≡ errors
      → Good
          (IsAccepted log_level address)
          (accept (override log_level address (apply_defaults c)) errors)
  unfolding accept
  accept-IsAccepted c [] h = record {
    file = c;
    made = refl;
    well_formed = (validate_iff (override log_level address (apply_defaults c))).0 h;
  }
  accept-IsAccepted c (e ∷ errors) h = tt

  configure-IsAccepted :
      {Raw : Type 0} (read_file : String → Result Raw) (unmarshal : Raw → Result Config)
      (path : String)
      → Good (IsAccepted log_level address) (configure read_file unmarshal path log_level address)
  unfolding configure HasDefaults
  configure-IsAccepted read_file unmarshal path =
      Good-bind HasDefaults _
        (wrap_err "failed to load config: %w" [] (load read_file unmarshal path)) _
        (Good-wrap HasDefaults "failed to load config: %w" [] (load read_file unmarshal path)
          (load-HasDefaults read_file unmarshal path))
        (λ c d.
          subst
            (λ k.
              Good (IsAccepted log_level address)
                (accept (override log_level address k) (validate (override log_level address k))))
            (sym d.1) (accept-IsAccepted d.0 _ refl))

  -- The configuration of a run that goes on is accepted.
  pub configured-IsAccepted :
      {Raw : Type 0} (read_file : String → Result Raw) (unmarshal : Raw → Result Config)
      (path : String) (c : Config)
      → configure read_file unmarshal path log_level address ≡ ok c
      → IsAccepted log_level address c
  configured-IsAccepted read_file unmarshal path c h =
      Good-ok (IsAccepted log_level address) _ c (configure-IsAccepted read_file unmarshal path) h
