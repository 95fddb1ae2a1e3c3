-- ===== src/Configuration/Arguments.antt =====
-- src/configuration.cc: the configuration file and the command line. What boost::program_options makes of the
-- command line, what a stream on a file gives, and yaml-cpp are parameters.
use metadata_agent.Prelude.{
  position, text_ord, suc, ℤ, pos, negsuc, Text, Bool, true, false, Option, none, some, List, [],
  ◌∷◌, ◌++◌, codes, if◌then◌else◌, is_empty, take, drop,
}
use metadata_agent.Prelude.Order.{same}
use metadata_agent.Configuration.{Configuration, OptionName, option_names, name_of}
use metadata_agent.Configuration.Options.{Yaml, set}

-- The flags of a command line.
pub record Arguments : Type 0 where
  pub help : Bool
  pub version : Bool
  pub verbose : Bool
  pub config_file : Text
  pub option : Option (List Text)

-- How ParseArguments ends: with a code, or with an exception of yaml-cpp.
pub data Ended : Type 0 where
  returned : ℤ → Ended
  thrown : Ended

-- options_->find(key).
unfoldable pub find_option : Text → List OptionName → Option OptionName
unfolding name_of
find_option key [] = none
find_option key (k ∷ ks) =
    let later = find_option key ks in if same (name_of k) key then some k else later

-- The lines of the options of the command line, `none` where one has no `=`.
unfoldable pub option_stream : List Text → Option Text
unfolding position codes
option_stream [] = some []
option_stream (option ∷ options) = elim (position (codes "=") option) [
  | none ↦ none
  | some separator_pos ↦ elim (option_stream options) [
    | none ↦ none
    | some later ↦ some (
        take separator_pos option
        ++ codes ": "
        ++ drop (suc separator_pos) option
        ++ (10 ∷ [])
        ++ later)
  ]
]

module _ {Node : Type 0} (yaml : Yaml Node) (contents : Text → Text) where
  abbrev pub set_found : Node → Configuration → Option OptionName → Configuration
  set_found value c none = c
  set_found value c (some k) = set yaml k value c

  -- An entry of the document, whose name may be none of the table's.
  unfoldable pub set_option : Text → Node → Configuration → Configuration
  unfolding find_option set
  set_option key value c = set_found value c (find_option key option_names)

  -- The loop of ParseConfiguration: whether it ends without an exception, and what is set then.
  unfoldable pub set_entries : List (Node × Node) → Configuration → Bool × Configuration
  unfolding set_option
  set_entries [] c = (true, c)
  set_entries ((first, second) ∷ entries) c = elim (yaml.as_text first) [
    | none ↦ (false, c)
    | some key ↦ set_entries entries (set_option key second c)
  ]

  -- ParseConfiguration.
  unfoldable pub parse_configuration : Text → Configuration → Bool × Configuration
  unfolding set_entries
  parse_configuration input c = elim (yaml.load input) [
    | none ↦ (false, c)
    | some entries ↦ set_entries entries c
  ]

  -- ParseConfigFile.
  unfoldable pub parse_config_file : Text → Configuration → Bool × Configuration
  unfolding parse_configuration
  parse_config_file filename c =
      if is_empty filename then (true, c) else parse_configuration (contents filename) c

  -- The code that stands behind a parse, which an exception skips.
  abbrev pub unless_thrown :
      Bool × Configuration → (Configuration → Ended × Configuration) → Ended × Configuration
  unless_thrown (true, c) next = next c
  unless_thrown (false, c) next = (thrown, c)

  unfoldable pub parse_options : Option (List Text) → Configuration → Ended × Configuration
  unfolding parse_configuration option_stream
  parse_options none c = (returned (pos 0), c)
  parse_options (some options) c = elim (option_stream options) [
    | none ↦ (returned (pos 1), c)
    | some stream ↦ unless_thrown (parse_configuration stream c) (λ d. (returned (pos 0), d))
  ]

  -- ParseArguments; `none` where program_options throws its error.
  unfoldable pub parse_arguments : Option Arguments → Configuration → Ended × Configuration
  unfolding parse_config_file parse_options
  parse_arguments none c = (returned (pos 1), c)
  parse_arguments (some flags) c =
      let notified = record c { verbose_logging = flags.verbose } in
      if flags.help
      then (returned (negsuc 0), notified)
      else if flags.version
      then (returned (negsuc 0), notified)
      else unless_thrown (parse_config_file flags.config_file notified) (parse_options flags.option)
