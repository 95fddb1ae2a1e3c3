-- ===== src/Tests/Configuration.antt =====
-- The sources of the options at concrete inputs: documents of lines with a key, a colon and a value.
use metadata_agent.Prelude.{
  position, text_ord, ◌+◌, ◌-◌, ◌*◌, ℕ, pos, Text, true, false, none, some, [], ◌∷◌, ◌≡◌, refl,
  codes, take, drop, map,
}
use metadata_agent.Prelude.Order.{same, list_lt}
use metadata_agent.Environment.{lines_from}
use metadata_agent.Configuration.{Configuration, of_metadata_api_port, defaults}
use metadata_agent.Configuration.Options.{number, read, Yaml}
use metadata_agent.Configuration.Arguments.{Arguments, thrown, parse_arguments}
use metadata_agent.Configuration.Sources.{parse_arguments-after_entries}

abbrev entry_of_line : Text → Text × Text
entry_of_line line = elim (position (codes ": ") line) [
  | none ↦ (line, [])
  | some n ↦ (take n line, drop (n + 2) line)
]

abbrev number_from : ℕ → Text → ℕ
number_from n [] = n
number_from n (b ∷ text) = number_from (n * 10 + (b - 48)) text

abbrev yaml : Yaml Text
yaml = record {
  load = λ text. some (map entry_of_line (lines_from [] text));
  as_text = λ text. some text;
  as_number = λ text. some (pos (number_from 0 text));
  as_flag = λ text. none;
}

abbrev contents : Text → Text
contents filename = codes "MetadataApiPort: 80\nInstanceId: 7\n"

abbrev flags : Arguments
flags = record {
  help = false;
  version = false;
  verbose = true;
  config_file = codes "agent.yaml";
  option = some (codes "MetadataApiPort=90" ∷ []);
}

abbrev standard : Configuration
standard = defaults (codes "1")

parse_arguments-after_entries_example :
    read of_metadata_api_port (parse_arguments yaml contents (some flags) standard).1
    ≡ number (pos 90)
unfolding parse_arguments lines_from same list_lt read
parse_arguments-after_entries_example =
    parse_arguments-after_entries yaml contents flags standard of_metadata_api_port refl

-- A document that yaml-cpp cannot load ends the program.
abbrev broken : Yaml Text
broken = record yaml { load = λ text. none }

broken_file : (parse_arguments broken contents (some flags) standard).0 ≡ thrown
unfolding parse_arguments
broken_file = refl
