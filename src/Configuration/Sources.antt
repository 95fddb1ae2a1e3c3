-- ===== src/Configuration/Sources.antt =====
-- src/configuration.cc: which source an option has its value from.
use metadata_agent.Prelude.{
  text_ord, pos, negsuc, Text, Bool, true, false, Option, none, some, List, [], ◌∷◌, ◌++◌, ◌≡◌,
  refl, sym, subst, ap, ◌∙◌, inl, inr, if◌then◌else◌, is_empty, Bool-cases, arith, Option-cases,
}
use metadata_agent.Prelude.Order.{same, list_lt, eq_of_same}
use metadata_agent.Configuration.{Configuration, OptionName, of_project_id, option_names, name_of}
use metadata_agent.Configuration.Options.{Setting, read, Yaml}
use metadata_agent.Configuration.Settings.{convert, read-set, read-set_other}
use metadata_agent.Configuration.Arguments.{
  Arguments, Ended, returned, find_option, option_stream, set_option, set_found, set_entries,
  parse_configuration, parse_config_file, parse_options, parse_arguments, unless_thrown,
}

find_option-name_of : (k : OptionName) → find_option (name_of k) option_names ≡ some k
unfolding find_option name_of option_names same list_lt
find_option-name_of of_project_id = refl
find_option-name_of _ = refl

read-verbose :
    (k : OptionName) (b : Bool) (c : Configuration)
    → read k (record c { verbose_logging = b }) ≡ read k c
unfolding read
read-verbose of_project_id b c = refl
read-verbose _ b c = refl

name_of-find_option :
    (key : Text) (j : OptionName) (ks : List OptionName)
    → find_option key ks ≡ some j
    → same (name_of j) key ≡ true
unfolding find_option
name_of-find_option key j [] e = absurd (ground arith)
name_of-find_option key j (k ∷ ks) e = elim (Bool-cases (same (name_of k) key)) [
  | inl found ↦ ground arith
  | inr other ↦ name_of-find_option key j ks (rw other at e)
]

not_zero : Path Ended (returned (pos 1)) (returned (pos 0)) → ⊥
not_zero e = ground arith

clash : (b : Bool) → b ≡ true → b ≡ false → ⊥
clash b h k = ground arith

module _ {Node : Type 0} (yaml : Yaml Node) (contents : Text → Text) where
  -- An entry with the name of an option, or with another name.
  abbrev pub after_entry : Bool → Node → Setting → Setting
  after_entry named value s = if named then convert yaml s value else s

  read-set_found :
      (k : OptionName) (key : Text) (value : Node) (c : Configuration) (b : Bool)
      (o : Option OptionName)
      → same (name_of k) key ≡ b
      → find_option key option_names ≡ o
      → read k (set_found yaml contents value c o) ≡ after_entry b value (read k c)
  read-set_found k key value c true o named found =
      subst (λ o. read k (set_found yaml contents value c o) ≡ convert yaml (read k c) value)
        (sym (find_option-name_of k)
          ∙ ap (λ t. find_option t option_names) (eq_of_same (name_of k) key named)
          ∙ found)
        (read-set yaml k value c)
  read-set_found k key value c false none other missing = refl
  read-set_found k key value c false (some j) other found = elim (read-set_other yaml j k) [
    | inl e ↦ absurd (
        clash (same (name_of k) key)
          (subst (λ i. same (name_of i) key ≡ true) e
            (name_of-find_option key j option_names found))
          other)
    | inr apart ↦ apart value c
  ]

  read-set_option :
      (k : OptionName) (key : Text) (value : Node) (c : Configuration)
      → read k (set_option yaml contents key value c)
        ≡ after_entry (same (name_of k) key) value (read k c)
  unfolding set_option
  read-set_option k key value c =
      read-set_found k key value c (same (name_of k) key) (find_option key option_names) refl refl

  -- The entries in their order: each that has the option's name gives it what it converts to, or leaves it
  -- if it does not convert.
  abbrev pub after_entries : OptionName → List (Node × Node) → Setting → Setting
  after_entries k [] s = s
  after_entries k ((first, second) ∷ entries) s =
      after_entries k entries (elim (yaml.as_text first) [
        | none ↦ s
        | some key ↦ after_entry (same (name_of k) key) second s
      ])

  after_entries-append :
      (k : OptionName) (first second : List (Node × Node)) (s : Setting)
      → after_entries k (first ++ second) s ≡ after_entries k second (after_entries k first s)
  after_entries-append k [] second s = refl
  after_entries-append k ((a, b) ∷ first) second s =
      after_entries-append k first second
        (elim (yaml.as_text a) [ none ↦ s | some key ↦ after_entry (same (name_of k) key) b s ])

  -- A parse that ended without an exception has set the option so.
  abbrev HasSetting : OptionName → Setting → Bool × Configuration → Type 0
  HasSetting k s parsed = parsed.0 ≡ true → read k parsed.1 ≡ s

  set_entries-HasSetting :
      (k : OptionName) (entries : List (Node × Node)) (c : Configuration)
      → HasSetting k (after_entries k entries (read k c)) (set_entries yaml contents entries c)
  unfolding set_entries
  set_entries-HasSetting k [] c h = refl
  set_entries-HasSetting k ((first, second) ∷ entries) c h =
      elim (Option-cases (yaml.as_text first)) [
        | inl no_text ↦ absurd (clash true refl (sym (rw (no_text, set_entries) at h)))
        | inr (key, e) ↦
            rw (e, set_entries)
              (set_entries-HasSetting k entries (set_option yaml contents key second c)
                  (rw (e, set_entries) at h)
                ∙ ap (after_entries k entries) (read-set_option k key second c))
      ]

  -- The entries of a document, none of one that cannot be loaded.
  abbrev pub entries_in : Text → List (Node × Node)
  entries_in input = elim (yaml.load input) [ none ↦ [] | some entries ↦ entries ]

  parse_configuration-HasSetting :
      (k : OptionName) (input : Text) (c : Configuration)
      → HasSetting k
          (after_entries k (entries_in input) (read k c))
          (parse_configuration yaml contents input c)
  unfolding parse_configuration
  parse_configuration-HasSetting k input c h = elim (Option-cases (yaml.load input)) [
    | inl failed ↦ absurd (clash true refl (sym (rw (failed, parse_configuration) at h)))
    | inr (entries, e) ↦
        rw (e, parse_configuration, entries_in)
          (set_entries-HasSetting k entries c (rw (e, parse_configuration) at h))
  ]

  -- The entries of the configuration file, and those of the command line's options.
  abbrev pub file_entries : Text → List (Node × Node)
  file_entries filename = if is_empty filename then [] else entries_in (contents filename)

  abbrev pub option_entries : Option (List Text) → List (Node × Node)
  option_entries none = []
  option_entries (some options) = elim (option_stream options) [
    | none ↦ []
    | some stream ↦ entries_in stream
  ]

  parse_config_file-HasSetting :
      (k : OptionName) (filename : Text) (c : Configuration)
      → HasSetting k
          (after_entries k (file_entries filename) (read k c))
          (parse_config_file yaml contents filename c)
  unfolding parse_config_file
  parse_config_file-HasSetting k [] c h = refl
  parse_config_file-HasSetting k (b ∷ filename) c h =
      parse_configuration-HasSetting k (contents (b ∷ filename)) c h

  -- ParseArguments has returned 0 and set the option so.
  abbrev Returned : OptionName → Setting → Ended × Configuration → Type 0
  Returned k s p = p.0 ≡ returned (pos 0) → read k p.1 ≡ s

  unless_thrown-Returned :
      (k : OptionName) (s t : Setting) (parsed : Bool × Configuration)
      (next : Configuration → Ended × Configuration)
      → HasSetting k s parsed
      → ((d : Configuration) → read k d ≡ s → Returned k t (next d))
      → Returned k t (unless_thrown yaml contents parsed next)
  unless_thrown-Returned k s t (true, d) next has_setting rest = rest d (has_setting refl)
  unless_thrown-Returned k s t (false, d) next has_setting rest = λ h. absurd (ground arith)

  parse_options-Returned :
      (k : OptionName) (options : Option (List Text)) (c : Configuration)
      → Returned k
          (after_entries k (option_entries options) (read k c))
          (parse_options yaml contents options c)
  unfolding parse_options
  parse_options-Returned k none c h = refl
  parse_options-Returned k (some options) c h = elim (Option-cases (option_stream options)) [
    | inl bad ↦ absurd (not_zero (rw (bad, parse_options) at h))
    | inr (stream, e) ↦
        rw (e, parse_options, option_entries)
          (unless_thrown-Returned k _ (after_entries k (entries_in stream) (read k c))
            (parse_configuration yaml contents stream c) (λ d. (returned (pos 0), d))
            (parse_configuration-HasSetting k stream c) (λ d g i. g) (rw (e, parse_options) at h))
  ]

  unless_asked-Returned :
      (k : OptionName) (s : Setting) (help version : Bool) (d : Configuration)
      (p : Ended × Configuration)
      → Returned k s p
      → Returned k s (
          if help
          then (returned (negsuc 0), d)
          else if version
          then (returned (negsuc 0), d)
          else p)
  unless_asked-Returned k s true version d p r h = absurd (ground arith)
  unless_asked-Returned k s false true d p r h = absurd (ground arith)
  unless_asked-Returned k s false false d p r h = r h

  -- When the command line has been read and ParseArguments returns 0, the program goes on, and each option
  -- has its default, or what the entries of the configuration file and then those of the command line with
  -- its name have made of it, the last one that converts to its type: the command line overrides the file.
  pub parse_arguments-after_entries :
      (flags : Arguments) (c : Configuration) (k : OptionName)
      → (parse_arguments yaml contents (some flags) c).0 ≡ returned (pos 0)
      → read k (parse_arguments yaml contents (some flags) c).1
        ≡ after_entries k (file_entries flags.config_file ++ option_entries flags.option) (read k c)
  unfolding parse_arguments
  parse_arguments-after_entries flags c k h =
      let notified = record c { verbose_logging = flags.verbose } in
      let from_file = after_entries k (file_entries flags.config_file) (read k c) in
      let from_options = after_entries k (option_entries flags.option) from_file in
      unless_asked-Returned k from_options flags.help flags.version notified
        (unless_thrown yaml contents (parse_config_file yaml contents flags.config_file notified)
          (parse_options yaml contents flags.option))
        (unless_thrown-Returned k from_file from_options
          (parse_config_file yaml contents flags.config_file notified)
          (parse_options yaml contents flags.option)
          (λ g.
            parse_config_file-HasSetting k flags.config_file notified g
            ∙ ap (after_entries k (file_entries flags.config_file))
                (read-verbose k flags.verbose c))
          (λ d e g.
            parse_options-Returned k flags.option d g
            ∙ ap (after_entries k (option_entries flags.option)) e))
        h
      ∙ sym (
          after_entries-append k (file_entries flags.config_file) (option_entries flags.option)
            (read k c))
