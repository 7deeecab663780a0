-- ===== src/Main/Parsing.antt =====
-- The options of src/main.cc: what the loop over them makes of any command line.
use svnsrv.Base.{
  ℕ, Bool, true, false, ◌||◌, List, [], ◌∷◌, Option, none, some, ◌≡◌, ◌==◌, if◌then◌else◌, arith,
}
use svnsrv.Base.Text.{Bytes}
use svnsrv.Main.{Options, no_options, set_option, parse_options}

-- Whether an option was given.
abbrev pub given : ℕ → List (ℕ × Option Bytes) → Bool
given c [] = false
given c ((ch, optarg) ∷ rest) = ch == c || given c rest

-- The argument of the last one given, or the default.
abbrev pub last_given : ℕ → List (ℕ × Option Bytes) → Option Bytes → Option Bytes
last_given c [] d = d
last_given c ((ch, optarg) ∷ rest) d = last_given c rest (if ch == c then optarg else d)

-- The locals that a command line determines, from those before.
abbrev pub chosen : List (ℕ × Option Bytes) → Options → Options
chosen es o = record {
  daemon = o.daemon || given b'D' es;
  config = last_given b'c' es o.config;
  debug = o.debug || given b'd' es;
  version = o.version || given b'v' es;
  quiet = o.quiet || given b'q' es;
  signame = last_given b's' es o.signame;
}

true-or : (b c : Bool) → b ≡ true → (b || c) ≡ true
true-or b c e = ground arith

chosen-cons :
    (ch : ℕ) (optarg : Option Bytes) (es : List (ℕ × Option Bytes)) (o : Options)
    → chosen es (set_option ch optarg o) ≡ chosen ((ch, optarg) ∷ es) o
unfolding set_option
chosen-cons ch optarg es o = ground arith

parse_options-from :
    (es : List (ℕ × Option Bytes)) (o : Options)
    → parse_options es o ≡ (if given b'?' es || given b'h' es then none else some (chosen es o))
unfolding parse_options
parse_options-from [] o = ground arith
parse_options-from ((ch, optarg) ∷ es) o =
    ground (arith, parse_options-from es (set_option ch optarg o), chosen-cons ch optarg es o)

-- For every command line: an option for help, or an unknown one, anywhere in it leads to the usage
-- text. Otherwise each flag is set if it was given at all, in whatever place, and the file of the
-- profile and the signal are the arguments of the last option of their kind.
pub parse_options-chosen :
    (es : List (ℕ × Option Bytes))
    → parse_options es no_options ≡ (
        if given b'?' es || given b'h' es
        then none
        else some (record {
          daemon = given b'D' es;
          config = last_given b'c' es none;
          debug = given b'd' es;
          version = given b'v' es;
          quiet = given b'q' es;
          signame = last_given b's' es none;
        }))
parse_options-chosen es = parse_options-from es no_options
