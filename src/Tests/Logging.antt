-- ===== src/Tests/Logging.antt =====
-- A start of the logs, and structs that are filled from maps.
use gim.Base.{String, refl, true, false, none, some, List, [], ◌∷◌, ◌==◌, string_eq, if◌then◌else◌}
use gim.ImErr.{ok, err, other}
use gim.Base.{Option}
use gim.Base.Dict.{Dict}
use gim.Helper.Fields.{Reflect, Field, map_to_struct}
use gim.Helper.Fields.Outcome.{Outcome, map_to_struct-Outcome}
use gim.Logs.{System, Logging, init_logger}
use gim.Examples.Settings.{log_config}
use gim.Logs.Files.{InitLoggerDone, init_logger-InitLoggerDone}

-- The state is the list of paths that there are.
abbrev files : System
files = record {
  State = List String;
  Level = String;
  unmarshal_level =
      λ level. if level == "debug" then ok level else err (other "unrecognized level");
  is_not_exist = λ path s. true;
  mkdir_all = λ path s. path ∷ s;
  open_file = λ path s. (ok 3, path ∷ s);
  close_file = λ file s. [];
}

abbrev not_logging : Logging files
not_logging = record {
  l = none;
  is_init_logger = false;
  rpc_file = none;
  output = none;
  entries = [];
  os = [];
}

init_logger-InitLoggerDone_example :
    InitLoggerDone log_config not_logging (init_logger log_config not_logging)
init_logger-InitLoggerDone_example = init_logger-InitLoggerDone log_config not_logging refl

-- A value is its type and its text. A float64 converts to an int; a nil is no value.
abbrev plain : Reflect
plain = record {
  Kind = String;
  Value = String × String;
  type_of = λ v. v.0;
  convertible_to = λ a b. if a == b then true else a == "float64";
  convert = λ v k. some (k, v.1);
}

abbrev fields : List (Field plain)
fields =
    record { name = "Name"; kind = "string"; can_set = true; held = ("string", "") }
    ∷ record { name = "Age"; kind = "int"; can_set = true; held = ("int", "0") }
    ∷ []

abbrev read : Dict String (Option (String × String))
read = ("Name", some ("string", "lizi")) ∷ ("Age", some ("float64", "30")) ∷ []

map_to_struct-Outcome_example : Outcome read fields (map_to_struct read fields)
map_to_struct-Outcome_example = map_to_struct-Outcome read fields
