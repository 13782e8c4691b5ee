-- ===== src/Worker/Given.antt =====
-- What a resolved input gives for each place in a request.
use workflow_spec.Prelude.{
  ℕ, String, true, List, [], ◌∷◌, ◌++◌, Option, none, some, contains, string_eq, nat_eq,
  if◌then◌else◌,
}
use workflow_spec.Json.{Json, str, Dict, Property, get_property, own}
use workflow_spec.Registry.Domain.{
  InvocationDescriptorEntry, InvocationStyle, flag, positional, stdin,
}
use workflow_spec.Worker.AgentClient.{AgentDataFile}
use workflow_spec.Worker.Bindings.{Printing, params_of, stringify_arg_value, index_of}

-- The path that the input holds for an entry, if it holds a text.
abbrev pub path_given : Property (Option Json) → List String
path_given (own (some (str path))) = path ∷ []
path_given _ = []

abbrev pub slots_for : InvocationStyle → ℕ → List String → List (ℕ × String)
slots_for positional index (path ∷ rest) = (index, path) ∷ []
slots_for _ index paths = []

abbrev pub files_for :
    InvocationStyle → Option String → Option String → List String → List AgentDataFile
files_for flag name state_id (path ∷ rest) =
    record { flag = name; path = path; state_id = state_id; stdin_from_path = none } ∷ []
files_for stdin name state_id (path ∷ rest) =
    record { flag = none; path = path; state_id = state_id; stdin_from_path = some true } ∷ []
files_for _ name state_id paths = []

module _ (input : Dict (Option Json)) where
  -- The positional entries that the input has a path for, with it, in the descriptor's order.
  abbrev pub slots_given : List InvocationDescriptorEntry → List (ℕ × String)
  slots_given [] = []
  slots_given (e ∷ es) =
      slots_for e.style (index_of e) (path_given (get_property e.param input)) ++ slots_given es

  -- And a data file for each of the others.
  abbrev pub files_given : Option String → List InvocationDescriptorEntry → List AgentDataFile
  files_given state_id [] = []
  files_given state_id (e ∷ es) =
      files_for e.style e.flag_name state_id (path_given (get_property e.param input))
      ++ files_given state_id es

-- The values that are defined and not heavy, as texts.
abbrev pub args_given : Printing → List InvocationDescriptorEntry → Dict (Option Json) → Dict String
args_given printing descriptor [] = []
args_given printing descriptor ((key, none) ∷ input) = args_given printing descriptor input
args_given printing descriptor ((key, some value) ∷ input) =
    let rest = args_given printing descriptor input in
    if contains (params_of descriptor) key
    then rest
    else (key, stringify_arg_value printing value) ∷ rest
