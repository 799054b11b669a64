-- ===== src/Uniq/Options.antt =====
-- hw1/uniq.c: main.
use nyu_operating_systems.Base.{
  ◌≡◌, ◌||◌, Bool, true, false, Option, none, some, List, [], ◌∷◌, if◌then◌else◌,
}
use nyu_operating_systems.Uniq.Reading.{Text}
use nyu_operating_systems.Uniq.Compare.{same_string, Stack}
use nyu_operating_systems.Uniq.Modes.{Result, uniq}

-- "-d", "-c" and "-i"
abbrev pub dash_d : Text
dash_d = 45 ∷ 100 ∷ []

abbrev pub dash_c : Text
dash_c = 45 ∷ 99 ∷ []

abbrev pub dash_i : Text
dash_i = 45 ∷ 105 ∷ []

-- The locals of main; infile is none before it is set.
pub record Options : Type 0 where
  pub count : Bool
  pub duplicate : Bool
  pub ignore : Bool
  pub infile : Option Text

-- The body of main's loop over argv, at one argument.
abbrev pub take_option : Text → Options → Options
take_option a o =
    if same_string a dash_d
    then record o { duplicate = true }
    else (if same_string a dash_c
        then record o { count = true }
        else (if same_string a dash_i
            then record o { ignore = true }
            else record o { infile = some a }))

unfoldable pub take_options : List Text → Options → Options
take_options [] o = o
take_options (a ∷ args) o = take_options args (take_option a o)

abbrev pub no_options : Options
no_options = record { count = false; duplicate = false; ignore = false; infile = none }

-- The files that open, and what infile is before it is set: 0, or a name.
pub record Surroundings : Type 0 where
  pub files : Text → Option Text
  pub unset : Option Text
  pub std_in : Text
  pub stack : Stack

-- usage, which exits, or uniq on the file.
pub data Run : Type 0 where
  usage : Run
  ran : Result → Run

abbrev pub run_on : Surroundings → Options → Option Text → Run
run_on s o none = usage
run_on s o (some file) = ran (uniq o.ignore s.stack o.count o.duplicate file)

-- The value of infile at its test.
abbrev pub infile_of : Option Text → Option Text → Option Text
infile_of unset none = unset
infile_of unset (some name) = some name

abbrev pub input_file : Surroundings → Option Text → Option Text
input_file s none = some s.std_in
input_file s (some name) = s.files name

-- main on the arguments after the program's name.
unfoldable pub main : Surroundings → List Text → Run
unfolding take_options
main s args =
    let o = take_options args no_options in run_on s o (input_file s (infile_of s.unset o.infile))

-- Whether an argument is among them, and the last one that is no option.
abbrev pub mentions : Text → List Text → Bool
mentions w [] = false
mentions w (a ∷ args) = same_string a w || mentions w args

abbrev pub later : Option Text → Option Text → Option Text
later none before = before
later (some a) before = some a

abbrev pub name_in : Text → Option Text
name_in a =
    if same_string a dash_d || (same_string a dash_c || same_string a dash_i) then none else some a

abbrev pub last_name : List Text → Option Text
last_name [] = none
last_name (a ∷ args) = later (last_name args) (name_in a)

-- The options after some more arguments.
abbrev with_more : Options → List Text → Options
with_more o args = record {
  count = o.count || mentions dash_c args;
  duplicate = o.duplicate || mentions dash_d args;
  ignore = o.ignore || mentions dash_i args;
  infile = later (last_name args) o.infile;
}

abbrev Takes : List Text → Options → Text → Type 0
Takes args o a = with_more (take_option a o) args ≡ with_more o (a ∷ args)
