-- ===== src/PfConfig/Files.antt =====
-- internal/backend/semtechudp/pf_config.go: reading a configuration file, and the restart command. Texts are
-- ASCII where the code looks for spaces.
use lora_gateway_bridge.Common.{
  ℕ, leb, map, Bool, List, [], ◌∷◌, ◌++◌, ◌||◌, ◌&&◌, ◌==◌, Bytes, Result, ◌>>=◌, from_option,
  Option, none, some, if◌then◌else◌,
}
use lora_gateway_bridge.Common.Strings.{split}
use lora_gateway_bridge.PfConfig.Merge.{ConfigFile}

-- What the operating system and the JSON codec do.
pub record System (J : Type 0) : Type 0 where
  pub read_file : Bytes → Option Bytes
  pub unmarshal : Bytes → Option (ConfigFile J)
  pub marshal : ConfigFile J → Option Bytes
  pub write_file : Bytes → Bytes → Bool
  pub exec : Bytes → List Bytes → Bool

pub data FileError : Type 0 where
  read_file_error unmarshal_config_error write_file_error : FileError
  marshal_json_error no_restart_command execute_command_error : FileError

-- The text behind the last `*/`, if there is one.
unfoldable pub after_last_close : Bytes → Option Bytes
after_last_close [] = none
after_last_close (c ∷ []) = none
after_last_close (c ∷ d ∷ rest) =
    let later = after_last_close (d ∷ rest) in
    elim later [ some text ↦ some text | none ↦ if c == 42 && d == 47 then some rest else none ]

-- A greedy match of the expression for comments, which stays within a line, is removed.
unfoldable pub strip_line : Bytes → Bytes
unfolding after_last_close
strip_line [] = []
strip_line (c ∷ []) = c ∷ []
strip_line (c ∷ d ∷ rest) =
    let later = strip_line (d ∷ rest) in
    if c == 47 && d == 42
    then elim (after_last_close rest) [ some text ↦ text | none ↦ c ∷ later ]
    else c ∷ later

abbrev join_lines : List Bytes → Bytes
join_lines [] = []
join_lines (line ∷ []) = line
join_lines (line ∷ next ∷ rest) = line ++ 10 ∷ join_lines (next ∷ rest)

unfoldable pub strip_comments : Bytes → Bytes
unfolding strip_line
strip_comments text = join_lines (map strip_line (split 10 text))

-- `strings.Fields`
unfoldable pub is_space : ℕ → Bool
is_space c = c == 32 || (leb 9 c && leb c 13)

abbrev add_word : Bytes → List Bytes → List Bytes
add_word [] words = words
add_word (c ∷ word) words = (c ∷ word) ∷ words

unfoldable pub fields : Bytes → Bytes → List Bytes
unfolding is_space
fields word [] = add_word word []
fields word (c ∷ rest) =
    let ended = fields [] rest in
    let longer = fields (word ++ c ∷ []) rest in if is_space c then add_word word ended else longer

-- the program and its arguments
abbrev pub program_of : List Bytes → Option (Bytes × List Bytes)
program_of [] = none
program_of (name ∷ args) = some (name, args)

unfoldable pub restart_command_of : Bytes → Option (Bytes × List Bytes)
unfolding fields
restart_command_of cmd = program_of (fields [] cmd)

module _ {J : Type 0} where
  unfoldable pub load_config_file : System J → Bytes → Result FileError (ConfigFile J)
  unfolding strip_comments
  load_config_file sys path = do
    text ← from_option read_file_error (sys.read_file path)
    from_option unmarshal_config_error (sys.unmarshal (strip_comments text))
