-- ===== src/Config/File.antt =====
-- server/conf.go: the configuration file in the format of the Python server (`conf_read_python`), and
-- what is printed if it cannot be read. Reading the file is a parameter.
use nvda_remote_server.Common.{
  ◌||◌, Option, none, some, List, [], ◌∷◌, ◌++◌, Bytes, codes, bytes_eq, ◌==◌, if◌then◌else◌,
}
use nvda_remote_server.GoMap.{put}
use nvda_remote_server.Strings.{has_prefix}
use nvda_remote_server.Strings.Space.{trim_space}
use nvda_remote_server.Strings.Split.{split, cut, trim_suffix}
use nvda_remote_server.Config.{Options}

-- A result, or an error with its text.
pub data Fallible {ℓ} (A : Type ℓ) : Type ℓ where
  failed : Bytes → Fallible A
  returned : A → Fallible A

-- What a line of the file adds to the options.
unfoldable pub read_line : Options → Bytes → Options
read_line opts full =
    let line = trim_suffix full (codes "\r") in
    let trimmed = trim_space line in
    if trimmed == [] || has_prefix trimmed (codes "#") then opts else elim (cut line (codes "=")) [
      | none ↦ opts
      | some (key, value) ↦ put (trim_space key) value opts
    ]

unfoldable pub read_lines : Options → List Bytes → Options
unfolding read_line
read_lines opts [] = opts
read_lines opts (line ∷ lines) = read_lines (read_line opts line) lines

unfoldable pub parse_options : Bytes → Options
unfolding read_lines split
parse_options text = read_lines [] (split b'\n' text)

-- `read_file` is os.ReadFile.
unfoldable pub conf_read_python : (Bytes → Fallible Bytes) → Bytes → Fallible Options
unfolding parse_options
conf_read_python read_file path = elim (read_file path) [
  | failed e ↦ failed (codes "reading config file " ++ (path ++ (codes ": " ++ e)))
  | returned text ↦ returned (parse_options text)
]

-- `conf_print_missing`: what is printed, with the text of the error if there is one.
unfoldable pub conf_print_missing : Bytes → Option Bytes → Bytes
conf_print_missing path err =
    let msg = codes "Can't open the configuration file, using default or commandline values" in
    let named = if path == [] then msg else msg ++ (codes ": " ++ path) in
    (elim err [ none ↦ named | some e ↦ named ++ (codes " (" ++ (e ++ codes ")")) ]) ++ codes "\n"
