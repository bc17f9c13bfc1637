-- ===== src/Config/Lines.antt =====
-- A configuration file as it is written by hand, and what `conf_read_python` of server/conf.go reads
-- from it.
use nvda_remote_server.Common.{
  ℕ, ◌≡◌, ◌≢◌, refl, sym, ap, ◌∙◌, Bool, true, false, ◌||◌, List, [], ◌∷◌, ◌++◌, Bytes, codes,
  bytes_eq, bytes_beq, ◌==◌, All, append_assoc, arith,
}
use nvda_remote_server.GoMap.{put}
use nvda_remote_server.Strings.{has_prefix}
use nvda_remote_server.Strings.Space.{trim_space, trim_left, trim_right}
use nvda_remote_server.Strings.Trimming.{trim_space-around}
use nvda_remote_server.Strings.Split.{
  split, trim_suffix, split-append, cut-append, trim_suffix-append, trim_suffix-behind,
}
use nvda_remote_server.Config.{Options}
use nvda_remote_server.Config.File.{
  Fallible, returned, read_line, read_lines, parse_options, conf_read_python,
}

-- An option with its value, or a blank line or a comment.
pub data Line : Type 0 where
  setting : Bytes → Bytes → Line
  remark : Bytes → Line

-- Text in one line that does not end with a carriage return.
abbrev pub IsText : Bytes → Type 0
IsText t = All (λ d. d ≢ b'\n') t × (trim_suffix t (codes "\r") ≡ t)

-- A name holds no `=`, and does not begin with `#` or white space and `#`. A value is any text.
abbrev pub IsLine : Line → Type 0
IsLine (setting name v) =
    All (λ d. d ≢ b'=') name
    × All (λ d. d ≢ b'\n') name
    × (has_prefix (trim_left name) (codes "#") ≡ false)
    × IsText v
IsLine (remark t) =
    IsText t × ((trim_space t == [] || has_prefix (trim_space t) (codes "#")) ≡ true)

abbrev pub line_text : Line → Bytes
line_text (setting name v) = name ++ (b'=' ∷ v)
line_text (remark t) = t

-- The end of a line on Windows or on other systems.
abbrev pub line_end : Bool → Bytes
line_end true = codes "\r\n"
line_end false = codes "\n"

abbrev pub file_text : Bool → List Line → Bytes
file_text crlf [] = []
file_text crlf (l ∷ ls) = line_text l ++ (line_end crlf ++ file_text crlf ls)

-- The options that the lines name, of which a later one wins.
abbrev pub named_by : Options → List Line → Options
named_by opts [] = opts
named_by opts (setting name v ∷ ls) = named_by (put (trim_space name) v opts) ls
named_by opts (remark t ∷ ls) = named_by opts ls

All-append : (P : ℕ → Type 0) (s t : Bytes) → All P s → All P t → All P (s ++ t)
All-append P [] t h k = k
All-append P (c ∷ s) t (p, h) k = (p, All-append P s t h k)

line_text-one_line : (l : Line) → IsLine l → All (λ d. d ≢ b'\n') (line_text l)
line_text-one_line (setting name v) h =
    All-append (λ d. d ≢ b'\n') name (b'=' ∷ v) h.1 ((λ e. ground arith), h.3.0)
line_text-one_line (remark t) h = h.0.0

line_text-IsText : (l : Line) → IsLine l → trim_suffix (line_text l) (codes "\r") ≡ line_text l
line_text-IsText (setting name v) h =
    trim_suffix-behind b'\r' b'=' name v (λ e. ground arith) ∙ ap (λ x. name ++ (b'=' ∷ x)) h.3.1
line_text-IsText (remark t) h = h.0.1

around_not_blank : (a b : Bytes) → (a ++ (b'=' ∷ b) == []) ≡ false
unfolding bytes_beq
around_not_blank [] b = refl
around_not_blank (c ∷ a) b = refl

around_no_comment :
    (a b : Bytes)
    → has_prefix a (codes "#") ≡ false
    → has_prefix (a ++ (b'=' ∷ b)) (codes "#") ≡ false
unfolding has_prefix
around_no_comment [] b h = ground arith
around_no_comment (c ∷ a) b h = ground arith

-- A line with or without the carriage return.
read_line_lem :
    (l : Line) (opts : Options) (full : Bytes)
    → IsLine l
    → trim_suffix full (codes "\r") ≡ line_text l
    → read_line opts full ≡ named_by opts (l ∷ [])
unfolding read_line
read_line_lem (remark t) opts full h e = rw (e, h.1, read_line) refl
read_line_lem (setting name v) opts full h e =
    rw (e, trim_space-around b'=' name v (omega arith, omega arith), read_line)
      (rw
        (
          around_not_blank (trim_left name) (trim_right v),
          around_no_comment (trim_left name) (trim_right v) h.2,
          cut-append b'=' name v h.0,
        )
        refl)

trim_suffix-line_end :
    (crlf : Bool) (l : Line) (s : Bytes)
    → IsLine l
    → (full : Bytes) × (split b'\n' (line_text l ++ (line_end crlf ++ s)) ≡ full ∷ split b'\n' s)
      × (trim_suffix full (codes "\r") ≡ line_text l)
trim_suffix-line_end true l s h = (
  line_text l ++ codes "\r",
  ap (split b'\n') (sym (append_assoc (line_text l) (codes "\r") (b'\n' ∷ s)))
      ∙ split-append b'\n' (line_text l ++ codes "\r") s (
          All-append (λ d. d ≢ b'\n') (line_text l) (codes "\r") (line_text-one_line l h)
            ((λ e. ground arith), tt)),
  trim_suffix-append b'\r' (line_text l),
)
trim_suffix-line_end false l s h =
    (line_text l, split-append b'\n' (line_text l) s (line_text-one_line l h), line_text-IsText l h)

read_lines-file_text :
    (crlf : Bool) (ls : List Line) (opts : Options)
    → All IsLine ls
    → read_lines opts (split b'\n' (file_text crlf ls)) ≡ named_by opts ls
unfolding read_lines
read_lines-file_text crlf [] opts h = unfold split read_line trim_suffix trim_space in refl
read_lines-file_text crlf (l ∷ ls) opts (v, h) =
    let (full, cuts, trims) = trim_suffix-line_end crlf l (file_text crlf ls) v in
    ap (read_lines opts) cuts
    ∙ ap (λ o. read_lines o (split b'\n' (file_text crlf ls))) (read_line_lem l opts full v trims)
    ∙ read_lines-file_text crlf ls (named_by opts (l ∷ [])) h
    ∙ named_later l
  where
    named_later : (l : Line) → named_by (named_by opts (l ∷ [])) ls ≡ named_by opts (l ∷ ls)
    named_later (setting name v) = refl
    named_later (remark t) = refl

-- A file of settings, comments and blank lines, with line ends of either kind, is read as the options
-- that its settings name: the name is trimmed of white space, the value is all that follows the first
-- `=`, further `=` and white space included, and a later setting of a name replaces an earlier one. The
-- names hold no `=` and do not begin with `#`, and neither a value nor a comment ends with a carriage
-- return.
pub conf_read_python-file_text :
    (read_file : Bytes → Fallible Bytes) (path : Bytes) (crlf : Bool) (ls : List Line)
    → All IsLine ls
    → read_file path ≡ returned (file_text crlf ls)
    → conf_read_python read_file path ≡ returned (named_by [] ls)
unfolding conf_read_python parse_options
conf_read_python-file_text read_file path crlf ls h e =
    rw (e, conf_read_python) (ap returned (read_lines-file_text crlf ls [] h))
