-- ===== src/Core/Tools.antt =====
-- app/core/tools.py: the tool allowlist. Text is a list of code points. `str.lower` walks Unicode's
-- case tables and is a parameter; white space is Python's own set, the one of `strip` and of `\s`.
use jarvis_skill_registry.Prelude.{
  ℕ, Text, codes, text_eq, Bool, true, false, not, ◌&&◌, ◌||◌, Option, none, some, List, [], ◌∷◌,
  ◌++◌, leb, ◌==◌, if◌then◌else◌,
}
use jarvis_skill_registry.Prelude.Tables.{any, length}
use jarvis_skill_registry.Prelude.Sorting.{sort_by, insert, text_leb}
use jarvis_skill_registry.Core.Errors.{
  Result, ok, err, ◌>>=◌, Exception, unprocessable, ErrorCode, Detail, Reason,
}

-- `name in collection`
unfoldable pub member : Text → List Text → Bool
unfolding any text_eq
member name names = any (text_eq name) names

abbrev pub allowed_tools : List Text
allowed_tools =
    codes "read_project"
    ∷ codes "read_invoice"
    ∷ codes "send_notification"
    ∷ codes "summarise_document"
    ∷ codes "query_schedule"
    ∷ []

abbrev pub destructive_tools : List Text
destructive_tools =
    codes "shell_exec"
    ∷ codes "exec"
    ∷ codes "eval"
    ∷ codes "drop_table"
    ∷ codes "drop_database"
    ∷ codes "truncate_table"
    ∷ codes "delete_all"
    ∷ codes "sudo"
    ∷ codes "rm"
    ∷ codes "rmdir"
    ∷ codes "chmod"
    ∷ codes "curl"
    ∷ codes "wget"
    ∷ codes "write_file"
    ∷ codes "http_request"
    ∷ []

-- `str.isspace` for one code point.
abbrev pub is_space : ℕ → Bool
is_space c =
    leb 9 c && leb c 13
    || leb 28 c && leb c 32
    || c == 0x85
    || c == 0xA0
    || c == 0x1680
    || leb 0x2000 c && leb c 0x200A
    || c == 0x2028
    || c == 0x2029
    || c == 0x202F
    || c == 0x205F
    || c == 0x3000

strip_left : Text → Text
strip_left [] = []
strip_left (c ∷ s) = let rest = strip_left s in if is_space c then rest else c ∷ s

strip_right : Text → Text
strip_right [] = []
strip_right (c ∷ s) = elim (strip_right s) [
  | [] ↦ if is_space c then [] else c ∷ []
  | d ∷ t ↦ c ∷ d ∷ t
]

-- `raw.strip()`
unfoldable pub strip : Text → Text
unfolding strip_left strip_right
strip s = strip_right (strip_left s)

-- `[*?]`, `[/\\]` and the shell metacharacters, as classes of one code point.
abbrev pub is_wildcard : ℕ → Bool
is_wildcard c = c == b'*' || c == b'?'

abbrev pub is_path_separator : ℕ → Bool
is_path_separator c = c == b'/' || c == 92

abbrev pub is_shell_metacharacter : ℕ → Bool
is_shell_metacharacter c =
    c == b';'
    || c == b'|'
    || c == b'&'
    || c == 96
    || c == b'$'
    || c == b'<'
    || c == b'>'
    || c == 40
    || c == 41
    || c == 123
    || c == 125
    || c == 91
    || c == 93
    || c == 39
    || c == 34

-- `re.search(r"\.\.", name)`
unfoldable pub has_dot_dot : Text → Bool
has_dot_dot [] = false
has_dot_dot (c ∷ []) = false
has_dot_dot (c ∷ d ∷ s) = c == b'.' && d == b'.' || has_dot_dot (d ∷ s)

-- The first of `_FORBIDDEN_SHAPES` that the name has, in the order of the tuple.
unfoldable pub forbidden_shape : Text → Option Reason
unfolding any has_dot_dot
forbidden_shape name =
    if any is_wildcard name
    then some Reason.wildcard
    else if has_dot_dot name
    then some Reason.path_traversal
    else if any is_path_separator name
    then some Reason.path_separator
    else if any is_space name
    then some Reason.whitespace
    else if any is_shell_metacharacter name
    then some Reason.shell_metacharacter
    else none

abbrev pub is_lower_letter : ℕ → Bool
is_lower_letter c = leb b'a' c && leb c b'z'

abbrev pub is_name_char : ℕ → Bool
is_name_char c = is_lower_letter c || leb b'0' c && leb c b'9' || c == b'_'

all_name_chars : Text → Bool
all_name_chars [] = true
all_name_chars (c ∷ s) = is_name_char c && all_name_chars s

-- `^[a-z][a-z0-9_]{1,63}$`. A `$` also matches before a final newline, which the whitespace shape
-- has refused by then.
unfoldable pub is_well_formed : Text → Bool
unfolding all_name_chars
is_well_formed [] = false
is_well_formed (c ∷ s) =
    is_lower_letter c && (all_name_chars s && (leb 1 (length s) && leb (length s) 63))

module _ (lower : Text → Text) where
  -- The checks that the loop body makes on one name, which it returns lowered.
  unfoldable pub check_name : Text → Result Text
  unfolding strip forbidden_shape member is_well_formed sort_by insert text_leb
  check_name raw =
      let name = strip raw in
      let lowered = lower name in
      if text_eq name []
      then err (
          Exception.domain (
            unprocessable ErrorCode.forbidden_tool_pattern
              (Detail.forbidden_tool raw Reason.empty_or_non_string)))
      else elim (forbidden_shape name) [
        | some reason ↦ err (
            Exception.domain
              (unprocessable ErrorCode.forbidden_tool_pattern (Detail.forbidden_tool name reason)))
        | none ↦
            if member lowered destructive_tools
            then err (
                Exception.domain (
                  unprocessable ErrorCode.forbidden_tool_pattern
                    (Detail.forbidden_tool name Reason.destructive_capability)))
            else if not (is_well_formed lowered)
            then err (
                Exception.domain (
                  unprocessable ErrorCode.forbidden_tool_pattern
                    (Detail.forbidden_tool name Reason.malformed_identifier)))
            else if not (member lowered allowed_tools)
            then err (
                Exception.domain (
                  unprocessable ErrorCode.unknown_tool
                    (Detail.unknown_tool name (sort_by text_leb allowed_tools))))
            else ok lowered
      ]

  -- `if lowered not in canonical: canonical.append(lowered)`
  unfoldable pub append_new : Text → List Text → List Text
  unfolding member
  append_new name canonical = if member name canonical then canonical else canonical ++ name ∷ []

  -- The loop over `tool_names`, from the names accepted so far.
  unfoldable pub collect : List Text → List Text → Result (List Text)
  unfolding check_name append_new
  collect [] canonical = ok canonical
  collect (raw ∷ names) canonical = do
    lowered ← check_name raw
    collect names (append_new lowered canonical)

  unfoldable pub validate_requested_tools : List Text → Result (List Text)
  unfolding collect sort_by insert text_leb
  validate_requested_tools tool_names = do
    canonical ← collect tool_names []
    ok (sort_by text_leb canonical)
