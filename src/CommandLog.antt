-- ===== src/CommandLog.antt =====
-- The record of a scanner command in a scan's log, internal/scanner/commandlog.go. Texts are code
-- points; `strings.ToLower` and the decimal numeral of `fmt.Sprintf` are parameters, and the record is
-- the argument vector before it is encoded as JSON.
pub mod Sensitive
pub mod Secrets
pub mod Samples
use nuclei_security_center.Common.{
  ℕ, zero, suc, ◌+◌, ◌-◌, ◌*◌, ◌/◌, String, Bool, true, false, not, ◌&&◌, ◌||◌, Option, none, some,
  List, [], ◌∷◌, ◌++◌, str_eq, chars_eq, if◌then◌else◌, Chars, codes, length, take, drop, leb, ltb,
  ◌==◌, reverse, any,
}
use nuclei_security_center.Login.Clients.{trim_space}
use nuclei_security_center.Auth.{has_prefix}

pub data CommandTool : Type 0 where
  unknown nuclei naabu : CommandTool

abbrev pub redacted_command_value : Chars
redacted_command_value = codes "[REDACTED]"

abbrev pub max_logged_template_paths : ℕ
max_logged_template_paths = 16

abbrev pub template_path_sample_each_side : ℕ
template_path_sample_each_side = 4

-- The map has each name with one dash and with two.
unfoldable pub sensitive_command_flags : List Chars
sensitive_command_flags =
    codes "api-key"
    ∷ codes "apikey"
    ∷ codes "client-key"
    ∷ codes "ck"
    ∷ codes "cookie"
    ∷ codes "dast-server-token"
    ∷ codes "dtst"
    ∷ codes "header"
    ∷ codes "headers"
    ∷ codes "interactsh-token"
    ∷ codes "itoken"
    ∷ codes "password"
    ∷ codes "p"
    ∷ codes "proxy"
    ∷ codes "proxy-auth"
    ∷ codes "secret"
    ∷ codes "secret-file"
    ∷ codes "sf"
    ∷ codes "token"
    ∷ codes "var"
    ∷ []

unfoldable pub sensitive_command_flag_suffixes : List Chars
sensitive_command_flag_suffixes =
    codes "-api-key"
    ∷ codes "-apikey"
    ∷ codes "-client-key"
    ∷ codes "-header"
    ∷ codes "-headers"
    ∷ codes "-password"
    ∷ codes "-proxy-auth"
    ∷ codes "-proxy"
    ∷ codes "-secret"
    ∷ codes "-token"
    ∷ codes "-var"
    ∷ []

unfoldable pub has_suffix : Chars → Chars → Bool
unfolding has_prefix
has_suffix s suffix = has_prefix (reverse s) (reverse suffix)

abbrev pub is_naabu : CommandTool → Bool
is_naabu naabu = true
is_naabu _ = false

unfoldable pub is_template_flag : Chars → Bool
is_template_flag arg = chars_eq arg (codes "-templates") || chars_eq arg (codes "--templates")

unfoldable pub command_tool_for_phase : Chars → CommandTool
unfolding has_prefix
command_tool_for_phase phase =
    if chars_eq phase (codes "nuclei")
    then nuclei
    else if has_prefix phase (codes "naabu-")
    then naabu
    else unknown

-- `strings.Cut(s, "=")`: what stands before the first sign, and what behind it if there is one.
unfoldable pub cut : Chars → Chars × Option Chars
cut [] = ([], none)
cut (c ∷ s) = let rest = cut s in if c == 61 then ([], some s) else (c ∷ rest.0, rest.1)

-- The loop's decision for one argument: that its own value is redacted, that the next argument is,
-- or neither.
pub data Secret : Type 0 where
  in_this : Chars → Secret
  in_next no_secret : Secret

module _ (to_lower : Chars → Chars) where
  abbrev pub is_flag : Chars → Chars → Bool
  is_flag arg name = chars_eq arg (codes "-" ++ name) || chars_eq arg (codes "--" ++ name)

  unfoldable pub is_sensitive_command_flag : Chars → CommandTool → Bool
  unfolding trim_space sensitive_command_flags sensitive_command_flag_suffixes has_suffix
  is_sensitive_command_flag arg tool =
      let flag = trim_space arg in
      let normalized = to_lower flag in
      if chars_eq flag (codes "-H") || chars_eq flag (codes "-V")
      then true
      else if is_naabu tool && is_flag normalized (codes "p")
      then false
      else any (is_flag normalized) sensitive_command_flags
        || any (has_suffix normalized) sensitive_command_flag_suffixes

  unfoldable pub secret_of : CommandTool → Chars → Secret
  unfolding cut is_sensitive_command_flag
  secret_of tool arg =
      let (flag, value) = cut arg in
      elim value [
        | some v ↦ if is_sensitive_command_flag flag tool then in_this flag else no_secret
        | none ↦ if is_sensitive_command_flag arg tool then in_next else no_secret
      ]

  unfoldable pub redact_command_args : List Chars → CommandTool → List Chars
  unfolding secret_of
  redact_command_args [] tool = []
  redact_command_args (a ∷ []) tool = elim (secret_of tool a) [
    | in_this flag ↦ (flag ++ (61 ∷ redacted_command_value)) ∷ []
    | in_next ↦ a ∷ []
    | no_secret ↦ a ∷ []
  ]
  redact_command_args (a ∷ b ∷ args) tool =
      let here = redact_command_args (b ∷ args) tool in
      let behind = redact_command_args args tool in
      elim (secret_of tool a) [
        | in_this flag ↦ (flag ++ (61 ∷ redacted_command_value)) ∷ here
        | in_next ↦ a ∷ redacted_command_value ∷ behind
        | no_secret ↦ a ∷ here
      ]

-- `append(args, flag, path)` for each path.
unfoldable pub flag_each : Chars → List Chars → List Chars
flag_each flag [] = []
flag_each flag (p ∷ paths) = flag ∷ p ∷ flag_each flag paths

module _ (decimal : ℕ → Chars) where
  -- What is appended to the arguments; `sample` is the number of paths kept on each side.
  unfoldable pub template_path_summary : Chars → List Chars → List Chars
  unfolding flag_each
  template_path_summary flag paths =
      let sample =
        if ltb (length paths / 2) template_path_sample_each_side
        then length paths / 2
        else template_path_sample_each_side in
      let omitted = length paths - 2 * sample in
      flag_each flag (take sample paths)
      ++ (flag
          ∷ (codes "[" ++ (decimal omitted ++ codes " template paths omitted]"))
          ∷ flag_each flag (drop (length paths - sample) paths))

  -- What a run of template flags becomes.
  unfoldable pub logged_run : Chars → List Chars → List Chars
  unfolding template_path_summary flag_each
  logged_run flag paths =
      if ltb max_logged_template_paths (length paths)
      then template_path_summary flag paths
      else flag_each flag paths

  -- The two loops, with the run that is being collected: its first flag and its paths so far.
  abbrev pub collect : Option (Chars × List Chars) → Chars → Chars → Option (Chars × List Chars)
  collect none flag path = some (flag, path ∷ [])
  collect (some (first, paths)) flag path = some (first, paths ++ (path ∷ []))

  abbrev pub end_run : Option (Chars × List Chars) → List Chars
  end_run none = []
  end_run (some (flag, paths)) = logged_run flag paths

  unfoldable pub compact_from : Option (Chars × List Chars) → List Chars → List Chars
  unfolding is_template_flag logged_run
  compact_from pending [] = end_run pending
  compact_from pending (a ∷ []) = end_run pending ++ (a ∷ [])
  compact_from pending (a ∷ b ∷ args) =
      let run = compact_from (collect pending a b) args in
      let other = compact_from none (b ∷ args) in
      if is_template_flag a then run else end_run pending ++ (a ∷ other)

  unfoldable pub compact_command_args : List Chars → List Chars
  unfolding compact_from
  compact_command_args args = compact_from none args

  unfoldable pub write_command_log : (Chars → Chars) → Chars → Chars → List Chars → List Chars
  unfolding compact_command_args redact_command_args command_tool_for_phase
  write_command_log to_lower phase executable args =
      executable
      ∷ redact_command_args to_lower (compact_command_args args) (command_tool_for_phase phase)
