-- ===== src/Examples/Commands.antt =====
-- Runs of the command log.
use nuclei_security_center.Common.{◌≡◌, refl, inl, true, arith, [], ◌∷◌, Chars, codes}
use nuclei_security_center.Login.Clients.{is_space, trim_left, trim_space}
use nuclei_security_center.CommandLog.{
  nuclei, redact_command_args, is_sensitive_command_flag, sensitive_command_flags,
  sensitive_command_flag_suffixes, has_suffix,
}
use nuclei_security_center.CommandLog.Sensitive.{Sensitive, is_sensitive_iff}
use nuclei_security_center.CommandLog.Secrets.{
  SameButSecrets, same_nil, same_plain, same_inline, same_behind,
  redact_command_args-SameButSecrets,
}
use nuclei_security_center.Auth.{has_prefix}

abbrev lowered : Chars → Chars
lowered s = s

-- A flag with a value that is none of the sensitive ones.
plain : ¬ Sensitive lowered nuclei (codes "-u")
unfolding is_space trim_left trim_space has_prefix has_suffix sensitive_command_flags
    sensitive_command_flag_suffixes is_sensitive_command_flag
plain s = ground (arith, (is_sensitive_iff lowered nuclei (codes "-u")).1 s)

named :
    (flag : Chars)
    → is_sensitive_command_flag lowered flag nuclei ≡ true
    → Sensitive lowered nuclei flag
named flag h = (is_sensitive_iff lowered nuclei flag).0 h

short : Sensitive lowered nuclei (codes "-H")
unfolding is_space trim_left trim_space
short = inl refl

long : Sensitive lowered nuclei (codes "-token")
unfolding is_space trim_left trim_space has_prefix has_suffix sensitive_command_flags
    sensitive_command_flag_suffixes is_sensitive_command_flag
long = named (codes "-token") refl

same :
    SameButSecrets lowered nuclei
      (codes "-u" ∷ codes "-H" ∷ codes "a" ∷ codes "-token=b" ∷ [])
      (codes "-u" ∷ codes "-H" ∷ codes "c" ∷ codes "-token=d" ∷ [])
same = same_plain (codes "-u") _ _ (ground arith) plain (
    same_behind (codes "-H") (codes "a") (codes "c") _ _ (ground arith) short
      (same_inline (codes "-token") (codes "b") (codes "d") [] [] (ground arith) long same_nil))

redact_command_args-SameButSecrets_example :
    redact_command_args lowered (codes "-u" ∷ codes "-H" ∷ codes "a" ∷ codes "-token=b" ∷ []) nuclei
    ≡ redact_command_args lowered
        (codes "-u" ∷ codes "-H" ∷ codes "c" ∷ codes "-token=d" ∷ [])
        nuclei
redact_command_args-SameButSecrets_example =
    redact_command_args-SameButSecrets lowered nuclei
      (codes "-u" ∷ codes "-H" ∷ codes "a" ∷ codes "-token=b" ∷ [])
      (codes "-u" ∷ codes "-H" ∷ codes "c" ∷ codes "-token=d" ∷ []) same
