-- ===== src/Broker.antt =====
-- The broker policy (crates/zlauder-engine/src/broker.rs): may a broker secret be put into a
-- parameter of a tool call? A glob of the crate `globset` is its matcher; the parser of URLs, the
-- splitting of a shell's words and the Unicode white space are parameters.
pub mod Resolve
pub mod Rules
pub mod Leaf
pub mod Denied
use package.zlau_de_r.Prelude.{
  ℕ, Bool, true, false, not, ◌&&◌, ◌||◌, if◌then◌else◌, Option, none, some, List, [], ◌∷◌, map,
}
use package.zlau_de_r.Prelude.{any, is_empty, Text, codes, text_eq, contains, starts_with, has_text}
use package.zlau_de_r.Prelude.{strip_prefix, to_lower, ◌==◌}
use package.zlau_de_r.Error.{EngineError, Result, ok, err, ◌>>=◌}

abbrev pub GlobMatcher : Type 0
GlobMatcher = Text → Bool

pub data DestRule : Type 0 where
  host_allow_list : List Text → DestRule
  any_host : DestRule

pub record BrokerAllow : Type 0 where
  pub secret : Option GlobMatcher
  pub tool : GlobMatcher
  pub param_pointer : GlobMatcher
  pub dest : Option DestRule
  pub ttl : Option ℕ

abbrev pub BrokerPolicy : Type 0
BrokerPolicy = List BrokerAllow

pub data DenyReason : Type 0 where
  no_rule egress_boundary opaque_command host_unparsed : DenyReason
  host_not_allowed : Text → DenyReason

pub data BrokerDecision : Type 0 where
  resolve : BrokerDecision
  deny : DenyReason → BrokerDecision

-- What the parsing of hosts calls: `Url::parse(t)` and then `host_str`, `shlex::split`, `str::trim`,
-- and the split of a text at white space and quotes.
pub record HostSyntax : Type 0 where
  pub url_host_str : Text → Option Text
  pub shell_split : Text → Option (List Text)
  pub trim : Text → Text
  pub split_words : Text → List Text

abbrev pub lower : Text → Text
lower = map to_lower

-- Tools that a broker value must never reach.
unfoldable pub is_egress_boundary_tool : Text → Bool
is_egress_boundary_tool t =
    starts_with (codes "mcp__") t
    || (text_eq t (codes "Task")
        || (text_eq t (codes "Agent") || starts_with (codes "subagent_") t))

abbrev pub opaque_tools : List Text
opaque_tools =
    codes "Bash"
    ∷ codes "bash"
    ∷ codes "sh"
    ∷ codes "shell"
    ∷ codes "Shell"
    ∷ codes "zsh"
    ∷ codes "fish"
    ∷ codes "dash"
    ∷ codes "ksh"
    ∷ codes "pwsh"
    ∷ codes "powershell"
    ∷ codes "PowerShell"
    ∷ codes "cmd"
    ∷ codes "Execute"
    ∷ codes "exec"
    ∷ codes "run_command"
    ∷ []

unfoldable pub is_opaque_command_tool : Text → Bool
is_opaque_command_tool t = contains opaque_tools t

-- Exact, but for the case of ASCII letters.
unfoldable pub host_eq : Text → Text → Bool
host_eq rule parsed = text_eq (lower rule) (lower parsed)

abbrev pub non_empty : Text → Option Text
non_empty [] = none
non_empty (c ∷ t) = some (c ∷ t)

abbrev pub lowered : Option Text → Option Text
lowered none = none
lowered (some h) = some (lower h)

abbrev pub or_else : Option Text → Option Text → Option Text
or_else (some h) other = some h
or_else none other = other

-- `rsplit(c).next()` and `split(c).next()`: the part of a text behind the last `c`, and the part
-- before the first.
unfoldable pub after_last : ℕ → Text → Text
after_last c [] = []
after_last c (d ∷ t) =
    let rest = after_last c t in if any (λ e. e == c) t then rest else (if d == c then t else d ∷ t)

unfoldable pub before_first : ℕ → Text → Text
before_first c [] = []
before_first c (d ∷ t) = let rest = before_first c t in if d == c then [] else d ∷ rest

abbrev pub unwrap_or_default : Option (List Text) → List Text
unwrap_or_default none = []
unwrap_or_default (some ts) = ts

module _ (syn : HostSyntax) where
  unfoldable pub url_word_host : List Text → Option Text
  url_word_host [] = none
  url_word_host (tok ∷ toks) =
      or_else (if has_text (codes "://") tok then lowered (syn.url_host_str tok) else none)
        (url_word_host toks)

  unfoldable pub url_host : Text → Option Text
  url_host value =
      or_else (lowered (syn.url_host_str (syn.trim value))) (url_word_host (syn.split_words value))

  abbrev head_host : List Text → Option Text
  head_host [] = none
  head_host (h ∷ toks) = some (lower h)

  -- The loop of `flag_host` over the words.
  unfoldable pub flag_word_host : List Text → Option Text
  flag_word_host [] = none
  flag_word_host (t ∷ toks) =
      let rest = flag_word_host toks in
      elim (strip_prefix (codes "--host=") t) [
        | some h ↦ lowered (non_empty h)
        | none ↦
            if text_eq t (codes "-h") || text_eq t (codes "--host") then head_host toks else rest
      ]

  unfoldable pub flag_host : Text → Option Text
  flag_host value = flag_word_host (unwrap_or_default (syn.shell_split value))

  unfoldable pub dsn_word_host : List Text → Option Text
  dsn_word_host [] = none
  dsn_word_host (t ∷ toks) =
      or_else
        (elim (strip_prefix (codes "host=") t) [ none ↦ none | some h ↦ lowered (non_empty h) ])
        (dsn_word_host toks)

  unfoldable pub psql_host : Text → Option Text
  psql_host value =
      or_else (url_host value)
        (or_else (flag_host value) (dsn_word_host (unwrap_or_default (syn.shell_split value))))

  abbrev ssh_binaries : List Text
  ssh_binaries = codes "ssh" ∷ codes "scp" ∷ codes "sftp" ∷ codes "rsync" ∷ []

  abbrev value_flags : List Text
  value_flags = codes "-i" ∷ codes "-p" ∷ codes "-l" ∷ codes "-o" ∷ codes "-F" ∷ codes "-c" ∷ []

  -- The loop of `ssh_host` over the words; the flag tells to skip the next one.
  unfoldable pub ssh_word_host : Bool → List Text → Option Text
  ssh_word_host skip_next [] = none
  ssh_word_host true (t ∷ toks) = ssh_word_host false toks
  ssh_word_host false (t ∷ toks) =
      let rest =
        ssh_word_host
          (not (contains ssh_binaries t) && (starts_with (codes "-") t && contains value_flags t))
          toks in
      if contains ssh_binaries t || starts_with (codes "-") t
      then rest
      else or_else (lowered (non_empty (before_first b':' (after_last b'@' t)))) rest

  unfoldable pub ssh_host : Text → Option Text
  ssh_host value = ssh_word_host false (unwrap_or_default (syn.shell_split value))

  abbrev url_tools : List Text
  url_tools = codes "curl" ∷ codes "wget" ∷ codes "http" ∷ codes "https" ∷ codes "httpie" ∷ []

  abbrev psql_tools : List Text
  psql_tools =
      codes "psql"
      ∷ codes "pg_dump"
      ∷ codes "pg_restore"
      ∷ codes "pg_dumpall"
      ∷ codes "createdb"
      ∷ codes "dropdb"
      ∷ []

  abbrev mysql_tools : List Text
  mysql_tools = codes "mysql" ∷ codes "mariadb" ∷ []

  -- The destination host of a parameter, for the tools whose parameters are understood.
  unfoldable pub parse_dest_host : Text → Text → Option Text
  parse_dest_host tool value =
      if contains url_tools tool
      then url_host value
      else (if contains psql_tools tool
          then psql_host value
          else (if contains mysql_tools tool
              then or_else (flag_host value) (url_host value)
              else (if contains ssh_binaries tool then ssh_host value else none)))

  -- The three axes of a rule that are globs.
  unfoldable pub rule_matches : BrokerAllow → Text → Text → Text → Bool
  rule_matches a secret_name tool pointer =
      elim a.secret [ none ↦ true | some g ↦ g secret_name ]
      && (a.tool tool && a.param_pointer pointer)

  unfoldable pub decide_host : List Text → Option Text → BrokerDecision
  decide_host hosts none = BrokerDecision.deny DenyReason.host_unparsed
  decide_host hosts (some h) =
      if any (λ rule. host_eq rule h) hosts
      then BrokerDecision.resolve
      else BrokerDecision.deny (DenyReason.host_not_allowed h)

  -- What the first rule that matches says of the destination.
  unfoldable pub decide_dest : Option DestRule → Text → Text → BrokerDecision
  decide_dest none tool value = BrokerDecision.resolve
  decide_dest (some DestRule.any_host) tool value = BrokerDecision.resolve
  decide_dest (some (DestRule.host_allow_list hosts)) tool value =
      decide_host hosts (parse_dest_host tool value)

  -- The loop over the rules.
  unfoldable pub decide_rules : BrokerPolicy → Text → Text → Text → Text → BrokerDecision
  decide_rules [] secret_name tool pointer value = BrokerDecision.deny DenyReason.no_rule
  decide_rules (a ∷ as_) secret_name tool pointer value =
      let rest = decide_rules as_ secret_name tool pointer value in
      if rule_matches a secret_name tool pointer then decide_dest a.dest tool value else rest

  unfoldable pub decide : BrokerPolicy → Text → Text → Text → Text → BrokerDecision
  decide policy secret_name tool pointer value =
      if is_egress_boundary_tool tool
      then BrokerDecision.deny DenyReason.egress_boundary
      else (if is_opaque_command_tool tool
          then BrokerDecision.deny DenyReason.opaque_command
          else decide_rules policy secret_name tool pointer value)

unfoldable pub compile_glob : (Text → Option GlobMatcher) → Text → Result GlobMatcher
compile_glob glob pat = elim (glob pat) [ none ↦ err EngineError.invalid_secret | some g ↦ ok g ]

abbrev compile_name : (Text → Option GlobMatcher) → Option Text → Result (Option GlobMatcher)
compile_name glob none = ok none
compile_name glob (some pat) = do g ← compile_glob glob pat; ok (some g)

-- `BrokerAllow::new`; the compiler of a glob is a parameter.
unfoldable pub new_rule :
    (Text → Option GlobMatcher)
    → Option Text
    → Text
    → Text
    → Option DestRule
    → Option ℕ
    → Result BrokerAllow
new_rule glob secret tool param_pointer dest ttl = do
  s ← compile_name glob secret
  t ← compile_glob glob tool
  p ← compile_glob glob param_pointer
  ok (record { secret = s; tool = t; param_pointer = p; dest = dest; ttl = ttl })
