-- ===== src/Tests/Brokers.antt =====
-- Instances of the theorems on the broker policy.
use zlau_de_r.Prelude.{◌≡◌, ◌↔◌, refl, true, false, none, some, [], ◌∷◌, ◌++◌, Text, codes, text_eq}
use zlau_de_r.Prelude.{starts_with}
use zlau_de_r.Json.{Value, Fields}
use zlau_de_r.Token.{scan}
use zlau_de_r.Engine.Unmask.Pieces.{render_pieces}
use zlau_de_r.Broker.{HostSyntax, BrokerPolicy, BrokerDecision, DestRule, decide}
use zlau_de_r.Broker.{is_egress_boundary_tool, is_opaque_command_tool}
use zlau_de_r.Broker.Resolve.{no_report, broker_resolve_leaf, broker_resolve_pointers, unwrap_or}
use zlau_de_r.Broker.Rules.{FirstAllows, decide-FirstAllows}
use zlau_de_r.Broker.Leaf.{resolved_token, broker_resolve_leaf-render}
use zlau_de_r.Broker.Denied.{broker_resolve_pointers-refused}
use zlau_de_r.Tests.Toy.{toy}
use zlau_de_r.Tests.Stores.{key_token, with_key}

-- No URL is parsed, and a text is one word.
abbrev syntax : HostSyntax
syntax = record {
  url_host_str = λ (t : Text). none;
  shell_split = λ (t : Text). some (t ∷ []);
  trim = λ (t : Text). t;
  split_words = λ (t : Text). t ∷ [];
}

abbrev rules : BrokerPolicy
rules =
    record {
      secret = some (text_eq (codes "gh"));
      tool = text_eq (codes "psql");
      param_pointer = λ (t : Text). true;
      dest = some (DestRule.host_allow_list (codes "db.internal" ∷ []));
      ttl = none;
    }
    ∷ []

abbrev dsn : Text
dsn = codes "host=DB.internal"

decide-FirstAllows_example :
    (decide syntax rules (codes "gh") (codes "psql") (codes "/dsn") dsn ≡ BrokerDecision.resolve)
    ↔ ((is_egress_boundary_tool (codes "psql") ≡ false)
        × (is_opaque_command_tool (codes "psql") ≡ false)
        × FirstAllows syntax rules (codes "gh") (codes "psql") (codes "/dsn") dsn)
decide-FirstAllows_example =
    decide-FirstAllows syntax (codes "gh") (codes "psql") (codes "/dsn") dsn rules

abbrev leaf : Text
leaf = codes "-h db.internal " ++ key_token

broker_resolve_leaf-render_example :
    unwrap_or syntax toy 7 rules with_key
      (codes "psql")
      leaf
      (broker_resolve_leaf syntax toy 7 rules with_key
        (codes "psql")
        leaf
        (codes "/args")
        no_report).0
    ≡ render_pieces
        (resolved_token syntax toy 7 rules with_key (codes "psql") leaf (codes "/args"))
        (scan 0 leaf)
broker_resolve_leaf-render_example =
    broker_resolve_leaf-render syntax toy 7 rules with_key (codes "psql") leaf (codes "/args")
      no_report

abbrev input : Value
input = Value.object (Fields.field (codes "command") (Value.string leaf) Fields.no_fields)

broker_resolve_pointers-refused_example :
    ((broker_resolve_pointers syntax toy 7 rules with_key (codes "Bash") input).0 ≡ input)
    × ((broker_resolve_pointers syntax toy 7 rules with_key (codes "Bash") input).1.resolved ≡ 0)
unfolding is_egress_boundary_tool is_opaque_command_tool text_eq starts_with
broker_resolve_pointers-refused_example =
    broker_resolve_pointers-refused syntax toy 7 rules with_key (codes "Bash") refl input
