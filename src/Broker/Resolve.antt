-- ===== src/Broker/Resolve.antt =====
-- `MaskEngine::broker_resolve_pointers` (crates/zlauder-engine/src/lib.rs): the broker tokens of a
-- tool's input are replaced by the values that the policy lets through.
use Prim.Native.Nat.{compare, Ordering}
use zlau_de_r.Prelude.{ℕ, zero, suc, ◌+◌, ◌/◌, ◌%◌, if◌then◌else◌, ltb, Option, none, some}
use zlau_de_r.Prelude.{is_empty, List, [], ◌∷◌, ◌++◌, Text, codes, replace, sort_by}
use zlau_de_r.Externals.{Externals}
use zlau_de_r.Json.{Value, Items, Fields}
use zlau_de_r.Token.{Match, match_end, find_iter, is_broker_token}
use zlau_de_r.Store.{SessionStore, TokenKind, Revealed, reveal_for}
use zlau_de_r.Engine.Apply.{replace_range}
use zlau_de_r.Broker.{HostSyntax, BrokerPolicy, BrokerDecision, DenyReason, decide}

pub record BrokerResolveReport : Type 0 where
  pub resolved : ℕ
  pub denied : List (Text × DenyReason)

abbrev pub no_report : BrokerResolveReport
no_report = record { resolved = 0; denied = [] }

-- A range of a leaf, and the value that is to stand there.
pub record Sub : Type 0 where
  pub start : ℕ
  pub end : ℕ
  pub value : Text

-- The substitutions found so far, and the report.
pub record Leaf : Type 0 where
  pub subs : List Sub
  pub report : BrokerResolveReport

abbrev pub name_of : Option Text → Text
name_of none = []
name_of (some n) = n

abbrev pub denied_at : Leaf → Text → DenyReason → Leaf
denied_at l pointer reason = record l {
  report = record l.report { denied = l.report.denied ++ ((pointer, reason) ∷ []) };
}

-- `b.0.start.cmp(&a.0.start)`.
abbrev pub later_first : Sub → Sub → Ordering
later_first a b = compare b.start a.start

unfoldable pub splice_all : List Sub → Text → Text
splice_all [] out = out
splice_all (s ∷ subs) out = splice_all subs (replace_range out s.start s.end s.value)

-- `~` and `/` of a key.
unfoldable pub rfc6901_escape : Text → Text
rfc6901_escape k = replace (codes "/") (codes "~1") (replace (codes "~") (codes "~0") k)

-- The decimal digits of a number that the fuel bounds.
unfoldable pub digits : ℕ → ℕ → Text
digits zero n = []
digits (suc fuel) n =
    let more = digits fuel (n / 10) in
    if ltb n 10 then (b'0' + n) ∷ [] else more ++ ((b'0' + n % 10) ∷ [])

abbrev pub to_string : ℕ → Text
to_string n = digits (suc n) n

module _ (syn : HostSyntax) (x : Externals) (now : ℕ) (policy : BrokerPolicy) (store : SessionStore)
    (tool : Text) where
  -- What the policy says of a live broker token.
  unfoldable pub decided : Text → Text → Leaf → Match → Revealed → Leaf
  decided leaf pointer l m rev =
      elim (decide syn policy (name_of rev.secret_name) tool pointer leaf) [
        | BrokerDecision.resolve ↦ record {
          subs = l.subs ++ (record { start = m.start; end = match_end m; value = rev.value } ∷ []);
          report = record l.report { resolved = l.report.resolved + 1 };
        }
        | BrokerDecision.deny reason ↦ denied_at l pointer reason
      ]

  -- One token of a leaf.
  unfoldable pub one_match : Text → Text → Leaf → Match → Leaf
  one_match leaf pointer l m =
      if is_broker_token m.text
      then elim (reveal_for x now store m.text TokenKind.broker) [
        | some rev ↦ decided leaf pointer l m rev
        | none ↦ denied_at l pointer DenyReason.no_rule
      ]
      else l

  unfoldable pub all_matches : Text → Text → Leaf → List Match → Leaf
  all_matches leaf pointer l [] = l
  all_matches leaf pointer l (m ∷ ms) = all_matches leaf pointer (one_match leaf pointer l m) ms

  -- The new text of a leaf, if it changes, and the report.
  unfoldable pub broker_resolve_leaf :
      Text → Text → BrokerResolveReport → Option Text × BrokerResolveReport
  broker_resolve_leaf leaf pointer report =
      let l = all_matches leaf pointer (record { subs = []; report = report }) (find_iter leaf) in
      (
        if is_empty l.subs then none else some (splice_all (sort_by later_first l.subs) leaf),
        l.report,
      )

  abbrev pub unwrap_or : Text → Option Text → Text
  unwrap_or leaf none = leaf
  unwrap_or leaf (some new) = new

  unfoldable mutual
    pub broker_walk : Value → Text → BrokerResolveReport → Value × BrokerResolveReport
    broker_walk (Value.string s) pointer report =
        let r = broker_resolve_leaf s pointer report in (Value.string (unwrap_or s r.0), r.1)
    broker_walk (Value.array a) pointer report =
        let r = broker_walk_items a 0 pointer report in (Value.array r.0, r.1)
    broker_walk (Value.object o) pointer report =
        let r = broker_walk_fields o pointer report in (Value.object r.0, r.1)
    broker_walk Value.null pointer report = (Value.null, report)
    broker_walk (Value.boolean b) pointer report = (Value.boolean b, report)
    broker_walk (Value.number n) pointer report = (Value.number n, report)

    pub broker_walk_items : Items → ℕ → Text → BrokerResolveReport → Items × BrokerResolveReport
    broker_walk_items Items.no_items i pointer report = (Items.no_items, report)
    broker_walk_items (Items.item v a) i pointer report =
        let r = broker_walk v (pointer ++ (b'/' ∷ to_string i)) report in
        let rest = broker_walk_items a (suc i) pointer r.1 in (Items.item r.0 rest.0, rest.1)

    pub broker_walk_fields : Fields → Text → BrokerResolveReport → Fields × BrokerResolveReport
    broker_walk_fields Fields.no_fields pointer report = (Fields.no_fields, report)
    broker_walk_fields (Fields.field k v o) pointer report =
        let r = broker_walk v (pointer ++ (b'/' ∷ rfc6901_escape k)) report in
        let rest = broker_walk_fields o pointer r.1 in (Fields.field k r.0 rest.0, rest.1)

  unfoldable pub broker_resolve_pointers : Value → Value × BrokerResolveReport
  broker_resolve_pointers input = broker_walk input [] no_report
