-- ===== src/Broker/Denied.antt =====
-- Tools that are given no broker value at all.
use zlau_de_r.Prelude.{ℕ, suc, ◌≡◌, refl, ap, ◌∙◌, inl, inr, arith, true, ◌||◌}
use zlau_de_r.Prelude.{none, List, [], ◌∷◌, ◌++◌, Text, Bool-cases, Option-cases}
use zlau_de_r.Externals.{Externals}
use zlau_de_r.Json.{Value, Items, Fields}
use zlau_de_r.Token.{Match, find_iter, is_broker_token}
use zlau_de_r.Store.{SessionStore, TokenKind, reveal_for}
use zlau_de_r.Broker.{HostSyntax, BrokerPolicy, BrokerDecision, DenyReason, decide}
use zlau_de_r.Broker.{is_egress_boundary_tool, is_opaque_command_tool}
use zlau_de_r.Broker.Resolve.{
  Leaf, BrokerResolveReport, no_report, name_of, rfc6901_escape, to_string,
}
use zlau_de_r.Broker.Resolve.{decided, one_match, all_matches, broker_resolve_leaf, broker_walk}
use zlau_de_r.Broker.Resolve.{broker_walk_items, broker_walk_fields, broker_resolve_pointers}

module _ (syn : HostSyntax) (x : Externals) (now : ℕ) (policy : BrokerPolicy) (store : SessionStore)
    (tool : Text)
    (refused : (is_egress_boundary_tool tool || is_opaque_command_tool tool) ≡ true) where
  decide-refused :
      (name pointer leaf : Text)
      → (reason : DenyReason) × (decide syn policy name tool pointer leaf
          ≡ BrokerDecision.deny reason)
  unfolding decide
  decide-refused name pointer leaf = elim (Bool-cases (is_egress_boundary_tool tool)) [
    | inl e ↦ (DenyReason.egress_boundary, rw (decide, e) refl)
    | inr e ↦
        let opaque : is_opaque_command_tool tool ≡ true = ground (arith, e, refused) in
        (DenyReason.opaque_command, rw (decide, e, opaque) refl)
  ]

  -- No substitution is added, and none is counted.
  record Unmoved (l m : Leaf) : Type 0 where
    subs : m.subs ≡ l.subs
    resolved : m.report.resolved ≡ l.report.resolved

  one_match-Unmoved :
      (leaf pointer : Text) (l : Leaf) (m : Match)
      → Unmoved l (one_match syn x now policy store tool leaf pointer l m)
  unfolding one_match decided
  one_match-Unmoved leaf pointer l m = elim (Bool-cases (is_broker_token m.text)) [
    | inr other ↦ rw (one_match, other) (record { subs = refl; resolved = refl })
    | inl broker ↦ elim (Option-cases (reveal_for x now store m.text TokenKind.broker)) [
      | inl e ↦ rw (one_match, broker, e) (record { subs = refl; resolved = refl })
      | inr (rev, e) ↦
          let (reason, denies) = decide-refused (name_of rev.secret_name) pointer leaf in
          rw (one_match, broker, e, decided, denies) (record { subs = refl; resolved = refl })
    ]
  ]

  all_matches-Unmoved :
      (leaf pointer : Text) (l : Leaf) (ms : List Match)
      → Unmoved l (all_matches syn x now policy store tool leaf pointer l ms)
  unfolding all_matches
  all_matches-Unmoved leaf pointer l [] = record { subs = refl; resolved = refl }
  all_matches-Unmoved leaf pointer l (m ∷ ms) =
      let first = one_match-Unmoved leaf pointer l m in
      let rest =
        all_matches-Unmoved leaf pointer (one_match syn x now policy store tool leaf pointer l m)
          ms in
      record { subs = rest.subs ∙ first.subs; resolved = rest.resolved ∙ first.resolved }

  broker_resolve_leaf-refused :
      (leaf pointer : Text) (report : BrokerResolveReport)
      → let r = broker_resolve_leaf syn x now policy store tool leaf pointer report in
        (r.0 ≡ none) × (r.1.resolved ≡ report.resolved)
  unfolding broker_resolve_leaf
  broker_resolve_leaf-refused leaf pointer report =
      let u =
        all_matches-Unmoved leaf pointer (record { subs = []; report = report }) (find_iter leaf) in
      (rw (u.subs) refl, u.resolved)

  mutual
    unfolding broker_walk

    broker_walk-refused :
        (v : Value) (pointer : Text) (report : BrokerResolveReport)
        → let r = broker_walk syn x now policy store tool v pointer report in
          (r.0 ≡ v) × (r.1.resolved ≡ report.resolved)
    broker_walk-refused (Value.string s) pointer report =
        let (same, count) = broker_resolve_leaf-refused s pointer report in (rw same refl, count)
    broker_walk-refused (Value.array a) pointer report =
        let (same, count) = items-refused a 0 pointer report in (ap Value.array same, count)
    broker_walk-refused (Value.object o) pointer report =
        let (same, count) = fields-refused o pointer report in (ap Value.object same, count)
    broker_walk-refused Value.null pointer report = (refl, refl)
    broker_walk-refused (Value.boolean b) pointer report = (refl, refl)
    broker_walk-refused (Value.number n) pointer report = (refl, refl)

    items-refused :
        (a : Items) (i : ℕ) (pointer : Text) (report : BrokerResolveReport)
        → let r = broker_walk_items syn x now policy store tool a i pointer report in
          (r.0 ≡ a) × (r.1.resolved ≡ report.resolved)
    items-refused Items.no_items i pointer report = (refl, refl)
    items-refused (Items.item v a) i pointer report =
        let here = pointer ++ (b'/' ∷ to_string i) in
        let (same, count) = broker_walk-refused v here report in
        let (rest, counts) =
          items-refused a (suc i) pointer
            (broker_walk syn x now policy store tool v here report).1 in
        ((λ j. Items.item (same j) (rest j)), counts ∙ count)

    fields-refused :
        (o : Fields) (pointer : Text) (report : BrokerResolveReport)
        → let r = broker_walk_fields syn x now policy store tool o pointer report in
          (r.0 ≡ o) × (r.1.resolved ≡ report.resolved)
    fields-refused Fields.no_fields pointer report = (refl, refl)
    fields-refused (Fields.field k v o) pointer report =
        let here = pointer ++ (b'/' ∷ rfc6901_escape k) in
        let (same, count) = broker_walk-refused v here report in
        let (rest, counts) =
          fields-refused o pointer (broker_walk syn x now policy store tool v here report).1 in
        ((λ j. Fields.field k (same j) (rest j)), counts ∙ count)

  -- The input of a tool that is an egress boundary or a shell comes through unchanged, whatever the
  -- policy allows and the store holds, and the report counts no token as resolved.
  pub broker_resolve_pointers-refused :
      (input : Value)
      → let r = broker_resolve_pointers syn x now policy store tool input in
        (r.0 ≡ input) × (r.1.resolved ≡ 0)
  unfolding broker_resolve_pointers
  broker_resolve_pointers-refused input = broker_walk-refused input [] no_report
