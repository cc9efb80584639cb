-- ===== src/Broker/Rules.antt =====
-- When the policy lets a secret through.
use zlau_de_r.Prelude.{◌≡◌, ◌↔◌, refl, ap, ◌∙◌, inl, inr, true, false}
use zlau_de_r.Prelude.{
  Option, none, some, List, [], ◌∷◌, ◌++◌, any, Text, All, Bool-cases, Option-cases,
}
use zlau_de_r.Broker.{HostSyntax, BrokerAllow, BrokerPolicy, BrokerDecision, DestRule}
use zlau_de_r.Broker.{is_egress_boundary_tool, is_opaque_command_tool, host_eq, parse_dest_host}
use zlau_de_r.Broker.{rule_matches, decide_host, decide_dest, decide_rules, decide}

-- A destination that a rule permits: any, or a host of the rule's list that the value names.
pub data DestAllowed (syn : HostSyntax) (tool value : Text) : Option DestRule → Type 0 where
  unconstrained : DestAllowed syn tool value none
  any_destination : DestAllowed syn tool value (some DestRule.any_host)
  listed :
      (hosts : List Text) (h : Text)
      → parse_dest_host syn tool value ≡ some h
      → any (λ rule. host_eq rule h) hosts ≡ true
      → DestAllowed syn tool value (some (DestRule.host_allow_list hosts))

-- The first rule that matches permits the destination.
pub record FirstAllows (syn : HostSyntax) (policy : BrokerPolicy)
    (secret_name tool pointer value : Text) : Type 0 where
  pub before : List BrokerAllow
  pub rule : BrokerAllow
  pub after : List BrokerAllow
  pub whole : policy ≡ before ++ (rule ∷ after)
  pub earlier :
      All (λ (a : BrokerAllow). rule_matches syn a secret_name tool pointer ≡ false) before
  pub matches : rule_matches syn rule secret_name tool pointer ≡ true
  pub permits : DestAllowed syn tool value rule.dest

module _ (syn : HostSyntax) (secret_name tool pointer value : Text) where
  decide_dest-DestAllowed :
      (dest : Option DestRule)
      → decide_dest syn dest tool value ≡ BrokerDecision.resolve
      → DestAllowed syn tool value dest
  unfolding decide_dest decide_host
  decide_dest-DestAllowed none h = unconstrained
  decide_dest-DestAllowed (some DestRule.any_host) h = any_destination
  decide_dest-DestAllowed (some (DestRule.host_allow_list hosts)) h =
      elim (Option-cases (parse_dest_host syn tool value)) [
        | inl e ↦ let bad = rw e at h in absurd (cc)
        | inr (host, e) ↦ elim (Bool-cases (any (λ rule. host_eq rule host) hosts)) [
          | inl allowed ↦ listed hosts host e allowed
          | inr refused ↦ let bad = rw (e, refused) at h in absurd (cc)
        ]
      ]

  DestAllowed-decide_dest :
      (dest : Option DestRule)
      → DestAllowed syn tool value dest
      → decide_dest syn dest tool value ≡ BrokerDecision.resolve
  unfolding decide_dest decide_host
  DestAllowed-decide_dest _ unconstrained = refl
  DestAllowed-decide_dest _ any_destination = refl
  DestAllowed-decide_dest _ (listed hosts h e allowed) =
      rw (decide_dest, e, decide_host, allowed) refl

  abbrev Allows : BrokerPolicy → Type 0
  Allows policy = FirstAllows syn policy secret_name tool pointer value

  decide_rules-FirstAllows :
      (policy : BrokerPolicy)
      → decide_rules syn policy secret_name tool pointer value ≡ BrokerDecision.resolve
      → Allows policy
  unfolding decide_rules
  decide_rules-FirstAllows [] h = absurd (cc)
  decide_rules-FirstAllows (a ∷ rules) h =
      elim (Bool-cases (rule_matches syn a secret_name tool pointer)) [
        | inl m ↦ record {
          before = [];
          rule = a;
          after = rules;
          whole = refl;
          earlier = tt;
          matches = m;
          permits = decide_dest-DestAllowed a.dest (rw (decide_rules, m) at h);
        }
        | inr m ↦
            let f = decide_rules-FirstAllows rules (rw (decide_rules, m) at h) in
            record {
              before = a ∷ f.before;
              rule = f.rule;
              after = f.after;
              whole = ap (◌∷◌ a) f.whole;
              earlier = (m, f.earlier);
              matches = f.matches;
              permits = f.permits;
            }
      ]

  decide_rules-first :
      (before : List BrokerAllow) (rule : BrokerAllow) (after : List BrokerAllow)
      → All (λ (a : BrokerAllow). rule_matches syn a secret_name tool pointer ≡ false) before
      → rule_matches syn rule secret_name tool pointer ≡ true
      → decide_rules syn (before ++ (rule ∷ after)) secret_name tool pointer value
        ≡ decide_dest syn rule.dest tool value
  unfolding decide_rules
  decide_rules-first [] rule after h m = rw (decide_rules, m) refl
  decide_rules-first (a ∷ before) rule after h m =
      rw (decide_rules, h.0) (decide_rules-first before rule after h.1 m)

  -- The policy lets a secret into a parameter exactly when the tool is neither an egress boundary
  -- nor a shell, and the first of its rules that matches the secret, the tool and the parameter
  -- permits the destination: it constrains none, or the value names a host that is on its list.
  pub decide-FirstAllows :
      (policy : BrokerPolicy)
      → (decide syn policy secret_name tool pointer value ≡ BrokerDecision.resolve) ↔ (
          (is_egress_boundary_tool tool ≡ false)
          × (is_opaque_command_tool tool ≡ false)
          × FirstAllows syn policy secret_name tool pointer value)
  unfolding decide
  decide-FirstAllows policy = (forth, back)
    where
      forth :
          decide syn policy secret_name tool pointer value ≡ BrokerDecision.resolve
          → (is_egress_boundary_tool tool ≡ false)
            × (is_opaque_command_tool tool ≡ false)
            × Allows policy
      forth h = elim (Bool-cases (is_egress_boundary_tool tool)) [
        | inl e ↦ let bad = rw (decide, e) at h in absurd (cc)
        | inr e ↦ elim (Bool-cases (is_opaque_command_tool tool)) [
          | inl o ↦ let bad = rw (decide, e, o) at h in absurd (cc)
          | inr o ↦ (e, o, decide_rules-FirstAllows policy (rw (decide, e, o) at h))
        ]
      ]

      back :
          (is_egress_boundary_tool tool ≡ false)
            × (is_opaque_command_tool tool ≡ false)
            × Allows policy
          → decide syn policy secret_name tool pointer value ≡ BrokerDecision.resolve
      back (e, o, f) =
          rw (decide, e, o, f.whole)
            (decide_rules-first f.before f.rule f.after f.earlier f.matches
              ∙ DestAllowed-decide_dest f.rule.dest f.permits)
