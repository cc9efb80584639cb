-- ===== src/Broker/Leaf.antt =====
-- The splicing of a leaf, from the back, against the rendering of its tokens one by one.
use zlau_de_r.Prelude.{
  ℕ, zero, suc, subst, ◌+◌, ◌-◌, ◌≤◌, ◌<◌, ◌≡◌, refl, sym, ap, ◌∙◌, inl, inr, arith,
}
use zlau_de_r.Prelude.{
  if◌then◌else◌, Option, none, some, is_empty, List, [], ◌∷◌, ◌++◌, length, take, drop,
}
use zlau_de_r.Prelude.{Text, ◌∈◌, All, sort_by, insert_by, mem-sort_by, Bool-cases, Option-cases}
use zlau_de_r.Prelude.{append-nil, append_assoc, length-append, take-append, drop-append}
use zlau_de_r.Externals.{Externals}
use zlau_de_r.Token.{
  Piece, Match, match_at, match_end, matches_from, find_iter, is_broker_token, scan,
}
use zlau_de_r.Token.Scan.{join, scan-join, scan-none, scan-some, match_head}
use zlau_de_r.Store.{SessionStore, TokenKind, Revealed, reveal_for}
use zlau_de_r.Engine.Apply.{replace_range}
use zlau_de_r.Engine.Unmask.Pieces.{render_pieces}
use zlau_de_r.Broker.{HostSyntax, BrokerPolicy, BrokerDecision, decide}
use zlau_de_r.Broker.Resolve.{
  Sub, Leaf, BrokerResolveReport, name_of, later_first, splice_all, decided,
}
use zlau_de_r.Broker.Resolve.{one_match, all_matches, broker_resolve_leaf, unwrap_or}

-- The substitutions, the last one first.
splice_back : List Sub → Text → Text
splice_back [] out = out
splice_back (s ∷ subs) out = replace_range (splice_back subs out) s.start s.end s.value

abbrev Ascending : List Sub → Type 0
Ascending [] = Unit
Ascending (s ∷ subs) = ((t : Sub) → t ∈ subs → s.start < t.start) × Ascending subs

insert_by-last :
    (s : Sub) (subs : List Sub)
    → ((t : Sub) → t ∈ subs → s.start < t.start)
    → insert_by later_first s subs ≡ subs ++ (s ∷ [])
unfolding insert_by
insert_by-last s [] h = refl
insert_by-last s (t ∷ subs) h =
    let later = h t (inl refl) in ground (arith, insert_by-last s subs (λ u m. h u (inr m)))

splice_all-append :
    (subs : List Sub) (s : Sub) (out : Text)
    → splice_all (subs ++ (s ∷ [])) out ≡ replace_range (splice_all subs out) s.start s.end s.value
unfolding splice_all
splice_all-append [] s out = refl
splice_all-append (t ∷ subs) s out = splice_all-append subs s _

splice_all-sort_by :
    (subs : List Sub) (out : Text)
    → Ascending subs
    → splice_all (sort_by later_first subs) out ≡ splice_back subs out
unfolding sort_by splice_all splice_back
splice_all-sort_by [] out h = refl
splice_all-sort_by (s ∷ subs) out h =
    ap (λ (l : List Sub). splice_all l out)
      (insert_by-last s (sort_by later_first subs)
        (λ t m. h.0 t (mem-sort_by later_first t subs m)))
    ∙ splice_all-append (sort_by later_first subs) s out
    ∙ ap (λ (t : Text). replace_range t s.start s.end s.value) (splice_all-sort_by subs out h.1)

replace_range-piece :
    (pre bytes rest value out : Text) (i : ℕ)
    → out ≡ (pre ++ bytes) ++ rest
    → i ≡ length pre
    → replace_range out i (i + length bytes) value ≡ pre ++ (value ++ rest)
unfolding replace_range
replace_range-piece pre bytes rest value out i e l =
    let ends : i + length bytes ≡ length (pre ++ bytes) =
      omega (arith, l, length-append pre bytes) in
    rw (ends, l, e)
      (ap (λ (t : Text). t ++ (value ++ drop (length (pre ++ bytes)) ((pre ++ bytes) ++ rest)))
          (ap (take (length pre)) (append_assoc pre bytes rest) ∙ take-append pre (bytes ++ rest))
        ∙ ap (λ (t : Text). pre ++ (value ++ t)) (drop-append (pre ++ bytes) rest))

abbrev NonEmpty : List Piece → Type 0
NonEmpty = All (λ (p : Piece). 0 < length p.bytes)

scan-NonEmpty : (n : ℕ) (t : Text) → NonEmpty (scan n t)
unfolding scan
scan-NonEmpty zero [] = tt
scan-NonEmpty (suc n) [] = tt
scan-NonEmpty (suc n) (c ∷ t) = scan-NonEmpty n t
scan-NonEmpty zero (c ∷ t) = elim (Option-cases (match_at (c ∷ t))) [
  | inl e ↦ rw (scan-none c t e) (omega arith, scan-NonEmpty zero t)
  | inr (token, e) ↦
      let m = match_head c t token e in
      let size = ap length m.shape in
      rw (scan-some c t token e) (omega (arith, size), scan-NonEmpty (length token - 1) t)
]

module _ (syn : HostSyntax) (x : Externals) (now : ℕ) (policy : BrokerPolicy) (store : SessionStore)
    (tool leaf pointer : Text) where
  -- The value that a token of the leaf is replaced by, if the policy lets it through.
  unfoldable pub value_for : Text → Option Text
  value_for token =
      if is_broker_token token
      then elim (reveal_for x now store token TokenKind.broker) [
        | none ↦ none
        | some rev ↦ elim (decide syn policy (name_of rev.secret_name) tool pointer leaf) [
          | BrokerDecision.resolve ↦ some rev.value
          | BrokerDecision.deny reason ↦ none
        ]
      ]
      else none

  abbrev pub resolved_token : Text → Text
  resolved_token token = unwrap_or syn x now policy store tool token (value_for token)

  abbrev sub_at : Match → Option Text → List Sub
  sub_at m none = []
  sub_at m (some v) = record { start = m.start; end = match_end m; value = v } ∷ []

  abbrev subs_of : List Match → List Sub
  subs_of [] = []
  subs_of (m ∷ ms) = sub_at m (value_for m.text) ++ subs_of ms

  one_match-subs :
      (l : Leaf) (m : Match)
      → (one_match syn x now policy store tool leaf pointer l m).subs
        ≡ l.subs ++ sub_at m (value_for m.text)
  unfolding one_match decided value_for
  one_match-subs l m = elim (Bool-cases (is_broker_token m.text)) [
    | inr other ↦ rw (one_match, value_for, other) (sym (append-nil l.subs))
    | inl broker ↦ elim (Option-cases (reveal_for x now store m.text TokenKind.broker)) [
      | inl e ↦ rw (one_match, value_for, broker, e) (sym (append-nil l.subs))
      | inr (rev, e) ↦
          rw (one_match, value_for, broker, e)
            (by_decision rev (decide syn policy (name_of rev.secret_name) tool pointer leaf) refl)
    ]
  ]
    where
      by_decision :
          (rev : Revealed) (d : BrokerDecision)
          → decide syn policy (name_of rev.secret_name) tool pointer leaf ≡ d
          → (decided syn x now policy store tool leaf pointer l m rev).subs
            ≡ l.subs
              ++ sub_at m (elim (decide syn policy (name_of rev.secret_name) tool pointer leaf) [
                | BrokerDecision.resolve ↦ some rev.value
                | BrokerDecision.deny reason ↦ none
              ])
      by_decision rev BrokerDecision.resolve e = rw (decided, e) refl
      by_decision rev (BrokerDecision.deny reason) e = rw (decided, e) (sym (append-nil l.subs))

  all_matches-subs :
      (l : Leaf) (ms : List Match)
      → (all_matches syn x now policy store tool leaf pointer l ms).subs ≡ l.subs ++ subs_of ms
  unfolding all_matches
  all_matches-subs l [] = sym (append-nil l.subs)
  all_matches-subs l (m ∷ ms) =
      all_matches-subs (one_match syn x now policy store tool leaf pointer l m) ms
      ∙ ap (λ (s : List Sub). s ++ subs_of ms) (one_match-subs l m)
      ∙ append_assoc l.subs (sub_at m (value_for m.text)) (subs_of ms)

  -- The substitutions that the pieces give rise to, from offset `i` on.
  abbrev from : ℕ → List Piece → List Sub
  from i ps = subs_of (matches_from i ps)

  sub_at-start :
      (i : ℕ) (bytes : Text) (later : List Sub) (s : Sub)
      → (s ∈ later → i + length bytes ≤ s.start)
      → (v : Option Text) → s ∈ (sub_at (record { start = i; text = bytes }) v ++ later)
      → i ≤ s.start
  sub_at-start i bytes later s le none m = let far = le m in omega (arith, far)
  sub_at-start i bytes later s le (some v) (inl e) =
      let same = ap (λ (t : Sub). t.start) e in omega (arith, same)
  sub_at-start i bytes later s le (some v) (inr m) = let far = le m in omega (arith, far)

  from-start : (i : ℕ) (ps : List Piece) (s : Sub) → s ∈ from i ps → i ≤ s.start
  unfolding matches_from
  from-start i [] s h = absurd h
  from-start i (p ∷ ps) s h = elim (Bool-cases p.is_match) [
    | inr plain ↦ let le = from-start (i + length p.bytes) ps s (rw plain at h) in omega (arith, le)
    | inl match ↦
        sub_at-start i p.bytes (from (i + length p.bytes) ps) s
          (from-start (i + length p.bytes) ps s) (value_for p.bytes) (rw match at h)
  ]

  from-Ascending : (i : ℕ) (ps : List Piece) → NonEmpty ps → Ascending (from i ps)
  unfolding matches_from
  from-Ascending i [] h = tt
  from-Ascending i (p ∷ ps) h =
      let rest = from-Ascending (i + length p.bytes) ps h.1 in
      elim (Bool-cases p.is_match) [
        | inr plain ↦ rw plain rest
        | inl match ↦ elim (Option-cases (value_for p.bytes)) [
          | inl e ↦ rw (match, matches_from, e) rest
          | inr (v, e) ↦
              rw (match, matches_from, e)
                (
                  λ t m.
                      (let le = from-start (i + length p.bytes) ps t m in omega (arith, le, h.0)),
                  rest,
                )
        ]
      ]

  splice_back-render :
      (pre text : Text) (ps : List Piece) (i : ℕ)
      → text ≡ pre ++ join ps
      → i ≡ length pre
      → splice_back (from i ps) text ≡ pre ++ render_pieces resolved_token ps
  unfolding matches_from splice_back replace_range
  splice_back-render pre text [] i e l = e
  splice_back-render pre text (p ∷ ps) i e l =
      let rest =
        splice_back-render (pre ++ p.bytes) text ps (i + length p.bytes)
          (e ∙ sym (append_assoc pre p.bytes (join ps)))
          (omega (arith, length-append pre p.bytes)) in
      elim (Bool-cases p.is_match) [
        | inr plain ↦ rw plain (rest ∙ append_assoc pre p.bytes (render_pieces resolved_token ps))
        | inl match ↦ elim (Option-cases (value_for p.bytes)) [
          | inl v ↦
              rw (match, matches_from, v)
                (rest ∙ append_assoc pre p.bytes (render_pieces resolved_token ps))
          | inr (value, v) ↦
              rw (match, matches_from, v)
                (replace_range-piece pre p.bytes (render_pieces resolved_token ps) value
                  (splice_back (from (i + length p.bytes) ps) text) i rest l)
        ]
      ]

  -- A leaf becomes what it is with each of its tokens by itself replaced: a broker token that is
  -- live and that the policy lets through, judged on the leaf as it was, by its value; every other
  -- token, and what stands between the tokens, stays.
  pub broker_resolve_leaf-render :
      (report : BrokerResolveReport)
      → unwrap_or syn x now policy store tool leaf
          (broker_resolve_leaf syn x now policy store tool leaf pointer report).0
        ≡ render_pieces resolved_token (scan 0 leaf)
  unfolding broker_resolve_leaf find_iter splice_back
  broker_resolve_leaf-render report =
      let start : Leaf = record { subs = []; report = report } in
      let found =
        (all_matches syn x now policy store tool leaf pointer start
          (matches_from 0 (scan 0 leaf))).subs in
      let subs : found ≡ from 0 (scan 0 leaf) =
        all_matches-subs start (matches_from 0 (scan 0 leaf)) in
      let spliced : splice_back found leaf ≡ render_pieces resolved_token (scan 0 leaf) =
        ap (λ (l : List Sub). splice_back l leaf) subs
        ∙ splice_back-render [] leaf (scan 0 leaf) 0 (sym (scan-join 0 leaf)) refl in
      let ascending : Ascending found =
        subst Ascending (sym subs) (from-Ascending 0 (scan 0 leaf) (scan-NonEmpty 0 leaf)) in
      done found ascending ∙ spliced
    where
      done :
          (subs : List Sub)
          → Ascending subs
          → unwrap_or syn x now policy store tool leaf
              (if is_empty subs then none else some (splice_all (sort_by later_first subs) leaf))
            ≡ splice_back subs leaf
      done [] h = refl
      done (s ∷ subs) h = splice_all-sort_by (s ∷ subs) leaf h
