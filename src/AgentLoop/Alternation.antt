-- ===== src/AgentLoop/Alternation.antt =====
-- The order of the messages that anima/kernel/agent_loop.py sends: each assistant message is
-- followed by the results of its tool calls, in their order, and no other result stands anywhere.
use anima.AgentLoop.Conversation.{Text}
use anima.Python.{
  ok, Outcome, raised, try_except, ◌>>=◌, pure, Action, Exn, Outcome-cases, try_except-ok,
  bind-of-ok, try_except-raised, bind-of-raised,
}
use anima.Prelude.{
  [], ◌∷◌, refl, true, false, zero, suc, arith, List, String, ℕ, Bool, ◌≡◌, take, not, drop, ◌≤◌,
  ◌&&◌, str_eq, inl, inr, ◌<◌, ◌-◌, Bool-cases, ltb, ap, sym, get_elem?-take, ◌∙◌, get_elem?-beyond,
  ◌++◌, leb, drop-take, ◌||◌, length, ◌==◌, strip,
}
use mathlib.Core.Path.{subst}
use anima.AgentLoop.{
  Message, Role, ToolCall, Summarizer, is_tool, role_at, role_holds, from_user, with_summary,
  compress_from, compress_working_messages, safe_tail_start, safe_compress_cut, compress_keep_turns,
  Text,
}
use anima.AgentLoop.Turns.{TurnEnd, CutAt, cut_from-CutAt, TailAt, safe_tail_start-TailAt, in_turn}

abbrev pub ids : List ToolCall → List String
ids [] = []
ids (call ∷ calls) = call.call_id ∷ ids calls

-- The messages answer first the pending calls, then each assistant message's own.
unfoldable pub alternates : List String → List Message → Bool
alternates [] [] = true
alternates (id ∷ pending) [] = false
alternates [] (m ∷ messages) = not (is_tool m.role) && alternates (ids m.tool_calls) messages
alternates (id ∷ pending) (m ∷ messages) =
    is_tool m.role && str_eq m.tool_call_id id && alternates pending messages

-- A beginning can go where no result is next.
pub alternates-drop :
    (pending : List String) (messages : List Message) (n : ℕ)
    → alternates pending messages ≡ true
    → role_at is_tool messages n ≡ false
    → alternates [] (drop n messages) ≡ true
unfolding alternates
alternates-drop [] [] zero h k = refl
alternates-drop [] [] (suc n) h k = refl
alternates-drop (id ∷ pending) [] n h k = ground (arith, h)
alternates-drop [] (m ∷ messages) zero h k = h
alternates-drop (id ∷ pending) (m ∷ messages) zero h k = ground (arith, h, k)
alternates-drop [] (m ∷ messages) (suc n) h k =
    alternates-drop (ids m.tool_calls) messages n (ground (arith, h)) k
alternates-drop (id ∷ pending) (m ∷ messages) (suc n) h k =
    alternates-drop pending messages n (ground (arith, h)) k

take_in_turn :
    (rest : List Message) (k t : ℕ) (p : Role → Bool)
    → role_at p (take t rest) k ≡ true
    → (k < t) × (role_at p rest k ≡ true)
take_in_turn rest k t p h = elim (Bool-cases (ltb k t)) [
  | inl small ↦
      let k<t : k < t = ground (arith, small) in
      (k<t, ap (role_holds p) (sym (get_elem?-take k t rest k<t)) ∙ h)
  | inr large ↦
      let gone : role_at p (take t rest) k ≡ false =
        ap (role_holds p) (get_elem?-beyond k t rest (ground (arith, large))) in
      ground (arith, gone, h)
]

tail_is_no_tool :
    (origin : Message) (rest : List Message) (t : ℕ)
    → TailAt (origin ∷ rest) (suc (suc t))
    → role_at in_turn rest t ≡ true
    → role_at is_tool rest (suc t) ≡ false
tail_is_no_tool origin rest t (inl small) h = ground (arith, small)
tail_is_no_tool origin rest t (inr (inl next)) h = next
tail_is_no_tool origin rest t (inr (inr aside)) h =
    let back : suc (suc t) - 1 ≡ suc t = omega arith in
    let other : role_at in_turn rest t ≡ false =
      subst (λ z. role_at in_turn (origin ∷ rest) z ≡ false) back aside in
    ground (arith, other, h)

-- The cut lies between turns: what is left after the summary begins with no result.
cut_between :
    (origin : Message) (rest : List Message) (t k : ℕ)
    → TailAt (origin ∷ rest) (suc (suc t))
    → TurnEnd (take (suc t) rest) k
    → (suc k ≤ suc t) × (role_at is_tool rest (suc k) ≡ false)
cut_between origin rest t k tail end =
    let (k<t, before) : (k < suc t) × (role_at in_turn rest k ≡ true) =
      take_in_turn rest k (suc t) in_turn end.before in
    elim (Bool-cases (ltb (suc k) (suc t))) [
      | inl inside ↦ (
        omega (arith, k<t),
        ap (role_holds is_tool) (sym (get_elem?-take (suc k) (suc t) rest (ground (arith, inside))))
            ∙ end.after,
      )
      | inr last ↦
          let same : k ≡ t = ground (arith, k<t, last) in
          (
            omega (arith, k<t),
            subst (λ z. role_at is_tool rest (suc z) ≡ false) (sym same)
                (tail_is_no_tool origin rest t tail
                  (subst (λ z. role_at in_turn rest z ≡ true) same before)),
          )
    ]

module _ {W : Type 0} (summarizer : Summarizer W) where
  -- A call that returns messages in order.
  abbrev pub Returns : Outcome (List Message) × W → Type 0
  Returns result =
      (messages : List Message) × (s : W) × (result ≡ (ok messages, s))
      × (alternates [] messages ≡ true)

  with_summary-alternates :
      (origin : Message) (rest : List Message) (t cut : ℕ) (summary : Text)
      → alternates [] (origin ∷ rest) ≡ true
      → cut ≤ suc t
      → role_at is_tool rest cut ≡ false
      → alternates [] (with_summary summarizer origin rest (suc (suc t)) cut summary) ≡ true
  unfolding with_summary from_user alternates
  with_summary-alternates origin rest t cut [] h small next = h
  with_summary-alternates origin rest t cut (c ∷ summary) h small next =
      let back : suc (suc t) - 1 ≡ suc t = omega arith in
      let left : alternates [] (drop cut rest) ≡ true =
        alternates-drop (ids origin.tool_calls) rest cut (ground (arith, h)) next in
      subst (λ z. alternates [] (drop cut (take z rest) ++ drop z rest) ≡ true) (sym back)
        (subst (λ l. alternates [] l ≡ true) (sym (drop-take cut (suc t) rest small)) left)

  summarise-Returns :
      (origin : Message) (rest : List Message) (t cut : ℕ) (s : W)
      → alternates [] (origin ∷ rest) ≡ true
      → cut ≤ suc t
      → role_at is_tool rest cut ≡ false
      → Returns (
          try_except
            (summarizer.complete (take cut (take (suc (suc t) - 1) rest)) >>= λ content.
              pure (with_summary summarizer origin rest (suc (suc t)) cut (strip content)))
            (λ e. pure (origin ∷ rest))
            s)
  summarise-Returns origin rest t cut s h small next =
      let ask = summarizer.complete (take cut (take (suc (suc t) - 1) rest)) in
      let put : Text → Action W (List Message) =
        λ content. pure (with_summary summarizer origin rest (suc (suc t)) cut (strip content)) in
      let keep : Exn → Action W (List Message) = λ e. pure (origin ∷ rest) in
      elim (Outcome-cases (ask s).0) [
        | inl (content, answered) ↦
            let ran : ask s ≡ (ok content, (ask s).1) = ap (λ o. (o, (ask s).1)) answered in
            (
              with_summary summarizer origin rest (suc (suc t)) cut (strip content),
              (ask s).1,
              try_except-ok (ask >>= put) keep (bind-of-ok ask put ran),
              with_summary-alternates origin rest t cut (strip content) h small next,
            )
        | inr (e, failed) ↦
            let ran : ask s ≡ (raised e, (ask s).1) = ap (λ o. (o, (ask s).1)) failed in
            (
              origin ∷ rest,
              (ask s).1,
              try_except-raised (ask >>= put) keep (bind-of-raised ask put ran),
              h,
            )
      ]

  compress_from-Returns :
      (origin : Message) (rest : List Message) (tail_start cut : ℕ) (s : W)
      → alternates [] (origin ∷ rest) ≡ true
      → TailAt (origin ∷ rest) tail_start
      → CutAt false 0 0 (take (tail_start - 1) rest) cut
      → Returns (compress_from summarizer origin rest tail_start cut s)
  unfolding compress_from
  compress_from-Returns origin rest zero cut s h tail at = (origin ∷ rest, s, refl, h)
  compress_from-Returns origin rest (suc zero) cut s h tail at = (origin ∷ rest, s, refl, h)
  compress_from-Returns origin rest (suc (suc t)) cut s h tail (inl (same, _)) =
      (origin ∷ rest, s, ground (arith, same), h)
  compress_from-Returns origin rest (suc (suc t)) cut s h tail (inr (k, same, end)) =
      let go_on : (leb (suc (suc t)) 1 || cut == 0) ≡ false = ground (arith, same) in
      let back : suc (suc t) - 1 ≡ suc t = omega arith in
      let (small, next) : (suc k ≤ suc t) × (role_at is_tool rest (suc k) ≡ false) =
        cut_between origin rest t k tail (subst (λ z. TurnEnd (take z rest) k) back end) in
      rw go_on (
        summarise-Returns origin rest t cut s h (omega (arith, same, small))
          (subst (λ z. role_at is_tool rest z ≡ false) (omega (arith, same)) next))

  pub compress_working_messages-Returns :
      (messages : List Message) (s : W)
      → alternates [] messages ≡ true
      → Returns (compress_working_messages summarizer messages s)
  unfolding compress_working_messages safe_compress_cut
  compress_working_messages-Returns [] s h = ([], s, refl, h)
  compress_working_messages-Returns (origin ∷ rest) s h = elim (Bool-cases (leb (length rest) 1)) [
    | inl short ↦ (origin ∷ rest, s, rw short refl, h)
    | inr long ↦
        let start = safe_tail_start (origin ∷ rest) compress_keep_turns in
        let middle = take (start - 1) rest in
        rw long (
          compress_from-Returns origin rest start (safe_compress_cut middle) s h
            (safe_tail_start-TailAt (origin ∷ rest) compress_keep_turns)
            (cut_from-CutAt false 0 0 middle))
  ]
