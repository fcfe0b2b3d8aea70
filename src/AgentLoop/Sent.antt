-- ===== src/AgentLoop/Sent.antt =====
-- Every prompt of a run of anima/kernel/agent_loop.py is in order, and they are few.
use anima.Python.{
  Action, ◌>>◌, bind-Keeps, Outcome-cases, bind-of-ok, bind-of-raised, ok, ◌>>=◌, pure, modify, Exn,
  try_except, try_except-ok, try_except-raised,
}
use anima.Prelude.{
  [], ◌∷◌, true, suc, inl, inr, arith, List, ℕ, ◌≡◌, All, ◌≤◌, ◌++◌, sym, length, All-append,
  length-append, ap, refl, none, some, zero, Bool-cases, ◌+◌, Option, ltb,
}
use mathlib.Core.Path.{subst}
use mathlib.Core.List.{append_assoc}
use anima.AgentLoop.{
  Session, Agent, Text, Message, Reply, ToolCall, in_world, emit, emit_chunks, emit_error,
  stream_final, say, chunks_of, compress_long, compress_threshold, compress_working_messages,
  select, after_reply, after_answer, append_message, assistant_message, run_calls, rounds, run,
  start, max_tool_rounds, text_of, error, done, List, ℕ, Action, length, Option, ltb, pure, modify,
  Exn, try_except,
}
use anima.AgentLoop.Alternation.{alternates, ids, compress_working_messages-Returns}
use anima.AgentLoop.Prompts.{
  bind-Same, emit_chunks-Same, emit_error-Same, run_calls-Answered, alternates-append,
}

-- Each assistant message is followed by the results of its calls, in their order.
abbrev pub InOrder : List Message → Type 0
InOrder messages = alternates [] messages ≡ true

module _ {W P : Type 0} (agent : Agent W P) where
  -- The prompts so far are in order, and `k` at most.
  abbrev pub Sent : ℕ → Session W P → Type 0
  Sent k t = All InOrder t.asked × (length t.asked ≤ k)

  Sent-same : (k : ℕ) (s t : Session W P) → t.asked ≡ s.asked → Sent k s → Sent k t
  Sent-same k s t same h = subst (λ l. All InOrder l × (length l ≤ k)) (sym same) h

  Sent-more : (k n : ℕ) (t : Session W P) → k ≤ n → Sent k t → Sent n t
  Sent-more k n t small (h, few) = (h, omega (arith, small, few))

  -- One prompt more.
  Sent-next :
      (k : ℕ) (s t : Session W P)
      → t.asked ≡ s.asked ++ s.working_messages ∷ []
      → InOrder s.working_messages
      → Sent k s
      → Sent (suc k) t
  Sent-next k s t same order (h, few) =
      let next : s.asked ++ s.working_messages ∷ [] ≡ t.asked = sym same in
      (
        subst (All InOrder) next
            (All-append InOrder s.asked (s.working_messages ∷ []) h (order, tt)),
        subst (λ l. length l ≤ suc k) next
            (rw (length-append s.asked (s.working_messages ∷ [])) (omega (arith, few))),
      )

  stream_final-asked :
      (s : Session W P) → (stream_final agent s).1.asked ≡ s.asked ++ s.working_messages ∷ []
  unfolding stream_final
  stream_final-asked s =
      let (streamed, w) = agent.stream s.working_messages s.world in
      let t = record s { asked = s.asked ++ s.working_messages ∷ []; world = w } in
      (bind-Same agent (emit_chunks streamed.chunks) (λ _. emit_error streamed.broke)
        (emit_chunks-Same agent streamed.chunks) (λ _. emit_error-Same agent streamed.broke) t).0

  -- A part that asks at most once more, and then yields `done`.
  closes-Sent :
      (m : Action (Session W P) Unit) (k : ℕ) (s : Session W P)
      → Sent k (m s).1
      → Sent k ((m >> emit done) s).1
  closes-Sent m k s h = bind-Keeps (Sent k) m (λ _. emit done) s h (λ _ t g. g)

  say-Sent :
      (text : Text) (k : ℕ) (s : Session W P)
      → InOrder s.working_messages
      → Sent k s
      → Sent (suc k) (say agent text s).1
  say-Sent [] k s order h = Sent-next k s (stream_final agent s).1 (stream_final-asked s) order h
  say-Sent (c ∷ text) k s order h =
      let t = (emit_chunks (chunks_of (c ∷ text)) s).1 in
      Sent-more k (suc k) t (omega arith)
        (Sent-same k s t (emit_chunks-Same agent (chunks_of (c ∷ text)) s).0 h)

  answered-InOrder :
      (messages answers : List Message) (reply : Reply) (tool_calls : List ToolCall)
      → reply.tool_calls ≡ tool_calls
      → InOrder messages
      → alternates (ids tool_calls) answers ≡ true
      → InOrder ((messages ++ assistant_message agent reply ∷ []) ++ answers)
  unfolding alternates
  answered-InOrder messages answers reply tool_calls e order fits =
      let turn = assistant_message agent reply in
      let own : alternates (ids reply.tool_calls) answers ≡ true =
        subst (λ l. alternates (ids l) answers ≡ true) (sym e) fits in
      subst InOrder (sym (append_assoc messages (turn ∷ []) answers))
        (alternates-append [] messages (turn ∷ answers) order own)

  answer-Sent :
      (rest : Action (Session W P) Unit) (reply : Reply) (tool_calls : List ToolCall) (k n : ℕ)
      (s : Session W P)
      → reply.tool_calls ≡ tool_calls
      → InOrder s.working_messages
      → Sent k s
      → suc k ≤ n
      → ((t : Session W P) → InOrder t.working_messages → Sent k t → Sent n (rest t).1)
      → Sent n (after_answer agent rest reply tool_calls s).1
  unfolding after_answer
  answer-Sent rest reply [] k n s e order h small hk =
      Sent-more (suc k) n ((say agent (text_of agent reply) >> emit done) s).1 small (
        closes-Sent (say agent (text_of agent reply)) (suc k) s
          (say-Sent (text_of agent reply) k s order h))
  answer-Sent rest reply (tc ∷ tool_calls) k n s e order h small hk =
      let calls = run_calls agent (tc ∷ tool_calls) in
      let t = (append_message (assistant_message agent reply) s).1 in
      let u = (calls t).1 in
      let all = run_calls-Answered agent (tc ∷ tool_calls) t in
      let sent : Sent k u = Sent-same k s u all.asked h in
      elim (Outcome-cases (calls t).0) [
        | inl (_, ran) ↦
            let (answers, said, fits) = all.answers ran in
            subst (λ r. Sent n r.1)
              (sym (bind-of-ok calls (λ _. rest) {s = t} {s' = u} (ap (λ o. (o, u)) ran)))
              (hk u
                (subst InOrder (sym said) (
                  answered-InOrder s.working_messages answers reply (tc ∷ tool_calls) e order fits))
                sent)
        | inr (x, failed) ↦
            subst (λ r. Sent n r.1)
              (sym (bind-of-raised calls (λ _. rest) {s = t} {s' = u} (ap (λ o. (o, u)) failed)))
              (Sent-more k n u (omega (arith, small)) sent)
      ]

  select-Sent :
      (rest : Action (Session W P) Unit) (k n : ℕ) (s : Session W P)
      → InOrder s.working_messages
      → Sent k s
      → suc (suc k) ≤ n
      → ((t : Session W P) → InOrder t.working_messages → Sent (suc k) t → Sent n (rest t).1)
      → Sent n ((select agent >>= after_reply agent rest) s).1
  unfolding select after_reply
  select-Sent rest k n s order h small hk =
      let t = record s { asked = s.asked ++ s.working_messages ∷ [] } in
      let ask = in_world (agent.select s.working_messages) in
      let found : Reply → Action (Session W P) (Option Reply) = λ reply. pure (some reply) in
      let give_up : Exn → Action (Session W P) (Option Reply) = λ e. emit (error e) >> pure none in
      let u = (ask t).1 in
      let sent : Sent (suc k) u = Sent-next k s u refl order h in
      elim (Outcome-cases (agent.select s.working_messages s.world).0) [
        | inl (reply, answered) ↦
            subst (λ r. Sent n r.1)
              (sym (
                bind-of-ok (try_except (ask >>= found) give_up) (after_reply agent rest) {s = t}
                  {s' = u}
                  (try_except-ok (ask >>= found) give_up {s = t} {s' = u}
                    (bind-of-ok ask found {s = t} {s' = u} (ap (λ o. (o, u)) answered)))))
              (answer-Sent rest reply reply.tool_calls (suc k) n u refl order sent small hk)
        | inr (e, failed) ↦
            subst (λ r. Sent n r.1)
              (sym (
                bind-of-ok (try_except (ask >>= found) give_up) (after_reply agent rest) {s = t} (
                  try_except-raised (ask >>= found) give_up {s = t} {s' = u}
                    (bind-of-raised ask found {s = t} {s' = u} (ap (λ o. (o, u)) failed)))))
              (Sent-more (suc k) n u (omega (arith, small)) sent)
      ]

  compress_long-InOrder :
      (s : Session W P)
      → InOrder s.working_messages
      → (t : Session W P) × (compress_long agent s ≡ (ok tt, t))
        × (t.asked ≡ s.asked)
        × InOrder t.working_messages
  unfolding compress_long
  compress_long-InOrder s order =
      elim (Bool-cases (ltb compress_threshold (length s.working_messages))) [
        | inr short ↦ (s, rw short refl, refl, order)
        | inl long ↦
            let compress =
              in_world (compress_working_messages agent.summarizer s.working_messages) in
            let set : List Message → Action (Session W P) Unit =
              λ messages. modify (λ t. record t { working_messages = messages }) in
            let (messages, w, returned, fits) =
              compress_working_messages-Returns agent.summarizer s.working_messages s.world order in
            let u = record s { world = w } in
            (
              record s { world = w; working_messages = messages },
              rw long (
                  bind-of-ok compress set {s = s} {s' = u}
                    (ap (λ r. (r.0, record s { world = r.1 })) returned)),
              refl,
              fits,
            )
      ]

  rounds-Sent :
      (n k : ℕ) (s : Session W P)
      → InOrder s.working_messages
      → Sent k s
      → Sent (k + suc n) (rounds agent n s).1
  unfolding rounds
  rounds-Sent zero k s order h =
      Sent-more (suc k) (k + 1) ((stream_final agent >> emit done) s).1 (omega arith) (
        closes-Sent (stream_final agent) (suc k) s
          (Sent-next k s (stream_final agent s).1 (stream_final-asked s) order h))
  rounds-Sent (suc n) k s order h =
      let (t, ran, same, kept) = compress_long-InOrder s order in
      let on = select agent >>= after_reply agent (rounds agent n) in
      subst (λ r. Sent (k + suc (suc n)) r.1)
        (sym (bind-of-ok (compress_long agent) (λ _. on) {s = s} {s' = t} ran))
        (select-Sent (rounds agent n) k (k + suc (suc n)) t kept (Sent-same k s t same h)
          (omega arith)
          (λ u u_order sent.
            Sent-more (suc k + suc n) (k + suc (suc n)) (rounds agent n u).1 (omega arith)
              (rounds-Sent n (suc k) u u_order sent)))

  -- A run whose messages are in order (each assistant message is followed by the results of its tool
  -- calls, in their order, and no result stands anywhere else) asks the model only with messages in
  -- order, through every compression and every failure, and at most 13 times in all, the requests
  -- for summaries not counted.
  pub run-Sent :
      (world : W) (messages : List Message)
      → InOrder messages
      → Sent 13 (run agent world messages).1
  unfolding run
  run-Sent world messages order =
      rounds-Sent max_tool_rounds 0 (start agent world messages) order (tt, omega arith)
