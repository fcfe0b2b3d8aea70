-- ===== src/AgentLoop/Prompts.antt =====
-- The messages that a run of anima/kernel/agent_loop.py sends to the model.
use anima.Python.{
  ok, Action, Outcome-cases, ◌>>=◌, Exn, ◌>>◌, Outcome, bind-Keeps, bind-of-ok, bind-of-raised,
}
use anima.Prelude.{
  [], ◌∷◌, refl, true, none, some, inl, inr, arith, List, ◌≡◌, ◌∙◌, Option, or_default, sym, String,
  ◌++◌, ap, ◌&&◌, eq_refl, str_eq,
}
use mathlib.Core.Path.{subst}
use mathlib.Core.List.{append_assoc, append-nil}
use anima.AgentLoop.{
  is_tool, detect_artifacts, Session, Agent, Text, Message, ToolCall, ToolResult, Artifact,
  in_world, emit, emit_chunks, emit_error, result_message, report_artifacts, after_call, run_call,
  run_calls, chunk, artifact, new_artifacts, call_back, tool_call, tool_result, List, Action,
  Option, or_default, String, Exn, Outcome,
}
use anima.AgentLoop.Alternation.{alternates, ids}

-- An order goes on with one that waits for nothing.
pub alternates-append :
    (pending : List String) (a b : List Message)
    → alternates pending a ≡ true
    → alternates [] b ≡ true
    → alternates pending (a ++ b) ≡ true
unfolding alternates
alternates-append [] [] b ha hb = hb
alternates-append (id ∷ pending) [] b ha hb = ground (arith, ha)
alternates-append [] (m ∷ a) b ha hb =
    let more = alternates-append (ids m.tool_calls) a b (ground (arith, ha)) hb in
    ground (arith, ha, more)
alternates-append (id ∷ pending) (m ∷ a) b ha hb =
    let more = alternates-append pending a b (ground (arith, ha)) hb in ground (arith, ha, more)

module _ {W P : Type 0} (agent : Agent W P) where
  -- Neither a prompt nor the working messages change.
  abbrev pub Same : Session W P → Session W P → Type 0
  Same s t = (t.asked ≡ s.asked) × (t.working_messages ≡ s.working_messages)

  Same-trans : (s t u : Session W P) → Same s t → Same t u → Same s u
  Same-trans s t u (a, m) (b, n) = (b ∙ a, n ∙ m)

  pub bind-Same :
      {A B : Type 0} (m : Action (Session W P) A) (f : A → Action (Session W P) B)
      → ((s : Session W P) → Same s (m s).1)
      → ((a : A) (s : Session W P) → Same s (f a s).1)
      → (s : Session W P) → Same s ((m >>= f) s).1
  bind-Same m f hm hf s =
      bind-Keeps (Same s) m f s (hm s) (λ a t h. Same-trans s t (f a t).1 h (hf a t))

  pub emit_chunks-Same : (chunks : List Text) (s : Session W P) → Same s (emit_chunks chunks s).1
  unfolding emit_chunks
  emit_chunks-Same [] s = (refl, refl)
  emit_chunks-Same (text ∷ chunks) s = emit_chunks-Same chunks (emit (chunk text) s).1

  pub emit_error-Same : (broke : Option Exn) (s : Session W P) → Same s (emit_error broke s).1
  emit_error-Same none s = (refl, refl)
  emit_error-Same (some e) s = (refl, refl)

  report_artifacts-Same :
      (artifacts : List Artifact) (s : Session W P) → Same s (report_artifacts agent artifacts s).1
  unfolding report_artifacts
  report_artifacts-Same [] s = (refl, refl)
  report_artifacts-Same (af ∷ artifacts) s =
      bind-Same (in_world (call_back agent.on_artifact af))
        (λ id. emit (artifact id af) >> report_artifacts agent artifacts) (λ t. (refl, refl))
        (λ id t. report_artifacts-Same artifacts (emit (artifact id af) t).1) s

  -- The calls of a round send no prompt, and where they return, the working messages have been
  -- followed by the answers, in the order of the calls.
  pub record Answered (tool_calls : List ToolCall) (s : Session W P)
      (result : Outcome Unit × Session W P) : Type 0 where
    pub asked : result.1.asked ≡ s.asked
    pub answers :
        result.0 ≡ ok tt
        → (answers : List Message) × (result.1.working_messages ≡ s.working_messages ++ answers)
          × (alternates (ids tool_calls) answers ≡ true)

  -- One call: its answer is one message.
  record AnsweredOne (tc : ToolCall) (s : Session W P) (result : Outcome Unit × Session W P)
      : Type 0 where
    asked : result.1.asked ≡ s.asked
    answer :
        result.0 ≡ ok tt
        → (m : Message) × (result.1.working_messages ≡ s.working_messages ++ m ∷ [])
          × ((is_tool m.role && str_eq m.tool_call_id tc.call_id) ≡ true)

  after_call-AnsweredOne :
      (tc : ToolCall) (result : ToolResult) (s : Session W P)
      → AnsweredOne tc s (after_call agent tc result s)
  unfolding after_call new_artifacts
  after_call-AnsweredOne tc result s =
      let found = detect_artifacts (agent.listing s.world) s.existing in
      let v = record s {
        working_messages = s.working_messages ++ result_message agent tc result ∷ [];
        existing = found.1;
        events = s.events ++ tool_result tc.call_id tc.tool_name result ∷ [];
      } in
      let same : Same v (report_artifacts agent found.0 v).1 = report_artifacts-Same found.0 v in
      record {
        asked = same.0;
        answer = λ h. (result_message agent tc result, same.1, rw (eq_refl tc.call_id) refl);
      }

  run_call-AnsweredOne : (tc : ToolCall) (s : Session W P) → AnsweredOne tc s (run_call agent tc s)
  unfolding run_call
  run_call-AnsweredOne tc s =
      let params = or_default (agent.loads tc.arguments) agent.no_params in
      let execute = in_world (agent.execute_tool tc.tool_name params) in
      let t = (emit (tool_call tc.call_id tc.tool_name params) s).1 in
      let u = (execute t).1 in
      elim (Outcome-cases (agent.execute_tool tc.tool_name params s.world).0) [
        | inl (result, ran) ↦
            let one = after_call-AnsweredOne tc result u in
            subst (AnsweredOne tc s)
              (sym
                (bind-of-ok execute (after_call agent tc) {s = t} {s' = u} (ap (λ o. (o, u)) ran)))
              (record { asked = one.asked; answer = one.answer })
        | inr (e, failed) ↦
            subst (AnsweredOne tc s)
              (sym (
                bind-of-raised execute (after_call agent tc) {s = t} {s' = u}
                  (ap (λ o. (o, u)) failed)))
              (record { asked = refl; answer = λ h. cc })
      ]

  pub run_calls-Answered :
      (tool_calls : List ToolCall) (s : Session W P)
      → Answered tool_calls s (run_calls agent tool_calls s)
  unfolding run_calls alternates
  run_calls-Answered [] s = record {
    asked = refl;
    answers = λ h. ([], sym (append-nil s.working_messages), refl);
  }
  run_calls-Answered (tc ∷ tool_calls) s =
      let call = run_call agent tc in
      let t = (call s).1 in
      let one = run_call-AnsweredOne tc s in
      let more = run_calls-Answered tool_calls t in
      elim (Outcome-cases (call s).0) [
        | inl (_, ran) ↦
            subst (Answered (tc ∷ tool_calls) s)
              (sym (
                bind-of-ok call (λ _. run_calls agent tool_calls) {s = s} {s' = t}
                  (ap (λ o. (o, t)) ran)))
              (record {
                asked = more.asked ∙ one.asked;
                answers = λ h.
                    let (m, said, fits) = one.answer ran in
                    let (answers, rest, order) = more.answers h in
                    (
                      m ∷ answers,
                      rest
                          ∙ ap (λ l. l ++ answers) said
                          ∙ append_assoc s.working_messages (m ∷ []) answers,
                      ground (arith, fits, order),
                    );
              })
        | inr (e, failed) ↦
            subst (Answered (tc ∷ tool_calls) s)
              (sym (
                bind-of-raised call (λ _. run_calls agent tool_calls) {s = s} {s' = t}
                  (ap (λ o. (o, t)) failed)))
              (record { asked = one.asked; answers = λ h. cc })
      ]
