-- ===== src/AgentLoop/Calls.antt =====
-- How the tool calls of one round of anima/kernel/agent_loop.py end, and the events of the round.
use anima.Python.{
  ok, raised, Outcome, Action, Outcome-cases, ◌>>◌, Exn, bind-of-ok, bind-of-raised, try_except-ok,
  pure, try_except-raised,
}
use anima.Prelude.{
  [], ◌∷◌, refl, none, some, inl, inr, String, Option, List, ◌≡◌, or_default, ◌⊎◌, ◌++◌, sym, ap,
  ◌∙◌, eq_refl,
}
use mathlib.Core.Path.{subst}
use mathlib.Core.List.{append_assoc}
use anima.AgentLoop.{
  tool_call, tool_result, Session, Agent, report_artifacts, after_call, run_call, run_calls,
  Artifact, ToolCall, ToolResult, call_back, new_artifacts, result_message, detect_artifacts,
  String, Outcome, Action, Option, List, or_default, Exn, in_world, pure, emit, artifact,
}
use anima.AgentLoop.Spoken.{Spoken, paired, Spoken-trans, Spoken-refl, report_artifacts-Speaks}

module _ {W P : Type 0} (agent : Agent W P) where
  -- A part of a run that returned, or that a tool broke off between a call and its result.
  pub record Broken (s t : Session W P) : Type 0 where
    pub before : Session W P
    pub spoken : Spoken s before
    pub call_id : String
    pub name : String
    pub params : P
    pub events : t.events ≡ before.events ++ tool_call call_id name params ∷ []

  abbrev pub Ended : Session W P → Outcome Unit × Session W P → Type 0
  Ended s result =
      ((result.0 ≡ ok tt) × Spoken s result.1)
      ⊎ ((e : Exn) × (result.0 ≡ raised e) × Broken s result.1)

  pub Ended-after :
      (s t : Session W P) (result : Outcome Unit × Session W P)
      → Spoken s t
      → Ended t result
      → Ended s result
  Ended-after s t result h (inl (returned, spoken)) =
      inl (returned, Spoken-trans s t result.1 h spoken)
  Ended-after s t result h (inr (e, failed, b)) = inr (
    e,
    failed,
    record {
      before = b.before;
      spoken = Spoken-trans s t b.before h b.spoken;
      call_id = b.call_id;
      name = b.name;
      params = b.params;
      events = b.events;
    },
  )

  pub bind-Ended :
      (m k : Action (Session W P) Unit) (s : Session W P)
      → Ended s (m s)
      → ((t : Session W P) → Ended t (k t))
      → Ended s ((m >> k) s)
  bind-Ended m k s (inl (returned, spoken)) hk =
      subst (Ended s)
        (sym (bind-of-ok m (λ _. k) {s = s} {s' = (m s).1} (ap (λ o. (o, (m s).1)) returned)))
        (Ended-after s (m s).1 (k (m s).1) spoken (hk (m s).1))
  bind-Ended m k s (inr (e, failed, b)) hk =
      subst (Ended s)
        (sym (bind-of-raised m (λ _. k) {s = s} {s' = (m s).1} (ap (λ o. (o, (m s).1)) failed)))
        (inr (e, refl, b))

  call_back-ok :
      (on_artifact : Option (Artifact → Action W String)) (af : Artifact) (w : W)
      → (id : String) × ((call_back on_artifact af w).0 ≡ ok id)
  call_back-ok none af w = ("", refl)
  call_back-ok (some f) af w = elim (Outcome-cases (f af w).0) [
    | inl (id, fine) ↦ (
      id,
      ap (λ r. r.0)
          (try_except-ok (f af) (λ e. pure "") {s = w} {s' = (f af w).1}
            (ap (λ o. (o, (f af w).1)) fine)),
    )
    | inr (e, failed) ↦ (
      "",
      ap (λ r. r.0)
          (try_except-raised (f af) (λ e. pure "") {s = w} {s' = (f af w).1}
            (ap (λ o. (o, (f af w).1)) failed)),
    )
  ]

  report_artifacts-ok :
      (artifacts : List Artifact) (s : Session W P) → (report_artifacts agent artifacts s).0 ≡ ok tt
  unfolding report_artifacts
  report_artifacts-ok [] s = refl
  report_artifacts-ok (af ∷ artifacts) s =
      let (id, fine) : (id : String) × ((call_back agent.on_artifact af s.world).0 ≡ ok id) =
        call_back-ok agent.on_artifact af s.world in
      let ask = in_world (call_back agent.on_artifact af) in
      let rest : String → Action (Session W P) Unit =
        λ i. emit (artifact i af) >> report_artifacts agent artifacts in
      ap (λ r. r.0) (bind-of-ok ask rest {s = s} {s' = (ask s).1} (ap (λ o. (o, (ask s).1)) fine))
      ∙ report_artifacts-ok artifacts _

  after_call-Ended :
      (tc : ToolCall) (result : ToolResult) (s t : Session W P) (params : P)
      → t.events ≡ s.events ++ tool_call tc.call_id tc.tool_name params ∷ []
      → Ended s (after_call agent tc result t)
  unfolding after_call new_artifacts paired
  after_call-Ended tc result s t params said =
      let found = detect_artifacts (agent.listing t.world) t.existing in
      let u = record t {
        working_messages = t.working_messages ++ result_message agent tc result ∷ [];
        existing = found.1;
        events = t.events ++ tool_result tc.call_id tc.tool_name result ∷ [];
      } in
      let spoken : Spoken s u = record {
        new =
            tool_call tc.call_id tc.tool_name params
            ∷ tool_result tc.call_id tc.tool_name result
            ∷ [];
        events =
            ap (λ l. l ++ tool_result tc.call_id tc.tool_name result ∷ []) said
            ∙ append_assoc s.events _ _;
        pairs = rw (eq_refl tc.call_id, eq_refl tc.tool_name) refl;
      } in
      inl (
        report_artifacts-ok found.0 u,
        Spoken-trans s u _ spoken (report_artifacts-Speaks agent found.0 u),
      )

  pub run_call-Ended : (tc : ToolCall) (s : Session W P) → Ended s (run_call agent tc s)
  unfolding run_call
  run_call-Ended tc s =
      let params = or_default (agent.loads tc.arguments) agent.no_params in
      let t = record s { events = s.events ++ tool_call tc.call_id tc.tool_name params ∷ [] } in
      let execute = in_world (agent.execute_tool tc.tool_name params) in
      let u = (execute t).1 in
      elim (Outcome-cases (agent.execute_tool tc.tool_name params s.world).0) [
        | inl (result, ran) ↦
            subst (Ended s)
              (sym
                (bind-of-ok execute (after_call agent tc) {s = t} {s' = u} (ap (λ o. (o, u)) ran)))
              (after_call-Ended tc result s u params refl)
        | inr (e, failed) ↦
            subst (Ended s)
              (sym (
                bind-of-raised execute (after_call agent tc) {s = t} {s' = u}
                  (ap (λ o. (o, u)) failed)))
              (inr (
                e,
                refl,
                record {
                  before = s;
                  spoken = Spoken-refl s s refl;
                  call_id = tc.call_id;
                  name = tc.tool_name;
                  params = params;
                  events = refl;
                },
              ))
      ]

  pub run_calls-Ended :
      (tool_calls : List ToolCall) (s : Session W P) → Ended s (run_calls agent tool_calls s)
  unfolding run_calls
  run_calls-Ended [] s = inl (refl, Spoken-refl s s refl)
  run_calls-Ended (tc ∷ tool_calls) s =
      bind-Ended (run_call agent tc) (run_calls agent tool_calls) s (run_call-Ended tc s)
        (run_calls-Ended tool_calls)
