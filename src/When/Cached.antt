-- ===== src/When/Cached.antt =====
-- The cache of compiled expressions changes no answer of evaluateWhen.
use kubezap_operator.Base.{
  String, Bool, true, false, not, ◌≡◌, refl, Option, none, some, List, [], ◌∷◌, if◌then◌else◌,
  is_empty, Option-cases, inl, inr, String-cases,
}
use kubezap_operator.Base.Assoc.{Assoc, lookup, insert, lookup-insert}
use kubezap_operator.Api.FlowRun.{TriggerData, StepRunStatus, cel_env_missing}
use kubezap_operator.Run.Runtime.{StepResults, Params, WhenResult, holds, when_fails}
use kubezap_operator.Template.Library.{Library}
use kubezap_operator.When.{
  Activation, Compiled, compile_error, program_error, program, Evaluated, activation, stored, load,
  store, verdict, decided, evaluate_all, evaluate_when,
}

module _ {ℓ} {Program : Type ℓ} (compile : String → Compiled Program) where
  -- Each program in the cache is what its expression compiles to.
  abbrev pub Compiles : Assoc Program → Type ℓ
  Compiles cache =
      (expr : String) (p : Program) → lookup expr cache ≡ some p → compile expr ≡ program p

  module _ (eval : Program → Activation → Evaluated) where
    load-compile :
        (off : Bool) (expr : String) (cache : Assoc Program)
        → Compiles cache
        → load compile eval off expr cache ≡ compile expr
    unfolding load
    load-compile true expr cache h = refl
    load-compile false expr cache h = elim (Option-cases (lookup expr cache)) [
      | inl e ↦ rw (e, load)
      | inr (p, e) ↦ rw (e, load, h expr p e)
    ]

    insert-Compiles :
        (expr : String) (p : Program) (cache : Assoc Program)
        → compile expr ≡ program p
        → Compiles cache
        → Compiles (insert expr p cache)
    insert-Compiles expr p cache c h other q e = elim (String-cases expr other) [
      | inl (same, t) ↦ cc (c, same, rw (lookup-insert other expr p cache, t) at e)
      | inr (_, t) ↦ h other q (rw (lookup-insert other expr p cache, t) at e)
    ]

    stored-Compiles :
        (off : Bool) (expr : String) (r : Compiled Program) (cache : Assoc Program)
        → compile expr ≡ r
        → Compiles cache
        → Compiles (stored compile eval off expr r cache)
    stored-Compiles true expr (program p) cache c h = h
    stored-Compiles false expr (program p) cache c h = insert-Compiles expr p cache c h
    stored-Compiles off expr (compile_error e) cache c h = h
    stored-Compiles off expr (program_error e) cache c h = h

    store-Compiles :
        (off : Bool) (expr : String) (cache : Assoc Program)
        → Compiles cache
        → Compiles (store compile eval off expr cache)
    unfolding store
    store-Compiles true expr cache h = stored-Compiles true expr (compile expr) cache refl h
    store-Compiles false expr cache h = go (lookup expr cache)
      where
        go :
            (o : Option Program)
            → Compiles (elim o [
              | some p ↦ cache
              | none ↦ stored compile eval false expr (compile expr) cache
            ])
        go none = stored-Compiles false expr (compile expr) cache refl h
        go (some p) = h

    -- All expressions hold, in order, each compiled anew; the first that does not decides.
    abbrev pub settled : Option WhenResult → WhenResult → WhenResult
    settled (some r) later = r
    settled none later = later

    unfoldable pub compiled_anew : Activation → List String → WhenResult
    compiled_anew act [] = holds true
    compiled_anew act (expr ∷ rest) =
        settled (verdict eval act (compile expr)) (compiled_anew act rest)

    -- The result is that one, and the cache is as good as it was.
    abbrev pub Agrees : WhenResult → WhenResult × Assoc Program → Type ℓ
    Agrees expected r = (r.0 ≡ expected) × Compiles r.1

    decided-Agrees :
        (o : Option WhenResult) (cache : Assoc Program) (later : WhenResult × Assoc Program)
        (expected : WhenResult)
        → Compiles cache
        → Agrees expected later
        → Agrees (settled o expected) (decided o cache later)
    decided-Agrees none cache later expected h k = k
    decided-Agrees (some r) cache later expected h k = (refl, h)

    all-Agrees :
        (off : Bool) (act : Activation) (exprs : List String) (cache : Assoc Program)
        → Compiles cache
        → Agrees (compiled_anew act exprs) (evaluate_all compile eval off act exprs cache)
    unfolding evaluate_all compiled_anew
    all-Agrees off act [] cache h = (refl, h)
    all-Agrees off act (expr ∷ rest) cache h = rw (load-compile off expr cache h) (
        decided-Agrees (verdict eval act (compile expr)) (store compile eval off expr cache) _ _
          (store-Compiles off expr cache h)
          (all-Agrees off act rest (store compile eval off expr cache)
            (store-Compiles off expr cache h)))

    -- With or without the cache, evaluateWhen answers as if each expression were compiled anew, as
    -- long as each cached program is its expression's; and it leaves the cache so.
    pub evaluate_when_cached :
        (off : Bool) (lib : Library) (env_ready : Bool) (exprs : List String)
        (results : StepResults) (statuses : List StepRunStatus) (event : Option TriggerData)
        (params : Params) (cache : Assoc Program)
        → Compiles cache
        → Agrees
            (if is_empty exprs
              then holds true
              else if not env_ready
              then when_fails cel_env_missing
              else compiled_anew (activation lib results statuses event params) exprs)
            (evaluate_when compile eval off lib env_ready exprs results statuses event params cache)
    unfolding evaluate_when
    evaluate_when_cached off lib true [] results statuses event params cache h = (refl, h)
    evaluate_when_cached off lib false [] results statuses event params cache h = (refl, h)
    evaluate_when_cached off lib false (expr ∷ rest) results statuses event params cache h =
        (refl, h)
    evaluate_when_cached off lib true (expr ∷ rest) results statuses event params cache h =
        all-Agrees off (activation lib results statuses event params) (expr ∷ rest) cache h
