-- ===== src/When/Tests.antt =====
-- evaluateWhen on a cached and a new expression.
use kubezap_operator.Base.{String, ◌≡◌, refl, true, false, not, [], ◌∷◌, ◌==◌, none, arith, eq_iff}
use kubezap_operator.Base.Assoc.{Assoc, lookup}
use kubezap_operator.Run.Runtime.{holds}
use kubezap_operator.Template.Tests.{test_library}
use kubezap_operator.When.{
  Activation, Compiled, compile_error, program, Evaluated, bool, activation, evaluate_when,
}
use kubezap_operator.When.Cached.{Compiles, Agrees, compiled_anew, evaluate_when_cached}

-- The program of an expression is the expression; "false" is the one that does not hold.
abbrev pub compile_text : String → Compiled String
compile_text s = program s

abbrev pub eval_text : String → Activation → Evaluated
eval_text s act = bool (not (s == "false"))

abbrev one_cached : Assoc String
one_cached = ("true", "true") ∷ []

second_expression_fails :
    (evaluate_when compile_text eval_text false test_library true
      ("true" ∷ "false" ∷ [])
      []
      []
      none
      []
      one_cached).0
    ≡ holds false
unfolding evaluate_when kubezap_operator.When.verdict lookup
second_expression_fails = refl

one_cached-Compiles : Compiles compile_text one_cached
unfolding lookup
one_cached-Compiles expr p e = ground (arith, eq_iff "true" expr)

evaluate_when_cached_example :
    Agrees compile_text eval_text
      (compiled_anew compile_text eval_text
        (activation test_library [] [] none [])
        ("true" ∷ "false" ∷ []))
      (evaluate_when compile_text eval_text false test_library true
        ("true" ∷ "false" ∷ [])
        []
        []
        none
        []
        one_cached)
evaluate_when_cached_example =
    evaluate_when_cached compile_text eval_text false test_library true ("true" ∷ "false" ∷ []) []
      [] none [] one_cached one_cached-Compiles
