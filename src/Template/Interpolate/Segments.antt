-- ===== src/Template/Interpolate/Segments.antt =====
-- A template is a sequence of literal texts and placeholders, which no data has a part in;
-- interpolateTemplate fills in the placeholders of that sequence.
use text.Mathlib.TextLemmas.{append-nil, append_assoc}
use kubezap_operator.Base.{
  ℕ, zero, suc, String, ◌≡◌, refl, sym, ap, ◌∙◌, Option, none, some, List, [], ◌∷◌,
}
use kubezap_operator.Base.Text.{◌⧺◌, size, cut}
use kubezap_operator.Base.Text.Parts.{append-cut}
use kubezap_operator.Api.FlowRun.{TriggerData}
use kubezap_operator.Run.Runtime.{StepResults, Params}
use kubezap_operator.Template.Library.{Library}
use kubezap_operator.Template.Token.{Resolver, Resolved}
use kubezap_operator.Template.Interpolate.{
  Interpolated, texts, prepend, emit, closed, opened, interpolate_loop, interpolate_template,
}
use kubezap_operator.Template.Interpolate.Laws.{resolve_token, filled}

pub data Segment : Type 0 where
  literal placeholder : String → Segment

abbrev split_closed :
    String → String → (String → List Segment) → Option (String × String) → List Segment
split_closed before inner again none = literal (before ⧺ "$(" ⧺ inner) ∷ []
split_closed before inner again (some (token, rest)) =
    literal before ∷ placeholder token ∷ again rest

abbrev split_opened : String → (String → List Segment) → Option (String × String) → List Segment
split_opened s again none = literal s ∷ []
split_opened s again (some (before, inner)) = split_closed before inner again (cut ")" inner)

unfoldable pub segments_loop : ℕ → String → List Segment
segments_loop zero s = literal s ∷ []
segments_loop (suc fuel) s = split_opened s (segments_loop fuel) (cut "$(" s)

unfoldable pub segments : String → List Segment
unfolding segments_loop
segments s = segments_loop (size s) s

-- The template that the segments were written as.
unfoldable pub source_text : List Segment → String
source_text [] = ""
source_text (literal s ∷ rest) = s ⧺ source_text rest
source_text (placeholder token ∷ rest) = ("$(" ⧺ token ⧺ ")") ⧺ source_text rest

-- Each segment in order: a literal as it is, a placeholder as it resolves.
unfoldable pub render : (String → Resolved) → List Segment → Interpolated
render resolve [] = texts "" ""
render resolve (literal s ∷ rest) = prepend s s (render resolve rest)
render resolve (placeholder token ∷ rest) = emit token (resolve token) (render resolve rest)

last_literal :
    (resolve : String → Resolved) (s : String) → texts s s ≡ render resolve (literal s ∷ [])
unfolding render prepend
last_literal resolve s = ap (λ t. texts t t) (sym (append-nil s))

closed-render :
    (resolve : String → Resolved) (before inner : String) (f : String → Interpolated)
    (g : String → List Segment) (o : Option (String × String))
    → ((rest : String) → f rest ≡ render resolve (g rest))
    → closed before inner resolve f o ≡ render resolve (split_closed before inner g o)
unfolding closed render
closed-render resolve before inner f g none h = last_literal resolve (before ⧺ "$(" ⧺ inner)
closed-render resolve before inner f g (some (token, rest)) h =
    ap (λ r. prepend before before (emit token (resolve token) r)) (h rest)

opened-render :
    (resolve : String → Resolved) (s : String) (f : String → Interpolated)
    (g : String → List Segment) (o : Option (String × String))
    → ((rest : String) → f rest ≡ render resolve (g rest))
    → opened s resolve f o ≡ render resolve (split_opened s g o)
unfolding opened
opened-render resolve s f g none h = last_literal resolve s
opened-render resolve s f g (some (before, inner)) h =
    closed-render resolve before inner f g (cut ")" inner) h

loop-render :
    (resolve : String → Resolved) (n : ℕ) (s : String)
    → interpolate_loop resolve n s ≡ render resolve (segments_loop n s)
unfolding interpolate_loop segments_loop
loop-render resolve zero s = last_literal resolve s
loop-render resolve (suc n) s =
    opened-render resolve s _ _ (cut "$(" s) (λ rest. loop-render resolve n rest)

source_text-closed :
    (before inner : String) (g : String → List Segment) (o : Option (String × String))
    → cut ")" inner ≡ o
    → ((rest : String) → source_text (g rest) ≡ rest)
    → source_text (split_closed before inner g o) ≡ before ⧺ ("$(" ⧺ inner)
unfolding source_text
source_text-closed before inner g none e h = append-nil (before ⧺ "$(" ⧺ inner)
source_text-closed before inner g (some (token, rest)) e h =
    simp (h rest, sym (append-cut ")" inner e), append_assoc)

source_text-opened :
    (s : String) (g : String → List Segment) (o : Option (String × String))
    → cut "$(" s ≡ o
    → ((rest : String) → source_text (g rest) ≡ rest)
    → source_text (split_opened s g o) ≡ s
unfolding source_text
source_text-opened s g none e h = append-nil s
source_text-opened s g (some (before, inner)) e h =
    source_text-closed before inner g (cut ")" inner) refl h ∙ append-cut "$(" s e

source_text-segments_loop : (n : ℕ) (s : String) → source_text (segments_loop n s) ≡ s
unfolding segments_loop source_text
source_text-segments_loop zero s = append-nil s
source_text-segments_loop (suc n) s =
    source_text-opened s _ (cut "$(" s) refl (λ rest. source_text-segments_loop n rest)

-- Filling in a template is rendering its segments in order, and the segments are the template's own
-- text, whatever the data that fill it in.
pub interpolate-segments :
    (lib : Library) (results : StepResults) (event : Option TriggerData) (params : Params)
    (fetch : Resolver) (s : String)
    → (filled lib results event params fetch s
        ≡ render (resolve_token lib results event params fetch) (segments s))
      × (source_text (segments s) ≡ s)
unfolding interpolate_template segments
interpolate-segments lib results event params fetch s =
    (loop-render _ (size s) s, source_text-segments_loop (size s) s)
