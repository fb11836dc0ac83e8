-- ===== src/Gateway/Tests.antt =====
-- Two calls within a window of ten, of five.
use kubezap_operator.Base.{ℕ, String, ◌≡◌, refl, List, [], ◌∷◌, none, arith}
use kubezap_operator.Base.Int.{ℤ, pos}
use kubezap_operator.Gateway.Cooldown.{admissions}

abbrev times : List ℤ
times = pos 1 ∷ pos 3 ∷ pos 4 ∷ pos 11 ∷ pos 12 ∷ []

third_and_fifth_are_refused :
    admissions 2 (pos 10) [] "/hooks/orders" times ≡ pos 1 ∷ pos 3 ∷ pos 11 ∷ []
unfolding admissions kubezap_operator.Base.Assoc.lookup kubezap_operator.Base.Assoc.insert
    kubezap_operator.Base.Int.◌-ℤ◌
third_and_fifth_are_refused = refl
