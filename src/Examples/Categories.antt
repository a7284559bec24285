-- ===== src/Examples/Categories.antt =====
-- A fact that two categories match.
use weatherflow.Prelude.{true, none, some, [], ◌∷◌, List, ◌≡◌, refl, String, ◌==◌}
use weatherflow.Activity.Categories.{TextLibrary, CategoryRule, Fact, match, matches, value_of}
use weatherflow.Activity.Deepest.{IsChosen, match-IsChosen}

-- Expressions that stand for themselves.
abbrev library : TextLibrary
library = record {
  casefold = λ s. s;
  compiles = λ ignore_case pattern. true;
  found = λ ignore_case pattern value. pattern == value;
}

abbrev fact : Fact
fact = record { application = some "Editor"; title = some "Report"; url = none; domain = none }

abbrev rule : String → List String → CategoryRule
rule pattern name = record {
  name = name;
  rule = record { type = "regex"; regex = some pattern; select_keys = none; ignore_case = true };
}

abbrev rules : List CategoryRule
rules = rule "Editor" ("Work" ∷ "Code" ∷ []) ∷ rule "Report" ("Work" ∷ "Text" ∷ []) ∷ []

last_wins : match library rules fact ≡ "Work / Text"
unfolding match matches value_of
last_wins = refl

match-IsChosen_example : IsChosen library fact rules (match library rules fact)
match-IsChosen_example = match-IsChosen library fact rules
