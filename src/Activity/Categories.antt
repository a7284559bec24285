-- ===== src/Activity/Categories.antt =====
-- `CategoryMatcher` of core/src/weatherflow/activity/categories.py. A rule is one that
-- `normalize_category_rules` lets pass; its `regex` is absent where it is not a string. Python's
-- regular expressions and `str.casefold` are parameters.
use weatherflow.Prelude.{
  String, Bool, false, not, ◌&&◌, ◌||◌, Option, none, some, List, [], ◌∷◌, ◌==◌, if◌then◌else◌, leb,
  length,
}
use Prim.Native.String.{◌++◌}

pub record TextLibrary : Type 0 where
  pub casefold : String → String
  -- Does the expression, with or without IGNORECASE, compile, and is it found in the text?
  pub compiles : Bool → String → Bool
  pub found : Bool → String → String → Bool

pub record Rule : Type 0 where
  pub type : String
  pub regex : Option String
  pub select_keys : Option (List String)
  pub ignore_case : Bool

pub record CategoryRule : Type 0 where
  pub name : List String
  pub rule : Rule

-- The fields of `ObservedActivityFact` that rules read.
pub record Fact : Type 0 where
  pub application : Option String
  pub title : Option String
  pub url : Option String
  pub domain : Option String

-- `value or ""`
abbrev or_empty : Option String → String
or_empty none = ""
or_empty (some s) = s

-- `values.get(key, "")`
unfoldable pub value_of : Fact → String → String
value_of fact key =
    if key == "app"
    then or_empty fact.application
    else if key == "title"
    then or_empty fact.title
    else if key == "url"
    then or_empty fact.url
    else if key == "domain"
    then or_empty fact.domain
    else ""

abbrev values_of : Fact → List String → List String
values_of fact [] = []
values_of fact (key ∷ keys) = value_of fact key ∷ values_of fact keys

unfoldable pub candidates : Fact → Option (List String) → List String
candidates fact none = values_of fact ("app" ∷ "title" ∷ "url" ∷ "domain" ∷ [])
candidates fact (some keys) = values_of fact keys

-- `any(expression.search(value) is not None for value in candidates if value)`
unfoldable pub any_found : TextLibrary → Bool → String → List String → Bool
any_found lib ignore_case pattern [] = false
any_found lib ignore_case pattern (value ∷ values) =
    (not (value == "") && lib.found ignore_case pattern value)
    || any_found lib ignore_case pattern values

matches_pattern : TextLibrary → Rule → Fact → Option String → Bool
unfolding any_found candidates
matches_pattern lib rule fact none = false
matches_pattern lib rule fact (some pattern) =
    not (pattern == "")
    && (lib.compiles rule.ignore_case pattern
        && any_found lib rule.ignore_case pattern (candidates fact rule.select_keys))

-- `_matches`
unfoldable pub matches : TextLibrary → Rule → Fact → Bool
unfolding matches_pattern
matches lib rule fact =
    (lib.casefold rule.type == "regex") && matches_pattern lib rule fact rule.regex

-- The loop of `match`.
unfoldable pub select : TextLibrary → Fact → List String → List CategoryRule → List String
select lib fact selected [] = selected
select lib fact selected (item ∷ rules) =
    select lib fact
      (if matches lib item.rule fact && leb (length selected) (length item.name)
        then item.name
        else selected)
      rules

-- `" / ".join(names)`
unfoldable pub join : List String → String
join [] = ""
join (name ∷ []) = name
join (name ∷ next ∷ names) = (name ++ " / ") ++ join (next ∷ names)

abbrev pub uncategorized : List String
uncategorized = "Uncategorized" ∷ []

-- `match`
unfoldable pub match : TextLibrary → List CategoryRule → Fact → String
unfolding select join
match lib rules fact = join (select lib fact uncategorized rules)
