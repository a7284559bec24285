-- ===== src/Activity/Deepest.antt =====
-- The category of a fact is the deepest that matches, and of those the last.
use weatherflow.Prelude.{
  ℕ, suc, String, ◌≡◌, refl, ap, true, false, ◌&&◌, ◌≤◌, ◌<◌, ◌⊎◌, inl, inr, List, [], ◌∷◌, ◌++◌,
  arith, leb, length, Bool-cases, All,
}
use weatherflow.Activity.Categories.{
  TextLibrary, CategoryRule, Fact, matches, select, join, match, uncategorized,
}

module _ (lib : TextLibrary) (fact : Fact) where
  -- Every rule that matches is less deep than a bound.
  abbrev pub IsShallower : ℕ → List CategoryRule → Type 0
  IsShallower n rules =
      All (λ (r : CategoryRule). matches lib r.rule fact ≡ false ⊎ length r.name < n) rules

  -- The names are those of a matching rule, with only deeper ones after those of no greater depth.
  pub record IsLastDeepest (rules : List CategoryRule) (names : List String) : Type 0 where
    pub before : List CategoryRule
    pub item : CategoryRule
    pub after : List CategoryRule
    pub split : rules ≡ before ++ item ∷ after
    pub matching : matches lib item.rule fact ≡ true
    pub named : names ≡ item.name
    pub none_deeper : IsShallower (suc (length names)) before
    pub none_later : IsShallower (length names) after

  -- The loop keeps its names where no rule that matches is as deep.
  abbrev IsSelected : List String → List CategoryRule → List String → Type 0
  IsSelected acc rules names =
      ((names ≡ acc) × IsShallower (length acc) rules)
      ⊎ (IsLastDeepest rules names × (length acc ≤ length names))

  taken :
      (item : CategoryRule) (rules : List CategoryRule) (acc names : List String)
      → matches lib item.rule fact ≡ true
      → length acc ≤ length item.name
      → IsSelected item.name rules names
      → IsSelected acc (item ∷ rules) names
  taken item rules acc names matching deeper (inl (same, shallower)) = inr (
    record {
      before = [];
      item = item;
      after = rules;
      split = refl;
      matching = matching;
      named = same;
      none_deeper = tt;
      none_later = rw same shallower;
    },
    rw same deeper,
  )
  taken item rules acc names matching deeper (inr (last, longer)) = inr (
    record {
      before = item ∷ last.before;
      item = last.item;
      after = last.after;
      split = ap (λ (x : List CategoryRule). item ∷ x) last.split;
      matching = last.matching;
      named = last.named;
      none_deeper = (inr (omega (arith, longer)), last.none_deeper);
      none_later = last.none_later;
    },
    omega (arith, longer, deeper),
  )

  passed :
      (item : CategoryRule) (rules : List CategoryRule) (acc names : List String)
      → (matches lib item.rule fact ≡ false) ⊎ (length item.name < length acc)
      → IsSelected acc rules names
      → IsSelected acc (item ∷ rules) names
  passed item rules acc names shallow (inl (same, shallower)) = inl (same, (shallow, shallower))
  passed item rules acc names shallow (inr (last, longer)) = inr (
    record {
      before = item ∷ last.before;
      item = last.item;
      after = last.after;
      split = ap (λ (x : List CategoryRule). item ∷ x) last.split;
      matching = last.matching;
      named = last.named;
      none_deeper = (
        elim shallow [ inl other ↦ inl other | inr less ↦ inr (omega (arith, less, longer)) ],
        last.none_deeper,
      );
      none_later = last.none_later;
    },
    longer,
  )

  select-IsSelected :
      (acc : List String) (rules : List CategoryRule)
      → IsSelected acc rules (select lib fact acc rules)
  unfolding select
  select-IsSelected acc [] = inl (refl, tt)
  select-IsSelected acc (item ∷ rules) =
      elim (Bool-cases (matches lib item.rule fact && leb (length acc) (length item.name))) [
        | inl take ↦ rw take (
            taken item rules acc _ (ground (arith, take)) (ground (arith, take))
              (select-IsSelected item.name rules))
        | inr pass ↦
            rw pass (passed item rules acc _ (ground (arith, pass)) (select-IsSelected acc rules))
      ]

  -- The text is that of no category, where no rule with a name matches, or of the last deepest.
  pub record IsChosen (rules : List CategoryRule) (text : String) : Type 0 where
    pub names : List String
    pub joined : text ≡ join names
    pub choice : ((names ≡ uncategorized) × IsShallower 1 rules) ⊎ IsLastDeepest rules names

  -- What `match` returns is either "Uncategorized", and then no rule that has a name matches, or
  -- the category of a rule that matches such that no rule before it that matches is deeper, and
  -- every rule after it that matches is less deep.
  pub match-IsChosen : (rules : List CategoryRule) → IsChosen rules (match lib rules fact)
  unfolding match
  match-IsChosen rules = record {
    names = select lib fact uncategorized rules;
    joined = refl;
    choice = elim (select-IsSelected uncategorized rules) [
      | inl default ↦ inl default
      | inr (last, longer) ↦ inr last
    ];
  }
