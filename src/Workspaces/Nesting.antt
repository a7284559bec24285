-- ===== src/Workspaces/Nesting.antt =====
-- Which paths `Workspace.allows_action_path` allows.
use mathlib.Core.List.{Memᴰ}
use weatherflow.Prelude.{
  ◌≡◌, ◌↔◌, refl, sym, ap, ◌∙◌, String, true, List, [], ◌∷◌, ◌++◌, arith, eq_iff, eq_refl, inl, inr,
  Bool-cases,
}
use weatherflow.Workspaces.{ResolvedPath, Workspace, is_within, any_within, allows_action_path}

-- The path is the root, or lies below it.
abbrev pub IsBelow : ResolvedPath → ResolvedPath → Type 0
IsBelow root path = (rest : ResolvedPath) × (path ≡ root ++ rest)

is_within-IsBelow : (path root : ResolvedPath) → is_within path root ≡ true → IsBelow root path
unfolding is_within
is_within-IsBelow path [] h = (path, refl)
is_within-IsBelow [] (r ∷ root) h = cc
is_within-IsBelow (c ∷ path) (r ∷ root) h =
    let (rest, e) = is_within-IsBelow path root (ground (arith, h)) in
    let same : c ≡ r = ground (arith, h, eq_iff c r) in
    (rest, ap (λ (x : String). x ∷ path) same ∙ ap (λ (p : ResolvedPath). r ∷ p) e)

is_within-append : (root rest : ResolvedPath) → is_within (root ++ rest) root ≡ true
unfolding is_within
is_within-append [] rest = refl
is_within-append (r ∷ root) rest = ground (arith, eq_refl r, is_within-append root rest)

IsBelow-is_within : (path root : ResolvedPath) → IsBelow root path → is_within path root ≡ true
IsBelow-is_within path root (rest, e) =
    ap (λ (p : ResolvedPath). is_within p root) e ∙ is_within-append root rest

-- One of the roots has the path.
abbrev pub IsBelowOne : List ResolvedPath → ResolvedPath → Type 0
IsBelowOne roots path = (root : ResolvedPath) × Memᴰ root roots × IsBelow root path

any_within-IsBelowOne :
    (path : ResolvedPath) (roots : List ResolvedPath)
    → any_within path roots ≡ true
    → IsBelowOne roots path
unfolding any_within
any_within-IsBelowOne path [] h = cc
any_within-IsBelowOne path (root ∷ roots) h = elim (Bool-cases (is_within path root)) [
  | inl here ↦ (root, Memᴰ.head refl, is_within-IsBelow path root here)
  | inr not_here ↦
      let (other, m, below) = any_within-IsBelowOne path roots (ground (arith, h, not_here)) in
      (other, Memᴰ.tail m, below)
]

IsBelowOne-any_within :
    (path root : ResolvedPath) (roots : List ResolvedPath)
    → Memᴰ root roots
    → is_within path root ≡ true
    → any_within path roots ≡ true
unfolding any_within
IsBelowOne-any_within path root [] m h = elim m [ ]
IsBelowOne-any_within path root (r ∷ roots) (Memᴰ.head e) h =
    let here : is_within path r ≡ true = ap (is_within path) (sym e) ∙ h in ground (arith, here)
IsBelowOne-any_within path root (r ∷ roots) (Memᴰ.tail m) h =
    ground (arith, IsBelowOne-any_within path root roots m h)

-- Actions may use a path exactly when it is one of the workspace's action roots or lies below one,
-- and it neither is the internal root nor lies below it.
pub allows_action_path-IsBelow :
    (workspace : Workspace) (path : ResolvedPath)
    → (allows_action_path workspace path ≡ true)
      ↔ (IsBelowOne workspace.action_roots path × ¬ (IsBelow workspace.internal_root path))
unfolding allows_action_path
allows_action_path-IsBelow workspace path =
    let internal = IsBelow-is_within path workspace.internal_root in
    elim (Bool-cases (is_within path workspace.internal_root)) [
      | inl inside ↦ (
        rw inside (λ h. absurd (ground (arith, h))),
        λ h. absurd (h.1 (is_within-IsBelow path workspace.internal_root inside)),
      )
      | inr outside ↦ rw outside (
        λ h. (
          any_within-IsBelowOne path workspace.action_roots h,
          λ below. let inside = internal below in cc,
        ),
        λ h.
            let ((root, m, below), elsewhere) = h in
            IsBelowOne-any_within path root workspace.action_roots m
              (IsBelow-is_within path root below),
      )
    ]
