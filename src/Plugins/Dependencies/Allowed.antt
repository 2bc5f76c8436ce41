-- ===== src/Plugins/Dependencies/Allowed.antt =====
-- pluginManager.ts: which dependencies a plugin may have.
use matterbridge.Base.{
  ℕ, ◌≡◌, refl, ◌↔◌, inl, inr, Bool, true, false, Option, none, List, [], ◌∷◌, ◌++◌, arith,
  Option-cases, All, starts_with, starts_with, starts_with,
}
use matterbridge.Plugins.Dependencies.{
  PackageJsonLike, InvalidDependencies, DependencyType, dependency_types, dependencies_of,
  get_dependency_names, matterbridge_prefix, project_chip_scope, matter_scope, is_matterbridge,
  is_scoped, filter_names, first_invalid, find_invalid_in, find_invalid_dependencies,
  check_dependencies,
}

-- A name that none of the prefixes begins; "@matter" begins "@matterbridge" as well.
abbrev pub IsAllowed : List ℕ → Type 0
IsAllowed name =
    (starts_with matterbridge_prefix name ≡ false)
    × (starts_with project_chip_scope name ≡ false)
    × (starts_with matter_scope name ≡ false)

starts_with-longer : (p q s : List ℕ) → starts_with (p ++ q) s ≡ true → starts_with p s ≡ true
unfolding starts_with
starts_with-longer [] q s h = refl
starts_with-longer (c ∷ p) q [] h = h
starts_with-longer (c ∷ p) q (d ∷ s) h = ground (arith, starts_with-longer p q s)

IsAllowed-iff :
    (name : List ℕ) → ((is_matterbridge name ≡ false) × (is_scoped name ≡ false)) ↔ IsAllowed name
unfolding is_matterbridge is_scoped
IsAllowed-iff name =
    ground
      (arith, starts_with-longer matter_scope (b'b' ∷ b'r' ∷ b'i' ∷ b'd' ∷ b'g' ∷ b'e' ∷ []) name)

filter_names-nil :
    (test : List ℕ → Bool) (names : List (List ℕ))
    → (filter_names test names ≡ []) ↔ All (λ name. test name ≡ false) names
unfolding filter_names
filter_names-nil test [] = (λ h. tt, λ h. refl)
filter_names-nil test (name ∷ names) = ground (arith, filter_names-nil test names)

abbrev AreAllowed : PackageJsonLike → DependencyType → Type 0
AreAllowed p type = All IsAllowed (get_dependency_names (dependencies_of p type))

filters-nil :
    (names : List (List ℕ))
    → ((filter_names is_matterbridge names ≡ []) × (filter_names is_scoped names ≡ []))
      ↔ All IsAllowed names
unfolding filter_names
filters-nil [] = (λ h. tt, λ h. (refl, refl))
filters-nil (name ∷ names) = ground (arith, filters-nil names, IsAllowed-iff name)

first_invalid-none :
    (type : DependencyType) (unscoped scoped : List (List ℕ)) (later : Option InvalidDependencies)
    → (first_invalid type unscoped scoped later ≡ none)
      ↔ ((unscoped ≡ []) × (scoped ≡ []) × (later ≡ none))
unfolding first_invalid
first_invalid-none type [] [] later = (λ h. (refl, refl, h), λ h. h.2)
first_invalid-none type [] (name ∷ names) later = ground arith
first_invalid-none type (name ∷ names) scoped later = ground arith

find_invalid_in-none :
    (p : PackageJsonLike) (types : List DependencyType)
    → (find_invalid_in p types ≡ none) ↔ All (AreAllowed p) types
unfolding find_invalid_in
find_invalid_in-none p [] = (λ h. tt, λ h. refl)
find_invalid_in-none p (type ∷ types) =
    let packages = get_dependency_names (dependencies_of p type) in
    let step =
      first_invalid-none type (filter_names is_matterbridge packages)
        (filter_names is_scoped packages) (find_invalid_in p types) in
    let names = filters-nil packages in
    let rest = find_invalid_in-none p types in
    (
      λ h. let (unscoped, scoped, later) = step.0 h in (names.0 (unscoped, scoped), rest.0 later),
      λ h. let (unscoped, scoped) = names.1 h.0 in step.1 (unscoped, scoped, rest.1 h.1),
    )

-- The dependencies of a package.json pass exactly if, of all six kinds of them, no name begins with
-- "matterbridge", with "@project-chip" or with "@matter".
pub check_dependencies_iff :
    (p : PackageJsonLike) → (check_dependencies p ≡ true) ↔ All (AreAllowed p) dependency_types
unfolding find_invalid_dependencies check_dependencies
check_dependencies_iff p =
    let none_found = find_invalid_in-none p dependency_types in
    elim (Option-cases (find_invalid_in p dependency_types)) [
      | inl e ↦ rw e (λ h. none_found.0 e, λ h. refl)
      | inr (found, e) ↦ rw e (λ h. cc, λ h. let nothing = none_found.1 h in cc)
    ]
