-- ===== src/Plugins/Dependencies.antt =====
-- pluginManager.ts: the packages that a plugin must not depend on.
pub mod Allowed
use matterbridge.Base.{
  ℕ, Bool, true, false, ◌||◌, not, Option, none, some, List, [], ◌∷◌, map, if◌then◌else◌,
  starts_with, is_some, starts_with, starts_with,
}

-- The dependencies of a package.json, by name or as an array.
pub data PackageJsonDependencies : Type 0 where
  by_name : List (List ℕ × List ℕ) → PackageJsonDependencies
  array : List (List ℕ) → PackageJsonDependencies

pub record PackageJsonLike : Type 0 where
  pub dependencies : Option PackageJsonDependencies
  pub dev_dependencies : Option PackageJsonDependencies
  pub peer_dependencies : Option PackageJsonDependencies
  pub optional_dependencies : Option PackageJsonDependencies
  pub bundled_dependencies : Option PackageJsonDependencies
  pub bundle_dependencies : Option PackageJsonDependencies

pub data DependencyType : Type 0 where
  normal dev peer optional bundled bundle : DependencyType

pub record InvalidDependencies : Type 0 where
  pub dependency_type : DependencyType
  pub packages : List (List ℕ)
  pub is_matterbridge_package : Bool

abbrev pub dependency_types : List DependencyType
dependency_types = normal ∷ dev ∷ peer ∷ optional ∷ bundled ∷ bundle ∷ []

-- `packageJson[dependencyType]`.
unfoldable pub dependencies_of : PackageJsonLike → DependencyType → Option PackageJsonDependencies
dependencies_of p normal = p.dependencies
dependencies_of p dev = p.dev_dependencies
dependencies_of p peer = p.peer_dependencies
dependencies_of p optional = p.optional_dependencies
dependencies_of p bundled = p.bundled_dependencies
dependencies_of p bundle = p.bundle_dependencies

unfoldable pub get_dependency_names : Option PackageJsonDependencies → List (List ℕ)
get_dependency_names none = []
get_dependency_names (some (array names)) = names
get_dependency_names (some (by_name versions)) = map (λ v. v.0) versions

-- "matterbridge", "@project-chip", "@matterbridge" and "@matter".
abbrev pub matterbridge_prefix : List ℕ
matterbridge_prefix =
    b'm' ∷ b'a' ∷ b't' ∷ b't' ∷ b'e' ∷ b'r' ∷ b'b' ∷ b'r' ∷ b'i' ∷ b'd' ∷ b'g' ∷ b'e' ∷ []

abbrev pub project_chip_scope : List ℕ
project_chip_scope =
    b'@' ∷ b'p' ∷ b'r' ∷ b'o' ∷ b'j' ∷ b'e' ∷ b'c' ∷ b't' ∷ b'-' ∷ b'c' ∷ b'h' ∷ b'i' ∷ b'p' ∷ []

abbrev pub matterbridge_scope : List ℕ
matterbridge_scope = b'@' ∷ matterbridge_prefix

abbrev pub matter_scope : List ℕ
matter_scope = b'@' ∷ b'm' ∷ b'a' ∷ b't' ∷ b't' ∷ b'e' ∷ b'r' ∷ []

unfoldable pub is_matterbridge : List ℕ → Bool
unfolding starts_with
is_matterbridge name = starts_with matterbridge_prefix name

unfoldable pub is_scoped : List ℕ → Bool
unfolding starts_with
is_scoped name =
    starts_with project_chip_scope name
    || starts_with matterbridge_scope name
    || starts_with matter_scope name

-- `packages.filter(test)`.
unfoldable pub filter_names : (List ℕ → Bool) → List (List ℕ) → List (List ℕ)
filter_names test [] = []
filter_names test (name ∷ names) =
    let rest = filter_names test names in if test name then name ∷ rest else rest

-- The tests of one round, on what the two filters leave, with the rounds that follow.
unfoldable pub first_invalid :
    DependencyType
    → List (List ℕ)
    → List (List ℕ)
    → Option InvalidDependencies
    → Option InvalidDependencies
first_invalid type (name ∷ names) scoped later =
    some
      (record { dependency_type = type; packages = name ∷ names; is_matterbridge_package = true })
first_invalid type [] (name ∷ names) later =
    some
      (record { dependency_type = type; packages = name ∷ names; is_matterbridge_package = false })
first_invalid type [] [] later = later

unfoldable pub find_invalid_in : PackageJsonLike → List DependencyType → Option InvalidDependencies
unfolding dependencies_of get_dependency_names is_matterbridge is_scoped filter_names first_invalid
find_invalid_in p [] = none
find_invalid_in p (type ∷ types) =
    let packages = get_dependency_names (dependencies_of p type) in
    first_invalid type (filter_names is_matterbridge packages) (filter_names is_scoped packages)
      (find_invalid_in p types)

unfoldable pub find_invalid_dependencies : PackageJsonLike → Option InvalidDependencies
unfolding find_invalid_in
find_invalid_dependencies p = find_invalid_in p dependency_types

unfoldable pub check_dependencies : PackageJsonLike → Bool
unfolding find_invalid_dependencies
check_dependencies p = not (is_some (find_invalid_dependencies p))
