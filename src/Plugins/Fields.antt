-- ===== src/Plugins/Fields.antt =====
-- pluginManager.ts: the fields that the manager takes from a package.json. The file is JSON, so that an
-- array has no property but its elements, and no value is a date, an expression or a function.
pub mod Funding
pub mod Tests
use matterbridge.Base.{
  ℕ, Bool, Option, none, some, List, [], ◌∷◌, ◌++◌, if◌then◌else◌, length, drop, includes,
  starts_with, includes, starts_with, starts_with, includes, drop,
}
use matterbridge.Values.{
  Value, undefined, string, array, object, Items, nil, cons, Fields, named, get_own,
}

-- `packageJson[field]`, undefined where there is none.
pub record PackageFields : Type 0 where
  pub author : Value
  pub description : Value
  pub homepage : Value
  pub repository : Value
  pub help : Value
  pub changelog : Value
  pub funding : Value

-- `value && typeof value === 'string'`.
unfoldable pub text_of : Value → Option (List ℕ)
text_of (string (c ∷ cs)) = some (c ∷ cs)
text_of _ = none

abbrev pub or_undefined : Option Value → Value
or_undefined none = undefined
or_undefined (some v) = v

-- `value && typeof value === 'object' && value[name]`, undefined where that is false.
unfoldable pub property_of : List ℕ → Value → Value
unfolding get_own
property_of name (object fields) = or_undefined (get_own (named name) fields)
property_of name _ = undefined

-- A text that passes a test.
unfoldable pub text_if : (List ℕ → Bool) → Option (List ℕ) → Option (List ℕ)
text_if test none = none
text_if test (some text) = if test text then some text else none

-- `a else b`, for branches that return a text.
unfoldable pub else_next : Option (List ℕ) → Option (List ℕ) → Option (List ℕ)
else_next none next = next
else_next (some text) next = some text

-- `text.replace(pattern, '')`, which removes the first occurrence.
unfoldable pub remove_first : List ℕ → List ℕ → List ℕ
unfolding starts_with
remove_first pattern [] = []
remove_first pattern (c ∷ cs) =
    let rest = remove_first pattern cs in
    if starts_with pattern (c ∷ cs) then drop (length pattern) (c ∷ cs) else c ∷ rest

-- The texts of the source.
abbrev pub http : List ℕ
http = b'h' ∷ b't' ∷ b't' ∷ b'p' ∷ []

abbrev pub git_plus : List ℕ
git_plus = b'g' ∷ b'i' ∷ b't' ∷ b'+' ∷ []

abbrev pub dot_git : List ℕ
dot_git = b'.' ∷ b'g' ∷ b'i' ∷ b't' ∷ []

abbrev pub name_name : List ℕ
name_name = b'n' ∷ b'a' ∷ b'm' ∷ b'e' ∷ []

abbrev pub url_name : List ℕ
url_name = b'u' ∷ b'r' ∷ b'l' ∷ []

abbrev pub unknown_author : List ℕ
unknown_author =
    b'U' ∷ b'n' ∷ b'k' ∷ b'n' ∷ b'o' ∷ b'w' ∷ b'n' ∷ 32 ∷ b'a' ∷ b'u' ∷ b't' ∷ b'h' ∷ b'o' ∷ b'r'
    ∷ []

abbrev pub no_description : List ℕ
no_description =
    b'N' ∷ b'o' ∷ 32 ∷ b'd' ∷ b'e' ∷ b's' ∷ b'c' ∷ b'r' ∷ b'i' ∷ b'p' ∷ b't' ∷ b'i' ∷ b'o' ∷ b'n'
    ∷ []

abbrev pub readme_path : List ℕ
readme_path =
    b'/' ∷ b'b' ∷ b'l' ∷ b'o' ∷ b'b' ∷ b'/' ∷ b'm' ∷ b'a' ∷ b'i' ∷ b'n' ∷ b'/' ∷ b'R' ∷ b'E' ∷ b'A'
    ∷ b'D' ∷ b'M' ∷ b'E' ∷ b'.' ∷ b'm' ∷ b'd' ∷ []

abbrev pub changelog_path : List ℕ
changelog_path =
    b'/' ∷ b'b' ∷ b'l' ∷ b'o' ∷ b'b' ∷ b'/' ∷ b'm' ∷ b'a' ∷ b'i' ∷ b'n' ∷ b'/' ∷ b'C' ∷ b'H' ∷ b'A'
    ∷ b'N' ∷ b'G' ∷ b'E' ∷ b'L' ∷ b'O' ∷ b'G' ∷ b'.' ∷ b'm' ∷ b'd' ∷ []

-- `url.replace('git+', '').replace('.git', '')`.
unfoldable pub without_git : List ℕ → List ℕ
unfolding remove_first
without_git url = remove_first dot_git (remove_first git_plus url)

unfoldable pub mapped : (List ℕ → List ℕ) → Option (List ℕ) → Option (List ℕ)
mapped f none = none
mapped f (some text) = some (f text)

-- The homepage, and the URL of the repository, with a path after it.
unfoldable pub homepage_url : PackageFields → Option (List ℕ)
unfolding includes text_of text_if without_git mapped
homepage_url p = mapped without_git (text_if (includes http) (text_of p.homepage))

unfoldable pub repository_url : List ℕ → PackageFields → Option (List ℕ)
unfolding includes text_of property_of text_if without_git mapped
repository_url path p =
    mapped (λ url. without_git url ++ path)
      (text_if (includes http) (text_of (property_of url_name p.repository)))

abbrev pub text_or : List ℕ → Option (List ℕ) → List ℕ
text_or other none = other
text_or other (some text) = text

unfoldable pub get_author : PackageFields → List ℕ
unfolding text_of property_of else_next
get_author p =
    text_or unknown_author (else_next (text_of p.author) (text_of (property_of name_name p.author)))

unfoldable pub get_description : PackageFields → List ℕ
unfolding text_of
get_description p = text_or no_description (text_of p.description)

unfoldable pub get_homepage : PackageFields → Option (List ℕ)
unfolding else_next homepage_url repository_url
get_homepage p = else_next (homepage_url p) (repository_url [] p)

unfoldable pub get_help : PackageFields → Option (List ℕ)
unfolding text_of text_if else_next starts_with homepage_url repository_url
get_help p =
    else_next (text_if (starts_with http) (text_of p.help))
      (else_next (repository_url readme_path p) (homepage_url p))

unfoldable pub get_changelog : PackageFields → Option (List ℕ)
unfolding text_of text_if else_next starts_with homepage_url repository_url
get_changelog p =
    else_next (text_if (starts_with http) (text_of p.changelog))
      (else_next (repository_url changelog_path p) (homepage_url p))

-- The URL of an entry: the entry itself, or its property `url`.
unfoldable pub entry_url : Value → Option (List ℕ)
unfolding text_of property_of text_if else_next starts_with
entry_url entry =
    else_next (text_if (starts_with http) (text_of entry))
      (text_if (starts_with http) (text_of (property_of url_name entry)))

unfoldable pub first_url : Items → Option (List ℕ)
unfolding entry_url else_next
first_url nil = none
first_url (cons entry entries) = else_next (entry_url entry) (first_url entries)

-- A text is the URL or none; anything else is an array, or the only entry of one. A number or a truth
-- value has no URL.
unfoldable pub funding_url : Value → Option (List ℕ)
unfolding text_of text_if starts_with first_url
funding_url (string text) = text_if (starts_with http) (text_of (string text))
funding_url (array entries) = first_url entries
funding_url (object fields) = first_url (cons (object fields) nil)
funding_url _ = none

unfoldable pub get_funding : PackageFields → Option (List ℕ)
unfolding funding_url
get_funding p = funding_url p.funding
