-- ===== src/Plugins/Fields/Tests.antt =====
-- The fields of a package.json on concrete texts.
use matterbridge.Base.{
  ℕ, ◌≡◌, refl, some, List, [], ◌∷◌, includes, starts_with, includes, starts_with, starts_with,
  includes,
}
use matterbridge.Values.{undefined, string}
use matterbridge.Plugins.Fields.{
  text_of, text_if, homepage_url, else_next, remove_first, without_git, mapped, PackageFields,
  get_homepage,
}

abbrev pages : List ℕ
pages =
    b'h' ∷ b't' ∷ b't' ∷ b'p' ∷ b':' ∷ b'/' ∷ b'/' ∷ b'u' ∷ b'.' ∷ b'g' ∷ b'i' ∷ b't' ∷ b'h' ∷ b'u'
    ∷ b'b' ∷ b'.' ∷ b'i' ∷ b'o' ∷ b'/' ∷ b'p' ∷ []

abbrev broken_pages : List ℕ
broken_pages =
    b'h' ∷ b't' ∷ b't' ∷ b'p' ∷ b':' ∷ b'/' ∷ b'/' ∷ b'u' ∷ b'h' ∷ b'u' ∷ b'b' ∷ b'.' ∷ b'i' ∷ b'o'
    ∷ b'/' ∷ b'p' ∷ []

abbrev repository : List ℕ
repository =
    b'g' ∷ b'i' ∷ b't' ∷ b'+' ∷ b'h' ∷ b't' ∷ b't' ∷ b'p' ∷ b':' ∷ b'/' ∷ b'/' ∷ b'h' ∷ b'.' ∷ b'c'
    ∷ b'o' ∷ b'm' ∷ b'/' ∷ b'u' ∷ b'.' ∷ b'g' ∷ b'i' ∷ b't' ∷ []

abbrev clean_repository : List ℕ
clean_repository =
    b'h' ∷ b't' ∷ b't' ∷ b'p' ∷ b':' ∷ b'/' ∷ b'/' ∷ b'h' ∷ b'.' ∷ b'c' ∷ b'o' ∷ b'm' ∷ b'/' ∷ b'u'
    ∷ []

-- The URL of a repository loses git+ and .git.
without_git_test : without_git repository ≡ clean_repository
unfolding remove_first without_git starts_with
without_git_test = refl

-- The first .git of a page on github.io is that of its host.
host_test : without_git pages ≡ broken_pages
unfolding remove_first without_git starts_with
host_test = refl

abbrev package_json : PackageFields
package_json = record {
  author = undefined;
  description = undefined;
  homepage = string pages;
  repository = undefined;
  help = undefined;
  changelog = undefined;
  funding = undefined;
}

get_homepage_test : get_homepage package_json ≡ some broken_pages
unfolding text_of text_if includes starts_with remove_first without_git mapped homepage_url
    else_next get_homepage
get_homepage_test = refl
