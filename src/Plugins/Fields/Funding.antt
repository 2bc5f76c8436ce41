-- ===== src/Plugins/Fields/Funding.antt =====
-- pluginManager.ts: the URL that getFunding finds.
use matterbridge.Base.{
  ℕ, ◌≡◌, inl, inr, true, Option, none, some, List, Bool-cases, starts_with, starts_with,
  starts_with,
}
use matterbridge.Values.{
  Value, undefined, null, boolean, number, string, function, date, reg_exp, array, object, Items,
  nil, cons,
}
use matterbridge.Plugins.Fields.{
  PackageFields, text_of, property_of, text_if, else_next, http, url_name, entry_url, first_url,
  funding_url, get_funding,
}

abbrev IsUrl : Option (List ℕ) → Type 0
IsUrl none = Unit
IsUrl (some url) = starts_with http url ≡ true

text_if-IsUrl : (found : Option (List ℕ)) → IsUrl (text_if (starts_with http) found)
unfolding text_if
text_if-IsUrl none = tt
text_if-IsUrl (some text) = elim (Bool-cases (starts_with http text)) [
  | inl e ↦ rw e e
  | inr e ↦ rw e tt
]

else_next-IsUrl : (a b : Option (List ℕ)) → IsUrl a → IsUrl b → IsUrl (else_next a b)
unfolding else_next
else_next-IsUrl none b h k = k
else_next-IsUrl (some text) b h k = h

first_url-IsUrl : (entries : Items) → IsUrl (first_url entries)
unfolding entry_url first_url
first_url-IsUrl nil = tt
first_url-IsUrl (cons entry entries) =
    else_next-IsUrl (entry_url entry) (first_url entries)
      (else_next-IsUrl _ _ (text_if-IsUrl (text_of entry))
        (text_if-IsUrl (text_of (property_of url_name entry))))
      (first_url-IsUrl entries)

funding_url-IsUrl : (funding : Value) → IsUrl (funding_url funding)
unfolding funding_url
funding_url-IsUrl undefined = tt
funding_url-IsUrl null = tt
funding_url-IsUrl (boolean b) = tt
funding_url-IsUrl (number n) = tt
funding_url-IsUrl (string text) = text_if-IsUrl (text_of (string text))
funding_url-IsUrl (function f) = tt
funding_url-IsUrl (date t) = tt
funding_url-IsUrl (reg_exp s f l) = tt
funding_url-IsUrl (array entries) = first_url-IsUrl entries
funding_url-IsUrl (object fields) = first_url-IsUrl (cons (object fields) nil)

-- Whatever the funding field of a package.json holds, what getFunding returns is none, or a text that
-- begins with "http".
pub get_funding-IsUrl : (p : PackageFields) → IsUrl (get_funding p)
unfolding get_funding
get_funding-IsUrl p = funding_url-IsUrl p.funding
