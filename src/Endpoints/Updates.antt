-- ===== src/Endpoints/Updates.antt =====
-- matterbridgeEndpointHelpers.ts: what writing an attribute does to writing it again.
use matterbridge.Base.{
  ℕ, ◌≡◌, refl, sym, ap, subst, ◌∙◌, inl, inr, Bool, true, false, Option, none, some, List, [], ◌∷◌,
  arith, ==_refl, Bool-cases, set, Result, ok, ◌>>=◌, >>=-eq-ok, ok-injective, same_text_refl,
}
use matterbridge.Values.{
  Value, undefined, boolean, number, string, function, is_object, strict_equal,
}
use matterbridge.Endpoints.Attributes.{
  ClusterReference, by_text, by_type, by_behavior, by_id, Failure, Attributes, State,
  StatefulEndpoint, lookup, is_unchanged, get_behavior, located, supported_behavior, write,
  update_found, update_attribute, lowercase_first_letter,
}

-- What setStateOf promises of a value that is not an object: an attribute that was written has it. An
-- object is merged into the one that is there, so that nothing is promised of it.
abbrev pub Writes : (List ℕ → Attributes → State → Result Failure State) → Type 0
Writes set_state_of =
    (cluster attribute : List ℕ) (value : Value) (state next : State)
    → is_object value ≡ false
    → set_state_of cluster ((attribute, value) ∷ []) state ≡ ok next
    → lookup cluster attribute next ≡ ok (some value)

is_unchanged_refl : (value : Value) → is_object value ≡ false → is_unchanged value value ≡ true
unfolding is_unchanged is_object strict_equal
is_unchanged_refl undefined h = refl
is_unchanged_refl (boolean true) h = refl
is_unchanged_refl (boolean false) h = refl
is_unchanged_refl (number n) h = ==_refl n
is_unchanged_refl (string s) h = same_text_refl s
is_unchanged_refl (function f) h = ==_refl f
is_unchanged_refl value h = cc

module _ (set_state_of : List ℕ → Attributes → State → Result Failure State)
    (h : Writes set_state_of) where
  -- After a write to an attribute that was found, the value is found there.
  located-write :
      (behavior : Option (List ℕ)) (attribute : List ℕ) (value old : Value)
      (endpoint next : StatefulEndpoint) (done : Bool)
      → is_object value ≡ false
      → located behavior attribute endpoint ≡ ok (some old)
      → write set_state_of behavior attribute value endpoint ≡ ok (done, next)
      → (done ≡ true)
        × (next.supported ≡ endpoint.supported)
        × (located behavior attribute next ≡ ok (some value))
  unfolding located write
  located-write none attribute value old endpoint next done v k w = cc
  located-write (some cluster) attribute value old endpoint next done v k w =
      let name = lowercase_first_letter attribute in
      let (state, set, same) =
        >>=-eq-ok (set_state_of cluster ((name, value) ∷ []) endpoint.state) _ w in
      let pair = ok-injective same in
      let here = h cluster name value endpoint.state state v set in
      (
        sym (ap (λ p. p.0) pair),
        sym (ap (λ p. p.1.supported) pair),
        elim (Bool-cases endpoint.is_active) [
          | inl e ↦
              subst (λ n. located (some cluster) attribute n ≡ ok (some value)) (ap (λ p. p.1) pair)
                (rw e here)
          | inr e ↦ absurd (ground (arith, k, e))
        ],
      )

  module _ (cluster_name_by_id : ℕ → List ℕ) where
    -- The behavior of a cluster depends on the supported ones only.
    get_behavior-supported :
        (cluster : ClusterReference) (endpoint next : StatefulEndpoint)
        → next.supported ≡ endpoint.supported
        → get_behavior cluster_name_by_id cluster next
          ≡ get_behavior cluster_name_by_id cluster endpoint
    unfolding get_behavior
    get_behavior-supported (by_text name) endpoint next s =
        ap (supported_behavior (lowercase_first_letter name)) s
    get_behavior-supported (by_type name) endpoint next s =
        ap (supported_behavior (lowercase_first_letter name)) s
    get_behavior-supported (by_id id) endpoint next s =
        ap (supported_behavior (lowercase_first_letter (cluster_name_by_id id))) s
    get_behavior-supported (by_behavior id) endpoint next s = refl

    -- An operation that left the endpoint as it is does the same again.
    again :
        (behavior : Option (List ℕ)) (attribute : List ℕ) (value : Value) (found : Option Value)
        (endpoint next : StatefulEndpoint) (done : Bool)
        → located behavior attribute endpoint ≡ ok found
        → update_found set_state_of behavior attribute value endpoint found ≡ ok (false, endpoint)
        → ◌≡◌ {A = Result Failure (Bool × StatefulEndpoint)}
            (ok (false, endpoint))
            (ok (done, next))
        → (next.supported ≡ endpoint.supported)
          × ((do
            again ← located behavior attribute next
            update_found set_state_of behavior attribute value next again)
              ≡ ok (false, next))
    again behavior attribute value found endpoint next done k w same =
        subst
          (λ n.
            (n.supported ≡ endpoint.supported)
            × ((do
              again ← located behavior attribute n
              update_found set_state_of behavior attribute value n again)
                ≡ ok (false, n)))
          (ap (λ p. p.1) (ok-injective same)) (refl, rw k w)

    update_found-again :
        (behavior : Option (List ℕ)) (attribute : List ℕ) (value : Value) (found : Option Value)
        (endpoint next : StatefulEndpoint) (done : Bool)
        → is_object value ≡ false
        → located behavior attribute endpoint ≡ ok found
        → update_found set_state_of behavior attribute value endpoint found ≡ ok (done, next)
        → (next.supported ≡ endpoint.supported)
          × ((do
            again ← located behavior attribute next
            update_found set_state_of behavior attribute value next again)
              ≡ ok (false, next))
    unfolding update_found
    update_found-again behavior attribute value none endpoint next done v k w =
        again behavior attribute value none endpoint next done k refl w
    update_found-again behavior attribute value (some old) endpoint next done v k w =
        elim (Bool-cases (is_unchanged old value)) [
          | inl e ↦
              again behavior attribute value (some old) endpoint next done k (rw e refl)
                (sym (rw e refl) ∙ w)
          | inr e ↦
              let (d, s, here) =
                located-write behavior attribute value old endpoint next done v k
                  (sym (rw e refl) ∙ w) in
              (s, rw (here, is_unchanged_refl value v) refl)
        ]

    -- Where setStateOf keeps its promise that an attribute has a value that is not an object once it was
    -- written: after an update with such a value that returned, whether it returned true or false, a
    -- second one with the same value returns false and leaves the endpoint as it is. An update that
    -- throws, as setStateOf rejects it or the behavior has no state, is not meant.
    pub update_attribute_idem :
        (cluster : ClusterReference) (attribute : List ℕ) (value : Value)
        (endpoint next : StatefulEndpoint) (done : Bool)
        → is_object value ≡ false
        → update_attribute cluster_name_by_id set_state_of cluster attribute value endpoint
          ≡ ok (done, next)
        → update_attribute cluster_name_by_id set_state_of cluster attribute value next
          ≡ ok (false, next)
    unfolding update_attribute
    update_attribute_idem cluster attribute value endpoint next done v w =
        let behavior = get_behavior cluster_name_by_id cluster endpoint in
        let (found, k, l) = >>=-eq-ok (located behavior attribute endpoint) _ w in
        let (s, rest) =
          update_found-again behavior attribute value found endpoint next done v k l in
        rw (get_behavior-supported cluster endpoint next s) rest
