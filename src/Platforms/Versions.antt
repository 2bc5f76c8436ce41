-- ===== src/Platforms/Versions.antt =====
-- packages/core/src/matterbridgePlatform.ts: verifyMatterbridgeVersion, and the order of versions.
use matterbridge.Base.{
  ℕ, zero, suc, ◌+◌, ◌-◌, ◌*◌, max, ◌≡◌, refl, subst, Bool, true, false, ◌&&◌, ◌||◌, not, List, [],
  ◌∷◌, map, arith, ltb, leb, ◌==◌, if◌then◌else◌, length, get_or, split, trim, max, split, trim,
}

-- `Number(part) || 0`, for a part of digits; another part that is not a number counts as 0 too. Signs,
-- fractions, exponents and hexadecimal numbers are left out. Spaces around a part are passed over.
unfoldable pub number_from : ℕ → List ℕ → ℕ
number_from value [] = value
number_from value (c ∷ part) =
    let rest = number_from (value * 10 + (c - b'0')) part in
    if leb b'0' c && leb c b'9' then rest else 0

unfoldable pub first_part : List (List ℕ) → List ℕ
first_part [] = []
first_part (part ∷ parts) = part

-- `stripTag(version).split('.').map(Number)`.
unfoldable pub version_parts : List ℕ → List ℕ
unfolding number_from first_part trim
version_parts version =
    map (λ part. number_from 0 (trim part)) (split b'.' (first_part (split b'-' version)))

-- The rounds of the loop of compareVersions from place i on.
unfoldable pub compare_from : ℕ → ℕ → List ℕ → List ℕ → Bool
compare_from zero i v1 v2 = true
compare_from (suc rounds) i v1 v2 =
    let rest = compare_from rounds (suc i) v1 v2 in
    if ltb (get_or v1 i 0) (get_or v2 i 0)
    then false
    else (if ltb (get_or v2 i 0) (get_or v1 i 0) then true else rest)

unfoldable pub compare_parts : List ℕ → List ℕ → Bool
unfolding compare_from
compare_parts v1 v2 = compare_from (max (length v1) (length v2)) 0 v1 v2

unfoldable pub compare_versions : List ℕ → List ℕ → Bool
unfolding version_parts compare_parts
compare_versions version required = compare_parts (version_parts version) (version_parts required)

-- Whether the version is new enough, and whether the platform is destroyed.
unfoldable pub verify_matterbridge_version : List ℕ → List ℕ → Bool → Bool × Bool
unfolding compare_versions
verify_matterbridge_version version required destroy =
    if not (compare_versions version required) then (false, destroy) else (true, false)

-- The order of versions place by place, where a missing place counts as 0.
abbrev pub at_least : List ℕ → List ℕ → Bool
at_least [] [] = true
at_least [] (n ∷ ns) = (n == 0) && at_least [] ns
at_least (m ∷ ms) [] = true
at_least (m ∷ ms) (n ∷ ns) = if m == n then at_least ms ns else ltb n m

abbrev tail : List ℕ → List ℕ
tail [] = []
tail (n ∷ ns) = ns

-- Going on from the next place is starting with the rest.
compare_from-tail :
    (rounds i : ℕ) (v1 v2 : List ℕ)
    → compare_from rounds (suc i) v1 v2 ≡ compare_from rounds i (tail v1) (tail v2)
unfolding compare_from
compare_from-tail zero i v1 v2 = refl
compare_from-tail (suc rounds) i [] [] = ground (arith, compare_from-tail rounds (suc i) [] [])
compare_from-tail (suc rounds) i [] (n ∷ ns) =
    ground (arith, compare_from-tail rounds (suc i) [] (n ∷ ns))
compare_from-tail (suc rounds) i (m ∷ ms) [] =
    ground (arith, compare_from-tail rounds (suc i) (m ∷ ms) [])
compare_from-tail (suc rounds) i (m ∷ ms) (n ∷ ns) =
    ground (arith, compare_from-tail rounds (suc i) (m ∷ ms) (n ∷ ns))

max-suc : (m n : ℕ) → max (suc m) (suc n) ≡ suc (max m n)
max-suc m n = omega arith

max-zero : (n : ℕ) → (max 0 n ≡ n) × (max n 0 ≡ n)
max-zero n = (omega arith, omega arith)

at_least-nil : (v1 : List ℕ) → at_least v1 [] ≡ true
at_least-nil [] = refl
at_least-nil (m ∷ ms) = refl

compare_from-at_least :
    (v1 v2 : List ℕ) → compare_from (max (length v1) (length v2)) 0 v1 v2 ≡ at_least v1 v2
unfolding compare_from
compare_from-at_least [] [] = refl
compare_from-at_least [] (n ∷ ns) =
    let later =
      subst (λ rounds. compare_from rounds 0 [] ns ≡ at_least [] ns) (max-zero (length ns)).0
        (compare_from-at_least [] ns) in
    rw (max-zero (suc (length ns))).0
      (ground (arith, compare_from-tail (length ns) 0 [] (n ∷ ns), later))
compare_from-at_least (m ∷ ms) [] =
    let later =
      subst (λ rounds. compare_from rounds 0 ms [] ≡ at_least ms []) (max-zero (length ms)).1
        (compare_from-at_least ms []) in
    rw (max-zero (suc (length ms))).1
      (ground (arith, compare_from-tail (length ms) 0 (m ∷ ms) [], later, at_least-nil ms))
compare_from-at_least (m ∷ ms) (n ∷ ns) = rw (max-suc (length ms) (length ns)) (
    ground (
      arith,
      compare_from-tail (max (length ms) (length ns)) 0 (m ∷ ms) (n ∷ ns),
      compare_from-at_least ms ns,
    ))

at_least_total : (v1 v2 : List ℕ) → at_least v1 v2 || at_least v2 v1 ≡ true
at_least_total [] [] = refl
at_least_total [] (n ∷ ns) = ground (arith, at_least_total [] ns)
at_least_total (m ∷ ms) [] = refl
at_least_total (m ∷ ms) (n ∷ ns) = ground (arith, at_least_total ms ns)

at_least_trans :
    (v1 v2 v3 : List ℕ) → at_least v1 v2 ≡ true → at_least v2 v3 ≡ true → at_least v1 v3 ≡ true
at_least_trans v1 v2 [] h k = at_least-nil v1
at_least_trans [] [] (p ∷ ps) h k = k
at_least_trans [] (n ∷ ns) (p ∷ ps) h k = ground (arith, h, k, at_least_trans [] ns ps)
at_least_trans (m ∷ ms) [] (p ∷ ps) h k =
    ground (arith, h, k, at_least-nil ms, at_least_trans ms [] ps)
at_least_trans (m ∷ ms) (n ∷ ns) (p ∷ ps) h k = ground (arith, h, k, at_least_trans ms ns ps)

compare_versions-at_least :
    (version required : List ℕ)
    → compare_versions version required ≡ at_least (version_parts version) (version_parts required)
unfolding compare_versions compare_parts
compare_versions-at_least version required =
    compare_from-at_least (version_parts version) (version_parts required)

-- The comparison of two versions is the order of their parts, place by place with a missing place as
-- 0, although it counts places up to the longer one; it holds one way or the other for any two
-- versions; and from one to a third if it does over a second.
pub compare_versions_lem :
    (version required newer : List ℕ)
    → (compare_versions version required
        ≡ at_least (version_parts version) (version_parts required))
      × (compare_versions version required || compare_versions required version ≡ true)
      × (not (compare_versions newer version && compare_versions version required)
            || compare_versions newer required
          ≡ true)
compare_versions_lem version required newer =
    let v = version_parts version in
    let r = version_parts required in
    let n = version_parts newer in
    (
      compare_versions-at_least version required,
      ground (
        arith,
        compare_versions-at_least version required,
        compare_versions-at_least required version,
        at_least_total v r,
      ),
      ground (
        arith,
        compare_versions-at_least newer version,
        compare_versions-at_least version required,
        compare_versions-at_least newer required,
        at_least_trans n v r,
      ),
    )
