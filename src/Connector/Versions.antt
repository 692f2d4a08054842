-- ===== src/Connector/Versions.antt =====
-- src/util.ts: the versions of a connector, `parseSemverTriplet`, `versionAtLeast` and
-- `versionLessThan`, and the range of versions that src/connector/server.ts admits.
use Prim.Native.Char.{code}
use livis_chatgpt_bridge.Prelude.{
  ℕ, ◌+◌, ◌-◌, ◌*◌, ◌<◌, ◌≡◌, ◌↔◌, ◌⊎◌, Bool, true, false, not, ◌&&◌, Option, none, some, String,
  List, [], ◌∷◌, arith, if◌then◌else◌, ltb, leb, ◌==◌,
}

-- The code points of a text.
abbrev pub codes : String → List ℕ
codes String.[] = []
codes (String.◌∷◌ c s) = code c ∷ codes s

-- `[number, number, number]`.
pub record Version : Type 0 where
  pub major : ℕ
  pub minor : ℕ
  pub patch : ℕ

unfoldable pub is_digit : ℕ → Bool
is_digit c = leb b'0' c && leb c b'9'

-- `\d+` read with the number so far: the number and what follows it, which begins with no digit.
unfoldable pub more_digits : ℕ → List ℕ → ℕ × List ℕ
unfolding is_digit
more_digits n [] = (n, [])
more_digits n (c ∷ cs) =
    let rest = more_digits (n * 10 + (c - b'0')) cs in if is_digit c then rest else (n, c ∷ cs)

unfoldable pub digits : List ℕ → Option (ℕ × List ℕ)
unfolding is_digit more_digits
digits [] = none
digits (c ∷ cs) = if is_digit c then some (more_digits (c - b'0') cs) else none

-- `\d+\.`.
unfoldable pub after_dot : ℕ × List ℕ → Option (ℕ × List ℕ)
after_dot (n, []) = none
after_dot (n, c ∷ cs) = if c == b'.' then some (n, cs) else none

-- `(\d+)(?![-0-9])` after two numbers.
unfoldable pub last_number : ℕ → ℕ → Option (ℕ × List ℕ) → Option Version
last_number major minor none = none
last_number major minor (some (patch, [])) =
    some (record { major = major; minor = minor; patch = patch })
last_number major minor (some (patch, c ∷ cs)) =
    if c == b'-' then none else some (record { major = major; minor = minor; patch = patch })

unfoldable pub second_number : ℕ → Option (ℕ × List ℕ) → Option Version
unfolding digits after_dot last_number
second_number major none = none
second_number major (some read) = elim (after_dot read) [
  | none ↦ none
  | some (minor, cs) ↦ last_number major minor (digits cs)
]

unfoldable pub first_number : Option (ℕ × List ℕ) → Option Version
unfolding digits after_dot second_number
first_number none = none
first_number (some read) = elim (after_dot read) [
  | none ↦ none
  | some (major, cs) ↦ second_number major (digits cs)
]

unfoldable pub or_else {ℓ} : {A : Type ℓ} → Option A → Option A → Option A
or_else none other = other
or_else (some a) other = some a

-- The first match after a character that is no digit.
unfoldable pub search_version : List ℕ → Option Version
unfolding is_digit digits first_number or_else
search_version [] = none
search_version (c ∷ cs) =
    let later = search_version cs in
    if is_digit c then later else or_else (first_number (digits cs)) later

unfoldable pub parse_semver_triplet : String → Option Version
unfolding digits first_number search_version or_else
parse_semver_triplet text =
    or_else (first_number (digits (codes text))) (search_version (codes text))

-- The loop of `versionAtLeast`, over the places that are left.
unfoldable pub at_least_from : List (ℕ × ℕ) → Bool
at_least_from [] = true
at_least_from ((current, minimum) ∷ rest) =
    let later = at_least_from rest in
    if ltb minimum current then true else (if ltb current minimum then false else later)

unfoldable pub less_than_from : List (ℕ × ℕ) → Bool
less_than_from [] = false
less_than_from ((current, maximum) ∷ rest) =
    let later = less_than_from rest in
    if ltb current maximum then true else (if ltb maximum current then false else later)

abbrev pub places : Version → Version → List (ℕ × ℕ)
places v w = (v.major, w.major) ∷ (v.minor, w.minor) ∷ (v.patch, w.patch) ∷ []

unfoldable pub version_at_least : Version → Version → Bool
unfolding at_least_from
version_at_least current minimum = at_least_from (places current minimum)

unfoldable pub version_less_than : Version → Version → Bool
unfolding less_than_from
version_less_than current maximum = less_than_from (places current maximum)

-- The test of `acceptHello` on a version and its bounds; a version that cannot be read is refused.
unfoldable pub in_range : Option Version → Option Version → Option Version → Bool
unfolding version_at_least version_less_than
in_range (some v) (some minimum) (some maximum) =
    version_at_least v minimum && version_less_than v maximum
in_range _ _ _ = false

-- The order of versions: by the first place in which they differ.
abbrev pub Precedes : Version → Version → Type 0
Precedes v w =
    (v.major < w.major)
    ⊎ (v.major ≡ w.major) × ((v.minor < w.minor) ⊎ (v.minor ≡ w.minor) × (v.patch < w.patch))

-- `versionLessThan` is true exactly when the first version precedes the second in the order by the
-- first place in which they differ, and `versionAtLeast` is its negation.
pub version_less_than-Precedes :
    (v w : Version)
    → ((version_less_than v w ≡ true) ↔ Precedes v w)
      × (version_at_least v w ≡ not (version_less_than v w))
unfolding version_less_than version_at_least at_least_from less_than_from
version_less_than-Precedes v w = ground arith
