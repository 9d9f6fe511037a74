-- ===== src/Gateway/Pattern.antt =====
-- The regular expression `^[a-z0-9]+(-[a-z0-9]+)*$` of `validateGateway` in
-- internal/controller/routing/gateway_controller.go: a matcher that runs, and what the expression
-- means, read over code points.
pub mod Meaning
use service_router_operator.Base.{
  ℕ, String, List, [], ◌∷◌, ◌++◌, Bool, true, false, ◌&&◌, ◌||◌, ◌==◌, nat_eq, if◌then◌else◌, leb,
  codes, ◌≡◌,
}

-- `[a-z0-9]`
abbrev pub is_alnum : ℕ → Bool
is_alnum c = (leb b'a' c && leb c b'z') || (leb b'0' c && leb c b'9')

-- `inside` says that the code point before was one of `[a-z0-9]`: only then may the text end, or a
-- hyphen follow.
unfoldable pub match_from : Bool → List ℕ → Bool
match_from inside [] = inside
match_from inside (c ∷ cs) =
    let group = match_from true cs in
    let hyphen = match_from false cs in
    if is_alnum c then group else if inside && c == b'-' then hyphen else false

unfoldable pub match_string : String → Bool
unfolding match_from
match_string s = match_from false (codes s)

-- Regular expressions, and the texts that they match.
pub data Regexp : Type 0 where
  class : (ℕ → Bool) → Regexp
  seq : Regexp → Regexp → Regexp
  star : Regexp → Regexp

pub data Star (P : List ℕ → Type 0) : List ℕ → Type 0 where
  stop : Star P []
  again : {xs ys zs : List ℕ} → P xs → Star P ys → zs ≡ xs ++ ys → Star P zs

abbrev pub Matches : Regexp → List ℕ → Type 0
Matches (class p) zs = (c : ℕ) × (p c ≡ true) × (zs ≡ c ∷ [])
Matches (seq r s) zs = (xs : List ℕ) × (ys : List ℕ) × Matches r xs × Matches s ys × (zs ≡ xs ++ ys)
Matches (star r) zs = Star (Matches r) zs

-- `r+`
abbrev pub plus : Regexp → Regexp
plus r = seq r (star r)

abbrev pub postfix_pattern : Regexp
postfix_pattern =
    seq (plus (class is_alnum)) (star (seq (class (λ c. c == b'-')) (plus (class is_alnum))))
