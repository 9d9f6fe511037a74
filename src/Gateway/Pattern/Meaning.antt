-- ===== src/Gateway/Pattern/Meaning.antt =====
-- The matcher and the regular expression of `validateGateway`
-- (internal/controller/routing/gateway_controller.go).
use mathlib.Core.List.{append-nil, append_assoc}
use service_router_operator.Base.{
  ℕ, String, List, [], ◌∷◌, ◌++◌, Bool, true, false, ◌==◌, nat_eq, codes, ◌≡◌, ◌↔◌, refl, sym, ap,
  subst, ◌∙◌, inl, inr, Bool-cases, arith,
}
use service_router_operator.Gateway.Pattern.{
  is_alnum, match_from, match_string, Regexp, class, seq, star, Star, stop, again, Matches, plus,
  postfix_pattern,
}

abbrev group : Regexp
group = class is_alnum

abbrev later : Regexp
later = seq (class (λ c. c == b'-')) (plus group)

-- What the matcher reads where the code point before was in a group, or was not.
abbrev Reads : Bool → List ℕ → Type 0
Reads true cs = Matches (seq (star group) (star later)) cs
Reads false cs = Matches postfix_pattern cs

Reads-alnum :
    (inside : Bool) (c : ℕ) (cs : List ℕ)
    → is_alnum c ≡ true
    → Reads true cs
    → Reads inside (c ∷ cs)
Reads-alnum true c cs h (xs, ys, g, l, e) = (c ∷ xs, ys, again (c, h, refl) g refl, l, ap (◌∷◌ c) e)
Reads-alnum false c cs h (xs, ys, g, l, e) =
    (c ∷ xs, ys, (c ∷ [], xs, (c, h, refl), g, refl), l, ap (◌∷◌ c) e)

Reads-hyphen : (c : ℕ) (cs : List ℕ) → (c == b'-') ≡ true → Reads false cs → Reads true (c ∷ cs)
Reads-hyphen c cs h (xs, ys, p, l, e) =
    ([], c ∷ cs, stop, again (c ∷ [], xs, (c, h, refl), p, refl) l (ap (◌∷◌ c) e), refl)

match_from-Reads : (inside : Bool) (cs : List ℕ) → match_from inside cs ≡ true → Reads inside cs
unfolding match_from
match_from-Reads true [] h = ([], [], stop, stop, refl)
match_from-Reads false [] h = cc
match_from-Reads false (c ∷ cs) h = elim (Bool-cases (is_alnum c)) [
  | inl e ↦ Reads-alnum false c cs e (match_from-Reads true cs (ground arith))
  | inr e ↦ cc (rw e at h)
]
match_from-Reads true (c ∷ cs) h = elim (Bool-cases (is_alnum c)) [
  | inl e ↦ Reads-alnum true c cs e (match_from-Reads true cs (ground arith))
  | inr e ↦ elim (Bool-cases (c == b'-')) [
    | inl hyphen ↦ Reads-hyphen c cs hyphen (match_from-Reads false cs (ground arith))
    | inr neither ↦ cc (rw (e, neither) at h)
  ]
]

-- A piece that is skipped wherever it stands is skipped as often as it stands there.
Star-match_from :
    (P : List ℕ → Type 0)
    → ((xs cs : List ℕ) → P xs → match_from true cs ≡ true → match_from true (xs ++ cs) ≡ true)
    → {ys : List ℕ} → Star P ys
    → (cs : List ℕ) → match_from true cs ≡ true
    → match_from true (ys ++ cs) ≡ true
Star-match_from P skip stop cs h = h
Star-match_from P skip (again {xs} {ys} p more e) cs h =
    subst (λ zs. match_from true (zs ++ cs) ≡ true) (sym e)
      (subst (λ zs. match_from true zs ≡ true) (sym (append_assoc xs ys cs))
        (skip xs (ys ++ cs) p (Star-match_from P skip more cs h)))

alnum-match_from :
    (inside : Bool) (xs cs : List ℕ)
    → Matches group xs
    → match_from true cs ≡ true
    → match_from inside (xs ++ cs) ≡ true
unfolding match_from
alnum-match_from inside xs cs (c, p, e) h = rw (e, p, match_from) h

groups-match_from :
    (inside : Bool) (zs cs : List ℕ)
    → Matches (plus group) zs
    → match_from true cs ≡ true
    → match_from inside (zs ++ cs) ≡ true
groups-match_from inside zs cs (xs, ys, g, more, e) h =
    subst (λ us. match_from inside (us ++ cs) ≡ true) (sym e)
      (subst (λ us. match_from inside us ≡ true) (sym (append_assoc xs ys cs))
        (alnum-match_from inside xs (ys ++ cs) g
          (Star-match_from (Matches group) (λ us vs. alnum-match_from true us vs) more cs h)))

hyphen-match_from :
    (c : ℕ) (cs : List ℕ)
    → (c == b'-') ≡ true
    → match_from false cs ≡ true
    → match_from true (c ∷ cs) ≡ true
unfolding match_from
hyphen-match_from c cs h k = ground arith

later-match_from :
    (zs cs : List ℕ)
    → Matches later zs
    → match_from true cs ≡ true
    → match_from true (zs ++ cs) ≡ true
later-match_from zs cs (xs, ys, (c, p, e), more, f) h =
    subst (λ us. match_from true (us ++ cs) ≡ true) (sym (f ∙ ap (λ us. us ++ ys) e))
      (hyphen-match_from c (ys ++ cs) p (groups-match_from false ys cs more h))

Matches-match_from : (zs : List ℕ) → Matches postfix_pattern zs → match_from false zs ≡ true
unfolding match_from
Matches-match_from zs (xs, ys, first, more, e) =
    subst (λ us. match_from false us ≡ true) (sym e)
      (groups-match_from false xs ys first (
        subst (λ us. match_from true us ≡ true) (append-nil ys)
          (Star-match_from (Matches later) later-match_from more [] refl)))

-- The validation of `targetPostfix` accepts exactly the texts of the regular expression
-- `^[a-z0-9]+(-[a-z0-9]+)*$`.
pub match_string_iff : (s : String) → (match_string s ≡ true) ↔ Matches postfix_pattern (codes s)
unfolding match_string
match_string_iff s = (match_from-Reads false (codes s), Matches-match_from (codes s))
