-- ===== src/Jira/Keys.antt =====
-- A parsed key has the form of a key.
use aerp.Prelude.{
  ◌≡◌, refl, ap, ◌==◌, String, is_capital, eq_refl, Option, none, some, true, ok, Bool-cases,
  Option-cases, begins, drop_chars, strip, ◌∙◌, ◌<>◌, error, err, inl, inr,
}
use Prim.Native.Char.{Char, code}
use package.aerp.Jira.{
  is_digit, dash_digits, cons_some, leading_digits, letters_dash_digits, key_at, is_key, browse_at,
  search_browse, parse_jira_url,
}

leading_digits-leading_digits : (s : String) → leading_digits (leading_digits s) ≡ leading_digits s
unfolding leading_digits
leading_digits-leading_digits String.[] = refl
leading_digits-leading_digits (String.◌∷◌ c s) = elim (Bool-cases (is_digit c)) [
  | inl e ↦ rw e (rw e (ap (λ (t : String). String.◌∷◌ c t) (leading_digits-leading_digits s)))
  | inr e ↦ rw e refl
]

dash_digits-some :
    (c : Char) (s k : String)
    → dash_digits c s ≡ some k
    → (k ≡ String.◌∷◌ c s) × (dash_digits c s ≡ some (String.◌∷◌ c s))
dash_digits-some c String.[] k h = cc
dash_digits-some c (String.◌∷◌ d s) k h = (cc, refl)

cons_some-some :
    (c : Char) (o : Option String) (k : String)
    → cons_some c o ≡ some k
    → (t : String) × (o ≡ some t) × (k ≡ String.◌∷◌ c t)
cons_some-some c none k h = cc
cons_some-some c (some t) k h = (t, refl, cc)

-- What matched matches again.
letters_dash_digits_again :
    (s k : String) → letters_dash_digits s ≡ some k → letters_dash_digits k ≡ some k
unfolding letters_dash_digits
letters_dash_digits_again String.[] k h = cc
letters_dash_digits_again (String.◌∷◌ c s) k h = elim (Bool-cases (is_capital c)) [
  | inl e ↦
      let (t, found, is_k) = cons_some-some c (letters_dash_digits s) k (rw e at h) in
      let again = letters_dash_digits_again s t found in rw (is_k, e, again) refl
  | inr e ↦ elim (Bool-cases (code c == b'-')) [
    | inl d ↦
        let (is_k, kept) = dash_digits-some c (leading_digits s) k (rw (e, d) at h) in
        rw (is_k, e, d, leading_digits-leading_digits s) kept
    | inr d ↦ let no : none ≡ some k = rw (e, d) at h in absurd cc
  ]
]

key_at_again : (s k : String) → key_at s ≡ some k → key_at k ≡ some k
unfolding key_at letters_dash_digits
key_at_again String.[] k h = cc
key_at_again (String.◌∷◌ c s) k h = elim (Bool-cases (is_capital c)) [
  | inl e ↦
      let (t, found, is_k) = cons_some-some c (letters_dash_digits s) k (rw e at h) in
      let again = letters_dash_digits_again s t found in rw (is_k, e, again) refl
  | inr e ↦ let no : none ≡ some k = rw e at h in absurd cc
]

-- The text whose beginning a search has found.
browse_at-key_at : (s k : String) → browse_at s ≡ some k → (u : String) × (key_at u ≡ some k)
unfolding browse_at
browse_at-key_at s k h = elim (Bool-cases (begins s "/browse/")) [
  | inl e ↦ (drop_chars 8 s, rw e at h)
  | inr e ↦ let no : none ≡ some k = rw e at h in absurd cc
]

search_browse-key_at :
    (s k : String) → search_browse s ≡ some k → (u : String) × (key_at u ≡ some k)
unfolding search_browse
search_browse-key_at String.[] k h = cc
search_browse-key_at (String.◌∷◌ c s) k h = elim (Option-cases (browse_at (String.◌∷◌ c s))) [
  | inl e ↦ search_browse-key_at s k (rw (e, search_browse) at h)
  | inr (key, e) ↦
      let same : some key ≡ some k = rw (e, search_browse) at h in
      browse_at-key_at (String.◌∷◌ c s) k (e ∙ same)
]

key_at-is_key : (k : String) → key_at k ≡ some k → is_key k ≡ true
unfolding is_key
key_at-is_key k h = rw (h, eq_refl k) refl

-- A ticket key that is parsed out of a text, be the text a key or a URL, has the form of a key as
-- a whole: capital letters, a dash and digits.
pub parse_jira_url-is_key : (jira_url k : String) → parse_jira_url jira_url ≡ ok k → is_key k ≡ true
unfolding parse_jira_url
parse_jira_url-is_key jira_url k h = elim (Bool-cases (is_key (strip jira_url))) [
  | inl e ↦
      let same : ok (strip jira_url) ≡ ok k = rw e at h in
      let is_k : strip jira_url ≡ k = cc in rw (← is_k) e
  | inr e ↦ elim (Option-cases (search_browse jira_url)) [
    | inl none_found ↦
        let no : err (error ("Cannot parse Jira ticket key from: " <> jira_url)) ≡ ok k =
          rw (e, none_found) at h in
        absurd cc
    | inr (key, found) ↦
        let same : ok key ≡ ok k = rw (e, found) at h in
        let is_k : key ≡ k = cc in
        let (u, at_u) = search_browse-key_at jira_url key found in
        rw (← is_k) (key_at-is_key key (key_at_again u key at_u))
  ]
]
