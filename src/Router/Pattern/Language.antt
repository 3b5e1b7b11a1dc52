-- ===== src/Router/Pattern/Language.antt =====
-- The matcher decides the language of the pattern.
use mathlib.Core.Option
use native.Mathlib.Decide.{ℕ_discrete}
use route_mq.Prelude.{
  ℕ, ◌≡◌, ◌≢◌, refl, sym, ap, ◌∙◌, true, Option, none, some, List, [], ◌∷◌, ◌++◌, arith, All,
  Option-cases, Bool-cases, ◌⊎◌, inl, inr, ◌↔◌, ==_iff,
}
use route_mq.Router.Pattern.{
  Topic, Token, char, param, Groups, fits, at_end, take_word, match_tokens,
}

-- `[^/]+`
abbrev pub IsWord : Topic → Type 0
IsWord [] = ⊥
IsWord (x ∷ xs) = (x ≢ b'/') × All (λ c. c ≢ b'/') xs

-- A character of the pattern stands for itself, and a dot for any character but a line feed.
abbrev pub StandsFor : ℕ → ℕ → Type 0
StandsFor c x = (x ≡ c) ⊎ ((c ≡ b'.') × (x ≢ 10))

-- What may be left of the topic: nothing, or one line feed.
abbrev pub IsEnd : Topic → Type 0
IsEnd s = (s ≡ []) ⊎ (s ≡ 10 ∷ [])

-- The topics that a pattern describes, with the words of its groups.
pub data Matches : List Token → Topic → Groups → Type 0 where
  ends : {s : Topic} → IsEnd s → Matches [] s []
  steps :
      {c x : ℕ} {ts : List Token} {s : Topic} {g : Groups}
      → StandsFor c x
      → Matches ts s g
      → Matches (char c ∷ ts) (x ∷ s) g
  reads :
      {name : Topic} {ts : List Token} {rest s : Topic} {g : Groups} (w : Topic)
      → IsWord w
      → s ≡ w ++ rest
      → Matches ts rest g
      → Matches (param name ∷ ts) s ((name, w) ∷ g)

fits_iff : (c x : ℕ) → (fits c x ≡ true) ↔ StandsFor c x
unfolding fits
fits_iff c x = elim (ℕ_discrete x c) [
  | yes same ↦ (λ h. inl same, λ h. ground (arith, same))
  | no other ↦ (λ h. inr (ground arith), λ h. ground arith)
]

at_end_iff : (s : Topic) → (at_end s ≡ true) ↔ IsEnd s
unfolding at_end
at_end_iff [] = (λ h. inl refl, λ h. refl)
at_end_iff (x ∷ []) = (λ h. inr (ap (λ c. c ∷ []) ((==_iff x 10).0 h)), λ h. ground arith)
at_end_iff (x ∷ (y ∷ ys)) = (λ h. cc, λ h. ground arith)

IsWord-All : (w : Topic) → IsWord w → All (λ c. c ≢ b'/') w
IsWord-All [] h = absurd h
IsWord-All (x ∷ xs) h = h

module _ (k : Topic → Option Groups) where
  -- The word of a group is one character longer than the word behind it, or this one character.
  pub take_word-shorter :
      (x : ℕ) (xs : Topic)
      → x ≢ b'/'
      → take_word k xs ≡ none
      → take_word k (x ∷ xs) ≡ Option.map (λ g. (x ∷ [], g)) (k xs)
  unfolding take_word
  take_word-shorter x xs ne e = ground (arith, e)

  pub take_word-longer :
      (x : ℕ) (xs w : Topic) (g : Groups)
      → x ≢ b'/'
      → take_word k xs ≡ some (w, g)
      → take_word k (x ∷ xs) ≡ some (x ∷ w, g)
  unfolding take_word
  take_word-longer x xs w g ne e = ground (arith, e)

  pub take_word-slash : (x : ℕ) (xs : Topic) → x ≡ b'/' → take_word k (x ∷ xs) ≡ none
  unfolding take_word
  take_word-slash x xs e = ground arith

  pub take_word_sound :
      (s w : Topic) (g : Groups)
      → take_word k s ≡ some (w, g)
      → IsWord w × ((rest : Topic) × (s ≡ w ++ rest) × (k rest ≡ some g))
  unfolding take_word
  take_word_sound [] w g e = cc
  take_word_sound (x ∷ xs) w g e = elim (ℕ_discrete x b'/') [
    | yes slash ↦ cc (take_word-slash x xs slash)
    | no ne ↦ elim (Option-cases (take_word k xs)) [
      | inl none_longer ↦ elim (Option-cases (k xs)) [
        | inl stop ↦ absurd (ground (arith, take_word-shorter x xs ne none_longer))
        | inr (h, go) ↦
            let one : take_word k (x ∷ xs) ≡ some (x ∷ [], h) =
              take_word-shorter x xs ne none_longer ∙ rw go in
            let ew : x ∷ [] ≡ w = ground (arith, one) in
            let eg : h ≡ g = ground (arith, one) in
            rw (← ew) ((ne, tt), (xs, refl, go ∙ ap some eg))
      ]
      | inr ((v, h), longer) ↦
          let more = take_word-longer x xs v h ne longer in
          let ew : x ∷ v ≡ w = ground (arith, more) in
          let eg : h ≡ g = ground (arith, more) in
          let (word, split) = take_word_sound xs v h longer in
          let (rest, es, er) = split in
          rw (← ew) ((ne, IsWord-All v word), (rest, ap (◌∷◌ x) es, er ∙ ap some eg))
    ]
  ]

  pub take_word_complete :
      (w rest : Topic) → IsWord w → k rest ≢ none → take_word k (w ++ rest) ≢ none
  take_word_complete [] rest h d = absurd h
  take_word_complete (x ∷ []) rest h d = elim (Option-cases (take_word k rest)) [
    | inl e ↦ ground (arith, take_word-shorter x rest h.0 e)
    | inr ((v, g), e) ↦ ground (arith, take_word-longer x rest v g h.0 e)
  ]
  take_word_complete (x ∷ (y ∷ ys)) rest h d = elim (Option-cases (take_word k (y ∷ ys ++ rest))) [
    | inl e ↦ absurd (take_word_complete (y ∷ ys) rest h.1 d e)
    | inr ((v, g), e) ↦ ground (arith, take_word-longer x (y ∷ ys ++ rest) v g h.0 e)
  ]

pub match_tokens_sound :
    (ts : List Token) (s : Topic) (g : Groups) → match_tokens ts s ≡ some g → Matches ts s g
unfolding match_tokens
match_tokens_sound [] s g e = elim (Bool-cases (at_end s)) [
  | inl fine ↦ let eg : [] ≡ g = ground arith in rw (← eg) (ends ((at_end_iff s).0 fine))
  | inr more ↦ absurd (ground arith)
]
match_tokens_sound (char c ∷ ts) [] g e = cc
match_tokens_sound (char c ∷ ts) (x ∷ xs) g e = elim (Bool-cases (fits c x)) [
  | inl fit ↦ steps ((fits_iff c x).0 fit) (match_tokens_sound ts xs g (rw fit at e))
  | inr misfit ↦ cc (rw misfit at e)
]
match_tokens_sound (param name ∷ ts) s g e =
    elim (Option-cases (take_word (λ r. match_tokens ts r) s)) [
      | inl stop ↦ absurd (ground (arith, stop))
      | inr ((w, h), go) ↦
          let (word, split) = take_word_sound (λ r. match_tokens ts r) s w h go in
          let (rest, es, er) = split in
          let eg : (name, w) ∷ h ≡ g = ground (arith, go) in
          rw (← eg) (reads w word es (match_tokens_sound ts rest h er))
    ]

match_tokens_complete :
    {ts : List Token} {s : Topic} {g : Groups} → Matches ts s g → match_tokens ts s ≢ none
unfolding match_tokens
match_tokens_complete (ends {s} e) = rw ((at_end_iff s).1 e) (λ p. cc)
match_tokens_complete (steps {c} {x} {ts} fit m) =
    rw ((fits_iff c x).1 fit) (match_tokens_complete m)
match_tokens_complete (reads {name} {ts} {rest} {s} w word es m) =
    elim (Option-cases (take_word (λ r. match_tokens ts r) s)) [
      | inl stop ↦ absurd (
          take_word_complete (λ r. match_tokens ts r) w rest word (match_tokens_complete m)
            (ap (take_word (λ r. match_tokens ts r)) (sym es) ∙ stop))
      | inr ((v, h), go) ↦ λ p. ground (arith, go)
    ]

-- The matcher decides the language of the pattern, in which a character stands for itself, a dot for
-- any character but a line feed, a parameter for one or more characters but slashes, and a line feed
-- may follow at the end: what it returns are the words of the parameters, in order, of a way to read
-- the whole topic; and if it returns None there is no such way.
pub match_tokens-Matches :
    (ts : List Token) (s : Topic)
    → ((g : Groups) → match_tokens ts s ≡ some g → Matches ts s g)
      × (match_tokens ts s ≡ none → (g : Groups) → ¬ Matches ts s g)
match_tokens-Matches ts s = (match_tokens_sound ts s, λ e g m. match_tokens_complete m e)
