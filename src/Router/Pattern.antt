-- ===== src/Router/Pattern.antt =====
-- The route patterns of routemq/router.py: `Route._compile_topic_pattern`,
-- `Route._get_mqtt_subscription_topic` and `Route.matches`.
pub mod Language
pub mod Filling
pub mod Subscription
use mathlib.Core.Option
use route_mq.Prelude.{
  ℕ, zero, suc, ◌+◌, Bool, true, false, not, ◌&&◌, ◌||◌, Option, none, some, List, [], ◌∷◌, ◌++◌,
  leb, ◌==◌, length, if◌then◌else◌,
}

abbrev pub Topic : Type 0
Topic = List ℕ

-- What `re.sub` makes of a topic: characters that stay, and parameters in braces.
pub data Token : Type 0 where
  char : ℕ → Token
  param : Topic → Token

-- The text up to the last `}` before the next `/`, and its length counts what is read.
unfoldable pub to_last_brace : Topic → Option Topic
to_last_brace [] = none
to_last_brace (c ∷ cs) =
    let rest = to_last_brace cs in
    if c == b'/'
    then none
    else elim rest [ some name ↦ some (c ∷ name) | none ↦ if c == b'}' then some [] else none ]

-- `([^/]+)}` behind a `{`: at least one character, as many as can be.
unfoldable pub param_name : Topic → Option Topic
unfolding to_last_brace
param_name [] = none
param_name (c ∷ cs) = if c == b'/' then none else Option.map (λ name. c ∷ name) (to_last_brace cs)

abbrev starts_param : ℕ → Topic → Option Topic
starts_param c cs = if c == b'{' then param_name cs else none

-- The matches of `{([^/]+)}` from the left. The number counts the characters that a match has yet
-- to pass over.
unfoldable pub scan : ℕ → Topic → List Token
unfolding param_name
scan skip [] = []
scan (suc k) (c ∷ cs) = scan k cs
scan zero (c ∷ cs) = elim (starts_param c cs) [
  | none ↦ char c ∷ scan zero cs
  | some name ↦ param name ∷ scan (length name + 1) cs
]

abbrev pub tokens : Topic → List Token
tokens topic = scan zero topic

-- `re.sub(r'{[^/]+}', '+', topic)` has the same matches.
unfoldable pub subscription_topic : List Token → Topic
subscription_topic [] = []
subscription_topic (char c ∷ ts) = c ∷ subscription_topic ts
subscription_topic (param name ∷ ts) = b'+' ∷ subscription_topic ts

abbrev between : ℕ → ℕ → ℕ → Bool
between lo hi c = leb lo c && leb c hi

abbrev is_letter : ℕ → Bool
is_letter c = between b'a' b'z' c || (between b'A' b'Z' c || c == b'_')

abbrev all_word : Topic → Bool
all_word [] = true
all_word (c ∷ cs) = (is_letter c || between b'0' b'9' c) && all_word cs

-- A name that Python's `re` takes for a group.
pub is_identifier : Topic → Bool
is_identifier [] = false
is_identifier (c ∷ cs) = is_letter c && all_word cs

-- A character that stands for itself in a pattern, or the dot.
pub is_plain : ℕ → Bool
is_plain c = not (
    c == b'$'
    || (c == b'^'
        || (c == b'*'
            || (c == b'+'
                || (c == b'?'
                    || (c == b'('
                        || (c == b')'
                            || (c == b'['
                                || (c == b']'
                                    || (c == b'{' || (c == b'}' || (c == b'|' || c == 92))))))))))))

abbrev pub text_eq : Topic → Topic → Bool
text_eq [] [] = true
text_eq (c ∷ cs) (d ∷ ds) = c == d && text_eq cs ds
text_eq _ _ = false

abbrev is_param : Topic → Token → Bool
is_param name (char c) = false
is_param name (param n) = text_eq name n

abbrev has_param : Topic → List Token → Bool
has_param name [] = false
has_param name (t ∷ ts) = is_param name t || has_param name ts

-- The patterns that `re.compile` takes and that are modelled: plain characters and dots, and
-- groups with identifiers of ASCII that differ.
unfoldable pub compiles : List Token → Bool
unfolding is_identifier is_plain
compiles [] = true
compiles (char c ∷ ts) = is_plain c && compiles ts
compiles (param name ∷ ts) = is_identifier name && (not (has_param name ts) && compiles ts)

abbrev pub Groups : Type 0
Groups = List (Topic × Topic)

-- `.` is any character but a line feed.
unfoldable pub fits : ℕ → ℕ → Bool
fits c x = c == x || (c == b'.' && not (x == 10))

-- `$` is the end, or a line feed before it.
unfoldable pub at_end : Topic → Bool
at_end [] = true
at_end (x ∷ []) = x == 10
at_end _ = false

-- `[^/]+`, the longest word first, and then the rest of the pattern.
unfoldable pub take_word : (Topic → Option Groups) → Topic → Option (Topic × Groups)
take_word k [] = none
take_word k (x ∷ xs) =
    let longer = take_word k xs in
    if x == b'/'
    then none
    else elim longer [ some (w, g) ↦ some (x ∷ w, g) | none ↦ Option.map (λ g. (x ∷ [], g)) (k xs) ]

-- `self.pattern.match(topic)` and `groupdict`.
unfoldable pub match_tokens : List Token → Topic → Option Groups
unfolding fits at_end take_word
match_tokens [] s = if at_end s then some [] else none
match_tokens (char c ∷ ts) [] = none
match_tokens (char c ∷ ts) (x ∷ xs) =
    let rest = match_tokens ts xs in if fits c x then rest else none
match_tokens (param name ∷ ts) s =
    Option.map (λ (w, g). (name, w) ∷ g) (take_word (λ r. match_tokens ts r) s)
