-- ===== src/Router/Pattern/Subscription.antt =====
-- MQTT's rules for topic filters, and what a route matches of its subscription.
use route_mq.Prelude.{
  ℕ, ◌≡◌, ◌≢◌, refl, ap, subst, ◌∙◌, Bool, true, false, not, ◌&&◌, List, [], ◌∷◌, ◌++◌, some, none,
  arith, ◌==◌, All, map, All-append_right, inl, inr, if◌then◌else◌,
}
use route_mq.Router.Pattern.{Topic, Token, char, param, Groups, match_tokens, subscription_topic}
use route_mq.Router.Pattern.Language.{
  IsWord, StandsFor, IsEnd, Matches, ends, steps, reads, match_tokens_sound,
}
use route_mq.Router.Pattern.Filling.{IsLevelled, IsLevelled-tail}

-- What stands behind the first level of a topic.
abbrev pub drop_level : Topic → Topic
drop_level [] = []
drop_level (x ∷ xs) = if x == b'/' then x ∷ xs else drop_level xs

abbrev starts_with : ℕ → Topic → Bool
starts_with c [] = false
starts_with c (x ∷ xs) = x == c

-- A level ends here.
abbrev level_ends : Topic → Bool
level_ends [] = true
level_ends (x ∷ xs) = x == b'/'

abbrev same_first : ℕ → (Topic → Bool) → Topic → Bool
same_first f k [] = false
same_first f k (x ∷ xs) = f == x && k xs

-- A filter covers a topic level by level. A `+` must be a whole level, and takes one level of the
-- topic, also an empty one; any other character takes itself. The flag is whether a level starts.
abbrev pub covers : Bool → Topic → Topic → Bool
covers start [] [] = true
covers start [] (x ∷ xs) = false
covers start (f ∷ fs) s = elim (f == b'+') [
  | true ↦ start && (level_ends fs && covers false fs (drop_level s))
  | false ↦ same_first f (covers (f == b'/') fs) s
]

-- Whether MQTT 3.1.1 (section 4.7) delivers a topic for a filter without `#`: a filter that starts
-- with a wildcard takes no topic that starts with `$`.
abbrev pub delivers : Topic → Topic → Bool
delivers filter topic =
    not (starts_with b'+' filter && starts_with b'$' topic) && covers true filter topic

-- Characters that stand for themselves on both sides: no dot, and no wildcard.
abbrev pub IsLiteral : List Token → Type 0
IsLiteral [] = Unit
IsLiteral (char c ∷ ts) = (c ≢ b'.') × ((c ≢ b'+') × ((c ≢ b'#') × IsLiteral ts))
IsLiteral (param name ∷ ts) = IsLiteral ts

-- Each parameter starts its level.
abbrev pub StartsLevels : Bool → List Token → Type 0
StartsLevels start [] = Unit
StartsLevels start (char c ∷ ts) = StartsLevels (c == b'/') ts
StartsLevels start (param name ∷ ts) = (start ≡ true) × StartsLevels false ts

abbrev pub NoLineFeed : Topic → Type 0
NoLineFeed = All λ c. c ≢ 10

drop_level-word : (w rest : Topic) → IsWord w → drop_level (w ++ rest) ≡ drop_level rest
drop_level-word [] rest h = absurd h
drop_level-word (x ∷ []) rest h = ground (arith, h.0)
drop_level-word (x ∷ (y ∷ ys)) rest h = ground (arith, h.0, drop_level-word (y ∷ ys) rest h.1)

IsEnd-empty : (s : Topic) → IsEnd s → NoLineFeed s → s ≡ []
IsEnd-empty s (inl e) n = e
IsEnd-empty s (inr e) n = absurd ((subst NoLineFeed e n).0 refl)

StandsFor-literal : (c x : ℕ) → c ≢ b'.' → StandsFor c x → x ≡ c
StandsFor-literal c x literal (inl same) = same
StandsFor-literal c x literal (inr (dot, h)) = absurd (literal dot)

-- A level ends where the rest of the pattern begins.
drop_level-rest :
    (name : Topic) (ts : List Token) (rest : Topic) (g : Groups)
    → IsLevelled (param name ∷ ts)
    → IsLiteral ts
    → NoLineFeed rest
    → Matches ts rest g
    → drop_level rest ≡ rest
drop_level-rest name [] rest g l p n (ends e) = rw (IsEnd-empty rest e n)
drop_level-rest name (char c ∷ ts) rest g l p n (steps {x = x} fit m) =
    let slash : x ≡ b'/' = StandsFor-literal c x p.0 fit ∙ l.0 in rw slash
drop_level-rest name (param other ∷ ts) rest g l p n m = absurd l

level_ends-rest :
    (name : Topic) (ts : List Token)
    → IsLevelled (param name ∷ ts)
    → level_ends (subscription_topic ts) ≡ true
unfolding subscription_topic
level_ends-rest name [] l = refl
level_ends-rest name (char c ∷ ts) l = rw l.0 refl
level_ends-rest name (param other ∷ ts) l = absurd l

Matches-covers :
    {ts : List Token} {s : Topic} {g : Groups} (start : Bool)
    → Matches ts s g
    → StartsLevels start ts
    → IsLevelled ts
    → IsLiteral ts
    → NoLineFeed s
    → covers start (subscription_topic ts) s ≡ true
unfolding subscription_topic
Matches-covers start (ends {s} e) o l p n = rw (IsEnd-empty s e n)
Matches-covers start (steps {c} {x} {ts} {s} fit m) o l p n =
    let same = StandsFor-literal c x p.0 fit in
    let rest = Matches-covers (c == b'/') m o l p.1.1.1 n.1 in ground (arith, p.1.0)
Matches-covers start (reads {name} {ts} {rest} {s} {g} w word es m) o l p n =
    let clean = All-append_right (λ (c : ℕ). c ≢ 10) w rest (subst NoLineFeed es n) in
    let dropped =
      ap drop_level es ∙ drop_level-word w rest word ∙ drop_level-rest name ts rest g l p clean m in
    rw (o.0, level_ends-rest name ts l, dropped)
      (Matches-covers false m o.1 (IsLevelled-tail name ts l) p clean)

-- Where each parameter of a route is a whole level and the other characters are no dot and no
-- wildcard, each topic that the route matches is one that MQTT delivers for the route's
-- subscription, if it has no line feed and does not start with a dollar sign.
pub match_tokens-delivers :
    (ts : List Token) (s : Topic) (g : Groups)
    → StartsLevels true ts
    → IsLevelled ts
    → IsLiteral ts
    → NoLineFeed s
    → starts_with b'$' s ≡ false
    → match_tokens ts s ≡ some g
    → delivers (subscription_topic ts) s ≡ true
match_tokens-delivers ts s g o l p n ordinary e =
    let covered = Matches-covers true (match_tokens_sound ts s g e) o l p n in
    ground (arith, covered, ordinary)

-- A route that ends in a parameter of its own level.
abbrev pub last_level : Topic → Topic → List Token
last_level prefix name = map char prefix ++ char b'/' ∷ param name ∷ []

abbrev pub NoWildcard : Topic → Type 0
NoWildcard = All λ c. (c ≢ b'+') × (c ≢ b'#')

last_level-covers :
    (start : Bool) (prefix name : Topic)
    → NoWildcard prefix
    → covers start (subscription_topic (last_level prefix name)) (prefix ++ b'/' ∷ []) ≡ true
unfolding subscription_topic
last_level-covers start [] name p = refl
last_level-covers start (c ∷ cs) name p =
    let rest = last_level-covers (c == b'/') cs name p.1 in ground (arith, p.0.0, rest)

last_level-plain :
    (prefix name : Topic)
    → NoWildcard prefix
    → starts_with b'+' (subscription_topic (last_level prefix name)) ≡ false
unfolding subscription_topic
last_level-plain [] name p = refl
last_level-plain (c ∷ cs) name p = ground (arith, p.0.0)

last_level-unmatched :
    (prefix name : Topic) → match_tokens (last_level prefix name) (prefix ++ b'/' ∷ []) ≡ none
unfolding match_tokens
last_level-unmatched [] name = refl
last_level-unmatched (c ∷ cs) name = ground (arith, last_level-unmatched cs name)

-- MQTT delivers more than the route matches: for a route whose only parameter is its last level,
-- and whose other characters are no wildcards, the topic that stops at the slash before the
-- parameter is delivered for the subscription, and the route does not match it.
pub empty_level-unmatched :
    (prefix name : Topic)
    → NoWildcard prefix
    → (delivers (subscription_topic (last_level prefix name)) (prefix ++ b'/' ∷ []) ≡ true)
      × (match_tokens (last_level prefix name) (prefix ++ b'/' ∷ []) ≡ none)
empty_level-unmatched prefix name p =
    let covered = last_level-covers true prefix name p in
    let plain = last_level-plain prefix name p in
    (rw (plain, covered) refl, last_level-unmatched prefix name)
