-- ===== src/Router/Pattern/Filling.antt =====
-- A pattern filled with words is matched by these words.
use route_mq.Prelude.{◌≡◌, refl, ◌∙◌, Option, none, some, List, [], ◌∷◌, ◌++◌, arith}
use route_mq.Router.Pattern.{Topic, Token, char, param, Groups, take_word, match_tokens}
use route_mq.Router.Pattern.Language.{IsWord, take_word-shorter, take_word-longer, take_word-slash}

-- Each parameter is the last thing in the pattern or in its level.
abbrev pub IsLevelled : List Token → Type 0
IsLevelled [] = Unit
IsLevelled (char c ∷ ts) = IsLevelled ts
IsLevelled (param name ∷ []) = Unit
IsLevelled (param name ∷ (char c ∷ ts)) = (c ≡ b'/') × IsLevelled ts
IsLevelled (param name ∷ (param other ∷ ts)) = ⊥

-- One word for each parameter.
abbrev pub Supplies : List Token → List Topic → Type 0
Supplies [] [] = Unit
Supplies [] (w ∷ ws) = ⊥
Supplies (char c ∷ ts) ws = Supplies ts ws
Supplies (param name ∷ ts) [] = ⊥
Supplies (param name ∷ ts) (w ∷ ws) = IsWord w × Supplies ts ws

abbrev pub fill : List Token → List Topic → Topic
fill [] ws = []
fill (char c ∷ ts) ws = c ∷ fill ts ws
fill (param name ∷ ts) [] = fill ts []
fill (param name ∷ ts) (w ∷ ws) = w ++ fill ts ws

abbrev pub named : List Token → List Topic → Groups
named [] ws = []
named (char c ∷ ts) ws = named ts ws
named (param name ∷ ts) [] = named ts []
named (param name ∷ ts) (w ∷ ws) = (name, w) ∷ named ts ws

take_word-all :
    (k : Topic → Option Groups) (w rest : Topic) (g : Groups)
    → IsWord w
    → take_word k rest ≡ none
    → k rest ≡ some g
    → take_word k (w ++ rest) ≡ some (w, g)
take_word-all k [] rest g h stop go = absurd h
take_word-all k (x ∷ []) rest g h stop go = take_word-shorter k x rest h.0 stop ∙ rw go
take_word-all k (x ∷ (y ∷ ys)) rest g h stop go =
    take_word-longer k x (y ∷ ys ++ rest) (y ∷ ys) g h.0
      (take_word-all k (y ∷ ys) rest g h.1 stop go)

-- No word begins where a parameter ends.
fill-stops :
    (k : Topic → Option Groups) (name : Topic) (ts : List Token) (ws : List Topic)
    → IsLevelled (param name ∷ ts)
    → take_word k (fill ts ws) ≡ none
unfolding take_word
fill-stops k name [] ws h = refl
fill-stops k name (char c ∷ ts) ws h = take_word-slash k c (fill ts ws) h.0
fill-stops k name (param other ∷ ts) ws h = absurd h

pub IsLevelled-tail :
    (name : Topic) (ts : List Token) → IsLevelled (param name ∷ ts) → IsLevelled ts
IsLevelled-tail name [] h = tt
IsLevelled-tail name (char c ∷ ts) h = h.1
IsLevelled-tail name (param other ∷ ts) h = absurd h

-- Where each parameter ends its level, the topic that comes from the pattern by putting words in
-- place of the parameters is matched, and each parameter gets its word.
pub match_tokens-fill :
    (ts : List Token) (ws : List Topic)
    → IsLevelled ts
    → Supplies ts ws
    → match_tokens ts (fill ts ws) ≡ some (named ts ws)
unfolding match_tokens
match_tokens-fill [] [] l s = refl
match_tokens-fill [] (w ∷ ws) l s = absurd s
match_tokens-fill (char c ∷ ts) ws l s = ground (arith, match_tokens-fill ts ws l s)
match_tokens-fill (param name ∷ ts) [] l s = absurd s
match_tokens-fill (param name ∷ ts) (w ∷ ws) l s =
    let rest = match_tokens-fill ts ws (IsLevelled-tail name ts l) s.1 in
    rw (
      take_word-all (λ r. match_tokens ts r) w (fill ts ws) (named ts ws) s.0
        (fill-stops _ name ts ws l) rest)
