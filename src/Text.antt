-- ===== src/Text.antt =====
-- Texts: the native strings, their equality test, and the code points of a text.
use Prim.Native.Char.{code}
use route_mq.Prelude.{ℕ, List, [], ◌∷◌}
pub use Prim.Native.String.{String}

abbrev pub codes : String → List ℕ
codes String.[] = []
codes (String.◌∷◌ c s) = code c ∷ codes s
