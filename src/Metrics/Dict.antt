-- ===== src/Metrics/Dict.antt =====
-- Labelsets as keys of a dict.
use text.Mathlib.TextEquality.{eq_iff}
use route_mq.Prelude.{◌≡◌, refl, true, [], ◌∷◌, arith}
use route_mq.Metrics.{LabelKey, same_label_key}

pub same_label_key_sound : (j k : LabelKey) → same_label_key j k ≡ true → j ≡ k
same_label_key_sound [] [] h = refl
same_label_key_sound [] (k ∷ ks) h = absurd (ground arith)
same_label_key_sound (j ∷ js) [] h = absurd (ground arith)
same_label_key_sound ((n, v) ∷ js) ((n', v') ∷ ks) h =
    let rest = same_label_key_sound js ks (ground arith) in
    let names : n ≡ n' = ground (arith, eq_iff n n') in
    let values : v ≡ v' = ground (arith, eq_iff v v') in cc

pub same_label_key_refl : (k : LabelKey) → same_label_key k k ≡ true
same_label_key_refl [] = refl
same_label_key_refl ((n, v) ∷ ks) =
    let rest = same_label_key_refl ks in ground (arith, eq_iff n n, eq_iff v v, rest)
