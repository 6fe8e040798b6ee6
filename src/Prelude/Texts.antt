-- ===== src/Prelude/Texts.antt =====
-- Texts: joining.
use Prim.Native.String.{String, ◌++◌}
use mathlib.Core.List.{List, [], ◌∷◌}

-- `separator.join(texts)`
abbrev pub join : String → List String → String
join separator [] = ""
join separator (t ∷ []) = t
join separator (t ∷ u ∷ texts) = t ++ (separator ++ join separator (u ∷ texts))

abbrev pub append : String → String → String
append s t = s ++ t
