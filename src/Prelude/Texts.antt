-- ===== src/Prelude/Texts.antt =====
-- The joining of texts, under a name of its own beside that of lists.
use Prim.Native.String.{String, ◌++◌}

infixr 5 ◌&◌
abbrev pub ◌&◌ : String → String → String
s & t = s ++ t
