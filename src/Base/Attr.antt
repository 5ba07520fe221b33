-- ===== src/Base/Attr.antt =====
-- log/slog: the attributes of a log line.
use mathlib.Core.Bool.{Bool}
use linkedin_api.Base.Texts.{Text}
use linkedin_api.Base.Int.{ℤ}

pub data Value : Type 0 where
  text : Text → Value
  number : ℤ → Value
  flag : Bool → Value

abbrev pub Attr : Type 0
Attr = Text × Value
