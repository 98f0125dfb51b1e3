-- ===== src/Zallocrout/Tests/Codes.antt =====
-- The bytes of a string of ASCII characters, for the tests.
use Prim.Native.Char.{code}
use Prim.Native.String.{String}
use go_kitbox.Prelude.{[], ◌∷◌}
use go_kitbox.Zallocrout.Paths.{Bytes}

abbrev pub codes : String → Bytes
codes String.[] = []
codes (String.◌∷◌ c s) = code c ∷ codes s
