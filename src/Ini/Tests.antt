-- ===== src/Ini/Tests.antt =====
-- Runs of the parser, and the theorems at small inputs.
use my_resource.Base.{◌≡◌, none, some, List, [], ◌∷◌, arith}
use my_resource.Base.Fault.{ok}
use my_resource.Ini.{Section}
use my_resource.Ini.Lines.{print_ini}
use my_resource.Ini.Parse.{load_ini}
use my_resource.Ini.RoundTrip.{load_ini-print_ini}

-- [a]
-- k=v
-- e=
-- [b]
abbrev sections : List Section
sections =
    record {
      name = b'a' ∷ [];
      child =
          record { key = b'k' ∷ []; value = some (b'v' ∷ []) }
          ∷ record { key = b'e' ∷ []; value = none }
          ∷ [];
    }
    ∷ record { name = b'b' ∷ []; child = [] }
    ∷ []

load_ini-print_ini_example : load_ini (some (print_ini sections)) ≡ ok sections
load_ini-print_ini_example = load_ini-print_ini sections (omega arith)
