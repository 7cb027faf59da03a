-- ===== src/Security/Tests.antt =====
-- The queries at a firmware in setup mode.
use stub.Prelude.{◌≡◌, ◌↔◌, refl, Bool, true, some, [], ◌∷◌}
use stub.Machine.{ok, Firmware}
use stub.Machine.Sample.{firmware, start}
use stub.Security.{read_bool_variable, setup_mode_name}
use stub.Security.Answers.{into, IsEnabled, read_bool_variable-IsEnabled}

abbrev setup : Firmware
setup = record firmware { get_variable = λ s name size. into size (some (1 ∷ [])) }

read_bool_variable-IsEnabled_example :
    (answered : Bool) × ((read_bool_variable setup setup_mode_name start).0 ≡ ok answered)
    × ((answered ≡ true) ↔ IsEnabled setup setup_mode_name (some (1 ∷ [])))
read_bool_variable-IsEnabled_example =
    read_bool_variable-IsEnabled setup setup_mode_name start (some (1 ∷ [])) (λ size. refl)
