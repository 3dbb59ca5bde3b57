-- ===== src/Registrar/Tests.antt =====
-- Three event types.
use pipert.Base.{◌≡◌, [], ◌∷◌, some, arith}
use pipert.Registrar.{Register, empty_register, register_all, collect_ids}
use pipert.Registrar.Collecting.{collect_ids-register_all}

collect_ids-register_all_example :
    (r : Register) × (register_all empty_register (11 ∷ 12 ∷ 13 ∷ []) ≡ some r)
    × (collect_ids r ≡ some (11 ∷ 12 ∷ 13 ∷ []))
collect_ids-register_all_example = collect_ids-register_all (11 ∷ 12 ∷ 13 ∷ []) (omega arith)
