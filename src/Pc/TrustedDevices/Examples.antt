-- ===== src/Pc/TrustedDevices/Examples.antt =====
-- A store that trusts a phone.
use gemacast.Prelude.{◌≡◌, refl, [], ◌∷◌, List, none, true, false, ok, err, if◌then◌else◌}
use gemacast.Prelude.Assoc.{text_Eq, text_eq, lookup, insert, remove}
use gemacast.Pc.TrustedDevices.{
  TrustedDevice, not_saved, load, collect, file_of, bind_pc_identity, is_trusted, trust, forget,
  sorted_values, insert_sorted, text_leb,
}
use gemacast.Pc.TrustedDevices.Restart.{
  Move, binds, trusts, forgets, restarts, step, run, restart_keeps_trust,
}
use gemacast.Pc.TrustedDevices.Forgotten.{none_trusts, forgotten_stays}
use gemacast.Pc.TrustedDevices.Effects.{forget_effect, trust_error}

abbrev phone : TrustedDevice
phone = record { device_id = 80 ∷ []; device_name = 80 ∷ []; public_key = 1 ∷ 2 ∷ [] }

abbrev tablet : TrustedDevice
tablet = record { device_id = 84 ∷ []; device_name = 84 ∷ []; public_key = 3 ∷ [] }

-- The removal of the tablet is not saved.
abbrev past : List Move
past =
    binds (7 ∷ []) true
    ∷ trusts tablet true
    ∷ trusts phone true
    ∷ restarts
    ∷ forgets (84 ∷ []) false
    ∷ []

phone_held : lookup (80 ∷ []) (run (load none) past).revoked ≡ none
unfolding lookup insert remove run step load collect bind_pc_identity trust forget file_of
    sorted_values insert_sorted text_leb text_eq
phone_held = refl

restart_keeps_trust_example :
    is_trusted (load (run (load none) past).disk) (80 ∷ []) (1 ∷ 2 ∷ [])
    ≡ is_trusted (run (load none) past) (80 ∷ []) (1 ∷ 2 ∷ [])
restart_keeps_trust_example = restart_keeps_trust none past (80 ∷ []) (1 ∷ 2 ∷ []) phone_held

forgets_phone : (forget (run (load none) past) (80 ∷ []) true).1 ≡ ok true
unfolding lookup insert remove run step load collect bind_pc_identity trust forget file_of
    sorted_values insert_sorted text_leb text_eq
forgets_phone = refl

forgotten_stays_example :
    is_trusted
      (run (forget (run (load none) past) (80 ∷ []) true).0 (restarts ∷ trusts tablet true ∷ []))
      (80 ∷ [])
      (1 ∷ 2 ∷ [])
    ≡ false
unfolding none_trusts text_eq
forgotten_stays_example =
    forgotten_stays none past (80 ∷ []) true true (restarts ∷ trusts tablet true ∷ []) (1 ∷ 2 ∷ [])
      forgets_phone refl

forget_effect_example :
    let w = run (load none) past in
    is_trusted (forget w (80 ∷ []) false).0 (80 ∷ []) (1 ∷ 2 ∷ [])
    ≡ (if text_eq (80 ∷ []) (80 ∷ []) then false else is_trusted w (80 ∷ []) (1 ∷ 2 ∷ []))
forget_effect_example = forget_effect none past (80 ∷ []) false (80 ∷ []) (1 ∷ 2 ∷ [])

not_trusted : (trust (run (load none) past) tablet false).1 ≡ err not_saved
unfolding lookup insert remove run step load collect bind_pc_identity trust forget file_of
    sorted_values insert_sorted text_leb text_eq
not_trusted = refl

trust_error_example :
    let w = run (load none) past in
    is_trusted (trust w tablet false).0 (84 ∷ []) (3 ∷ []) ≡ is_trusted w (84 ∷ []) (3 ∷ [])
trust_error_example = trust_error none past tablet false not_saved (84 ∷ []) (3 ∷ []) not_trusted
