-- ===== src/Sequences/KeyTests.antt =====
-- The keys of two messages of one enrollment.
use listmonk_ops.Prelude.{◌≡◌, refl}
use listmonk_ops.Sequences.{SequenceEnrollment}
use listmonk_ops.Sequences.Execute.{deterministic_send_key}
use listmonk_ops.Sequences.SendKeys.{deterministic_send_key_injective}
use listmonk_ops.Sequences.Tests.{enrollment_of}

abbrev first_enrollment : SequenceEnrollment
first_enrollment = enrollment_of "e1" 41 5

abbrev later_enrollment : SequenceEnrollment
later_enrollment = record first_enrollment { updated_at = 900; next_run_at = 900 }

deterministic_send_key_injective_example :
    (first_enrollment.id ≡ later_enrollment.id)
    × (first_enrollment.revision ≡ later_enrollment.revision)
    × (first_enrollment.current_step_id ≡ later_enrollment.current_step_id)
unfolding deterministic_send_key
deterministic_send_key_injective_example =
    deterministic_send_key_injective first_enrollment later_enrollment refl refl
