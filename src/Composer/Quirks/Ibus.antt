-- ===== src/Composer/Quirks/Ibus.antt =====
-- crates/daemon/src/quirks/ibus.rs.
use daklak_rs.Prelude.{ℕ, ◌+◌, Bool, true, false, leb, if◌then◌else◌, u32}

pub record IbusSurroundingQuirk : Type 0 where
  pub surrounding_echo_since_correction : Bool
  pub surrounding_saw_correction : Bool
  pub surrounding_corrections_without_echo : ℕ

abbrev pub corrections_without_echo_limit : ℕ
corrections_without_echo_limit = 1

unfoldable pub new : IbusSurroundingQuirk
new = record {
  surrounding_echo_since_correction = false;
  surrounding_saw_correction = false;
  surrounding_corrections_without_echo = 0;
}

unfoldable pub mark_surrounding_frame_seen : IbusSurroundingQuirk → IbusSurroundingQuirk
mark_surrounding_frame_seen q = record q { surrounding_echo_since_correction = true }

unfoldable pub note_correction_and_should_downgrade :
    IbusSurroundingQuirk → IbusSurroundingQuirk × Bool
note_correction_and_should_downgrade q =
    let strikes = u32 (q.surrounding_corrections_without_echo + 1) in
    if q.surrounding_saw_correction
    then if q.surrounding_echo_since_correction
      then (
        record q {
          surrounding_corrections_without_echo = 0;
          surrounding_echo_since_correction = false;
        },
        false,
      )
      else (
        record q { surrounding_corrections_without_echo = strikes },
        leb corrections_without_echo_limit strikes,
      )
    else (
      record q { surrounding_saw_correction = true; surrounding_echo_since_correction = false },
      false,
    )
