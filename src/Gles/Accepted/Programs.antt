-- ===== src/Gles/Accepted/Programs.antt =====
-- The host accepts what the entry points of Gles/Programs.antt send.
use vw_firmware_mac.Base.{refl}
use vw_firmware_mac.Gles.Accepted.Check.{IsServed, checks, outcome_of}
use vw_firmware_mac.Gles.Programs.{
  ProgramCall, program_command, program_operation, bind_attrib_location, create_program,
  delete_program, get_active_attrib, get_active_uniform, get_attrib_location, get_programiv,
  get_program_info_log, is_program, link_program, use_program, validate_program, program_binary_oes,
  get_program_binary_oes,
}

pub program_command-IsServed :
    (c : ProgramCall)
    → IsServed (program_operation c) (outcome_of (program_operation c)) (program_command c)
unfolding checks outcome_of program_command program_operation
program_command-IsServed (bind_attrib_location a0 a1 a2) = (refl, refl)
program_command-IsServed create_program = (refl, refl)
program_command-IsServed (delete_program a0) = (refl, refl)
program_command-IsServed (get_active_attrib a0 a1 a2 a3 a4 a5 a6) = (refl, refl)
program_command-IsServed (get_active_uniform a0 a1 a2 a3 a4 a5 a6) = (refl, refl)
program_command-IsServed (get_attrib_location a0 a1) = (refl, refl)
program_command-IsServed (get_programiv a0 a1 a2) = (refl, refl)
program_command-IsServed (get_program_info_log a0 a1 a2 a3) = (refl, refl)
program_command-IsServed (is_program a0) = (refl, refl)
program_command-IsServed (link_program a0) = (refl, refl)
program_command-IsServed (use_program a0) = (refl, refl)
program_command-IsServed (validate_program a0) = (refl, refl)
program_command-IsServed (program_binary_oes a0 a1 a2 a3) = refl
program_command-IsServed (get_program_binary_oes a0 a1 a2 a3 a4) = refl
