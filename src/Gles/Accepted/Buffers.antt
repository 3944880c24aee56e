-- ===== src/Gles/Accepted/Buffers.antt =====
-- The host accepts what the entry points of Gles/Buffers.antt send.
use vw_firmware_mac.Base.{refl}
use vw_firmware_mac.Gles.Accepted.Check.{IsServed, checks, outcome_of}
use vw_firmware_mac.Gles.Buffers.{
  BufferCall, buffer_command, buffer_operation, bind_buffer, buffer_data, buffer_sub_data,
  delete_buffers, gen_buffers, get_buffer_parameteriv, is_buffer,
}
use vw_firmware_mac.Gles.Command.{Bridge}

pub buffer_command-IsServed :
    (bridge : Bridge) (c : BufferCall)
    → IsServed (buffer_operation c) (outcome_of (buffer_operation c)) ((buffer_command bridge c).1)
unfolding checks outcome_of buffer_command buffer_operation
buffer_command-IsServed bridge (bind_buffer a0 a1) = (refl, refl)
buffer_command-IsServed bridge (buffer_data a0 a1 a2 a3) = (refl, refl)
buffer_command-IsServed bridge (buffer_sub_data a0 a1 a2 a3) = (refl, refl)
buffer_command-IsServed bridge (delete_buffers a0 a1) = (refl, refl)
buffer_command-IsServed bridge (gen_buffers a0 a1) = (refl, refl)
buffer_command-IsServed bridge (get_buffer_parameteriv a0 a1 a2) = (refl, refl)
buffer_command-IsServed bridge (is_buffer a0) = (refl, refl)
