-- ===== src/Dsi/Jni.antt =====
-- What the proxy does to the outside, and `record` and `deliver` of guest/dsi/trace.c.
-- The Java VM is a parameter: how far its calls get.
use vw_firmware_mac.Base.{ℕ, List, [], ◌∷◌, Bool, true, false, if◌then◌else◌, length, take, min}

-- The directions of the log lines.
pub data Label : Type 0 where
  trace_loaded tx tx_forward_missing rx rx_forward_missing jni_tx : Label
  empty_store_rx empty_store_delivery_failed input_connected input_rx : Label

-- `logged`: a line with the length and the bytes shown. `received`: the call of `receiveFromApp`
-- with a buffer that holds these bytes. `forwarded`: the call of the original entry point.
-- `thrown`: an `UnsatisfiedLinkError`. `input_wanted`: the call of `start_input`.
pub data Event : Type 0 where
  logged : Label → ℕ → List ℕ → Event
  pushed popped : Event
  received : List ℕ → Event
  forwarded : Event
  thrown : Event
  input_wanted : Event

-- `n` is the length that the caller gives, and at most 96 bytes are shown.
unfoldable pub record_line : Label → ℕ → List ℕ → Event
record_line direction n bytes = logged direction n (take (min n 96) bytes)

-- Which calls of the VM succeed: the local frame, the classes, the methods, `getInstance`,
-- `getBufferRx`, `array`, `SetByteArrayRegion`, and `receiveFromApp` without an exception.
pub record Jni : Type 0 where
  pub frame : Bool
  pub classes : Bool
  pub methods : Bool
  pub dispatcher : Bool
  pub buffer : Bool
  pub array : Bool
  pub region : Bool
  pub received_ok : Bool

-- The label `fail` of `deliver`.
abbrev failed : Bool × List Event
failed = (false, pushed ∷ record_line empty_store_delivery_failed 0 [] ∷ popped ∷ [])

unfoldable pub deliver : Jni → List ℕ → Bool × List Event
deliver j bytes =
    if j.frame
    then (if j.classes
        then (if j.methods
            then (if j.dispatcher
                then (if j.buffer
                    then (if j.array
                        then (if j.region
                            then (if j.received_ok
                                then (
                                  true,
                                  pushed
                                      ∷ received bytes
                                      ∷ record_line empty_store_rx (length bytes) bytes
                                      ∷ popped
                                      ∷ [],
                                )
                                else (
                                  false,
                                  pushed
                                      ∷ received bytes
                                      ∷ record_line empty_store_delivery_failed 0 []
                                      ∷ popped
                                      ∷ [],
                                ))
                            else failed)
                        else failed)
                    else failed)
                else failed)
            else failed)
        else failed)
    else (false, [])
